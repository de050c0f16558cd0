-- ===== src/Api/Tests.antt =====
-- One call of push_action, without and with a body.
use gxmis_plugin.Common.{Bytes, bytes_eq, codes, [], none, some, true, ok, ◌≡◌, refl, if◌then◌else◌}
use gxmis_plugin.Common.Find.{contains, starts_with, span}
use gxmis_plugin.Api.{ChainApi, callback, push_action_call}
use gxmis_plugin.Api.Answers.{Answered, after_push, push_action_call-Answered}
use gxmis_plugin.Plugin.Wallets.{
  done, raised, wallet_pairs, parse_wltpwd, unlock_all, lock_all, destroyed, with_wallets,
}
use gxmis_plugin.Plugin.Wallets.Tests.{wallets, wallets-laws, all_locked, Wallets}
use gxmis_plugin.Plugin.Actions.{
  AbiCache, abi_serializer_resolver, create_action, variant_to_bin, cached,
}
use gxmis_plugin.Plugin.Actions.Permissions.{get_account_permissions, level_of_pieces}
use gxmis_plugin.Plugin.Actions.Args.{
  enclosed, combine_action_args, unescape, strip_literals, quote_separators, literal, literal_word,
  skip_blanks, sign, closing, json_from_file_or_string, looks_like_json,
}
use gxmis_plugin.Plugin.Actions.Create.{create_push_action, plain_action, arguments_text}
use gxmis_plugin.Plugin.Actions.Transaction.{
  push_action, push_actions, may_push_transaction, prepared, determine_required_keys, broadcast,
  run_block,
}
use gxmis_plugin.Plugin.Actions.Tests.{abi_of, lib, node, split_wallets, swap, system}

-- A chain that refuses no transaction; the text `{}` spells the parameters of one call.
abbrev chain : ChainApi Wallets
chain = record {
  Results = Bytes;
  Exception = Bytes;
  validate = λ w. true;
  params_from_string = λ s. if bytes_eq s (codes "{}") then some swap else none;
  push_transaction = λ t w. (w, ok (codes "pushed"));
  to_string = λ r. r;
  handle_exception = λ body e. (500, e);
}

-- The body is empty, which is read as `{}`. The cache has the ABI of the account afterwards.
abbrev swap-state : AbiCache lib × Wallets
swap-state = (after_push chain node lib system abi_of wallets split_wallets swap [] all_locked).0

swap-call :
    push_action_call chain node lib system abi_of wallets split_wallets [] ([], all_locked)
    ≡ (swap-state, done (202, codes "pushed"))
unfolding callback push_action_call push_action push_actions may_push_transaction prepared
    determine_required_keys broadcast run_block with_wallets unlock_all lock_all destroyed
    parse_wltpwd wallet_pairs create_push_action plain_action arguments_text
    json_from_file_or_string looks_like_json get_account_permissions level_of_pieces create_action
    variant_to_bin abi_serializer_resolver cached bytes_eq combine_action_args unescape enclosed
    contains starts_with strip_literals quote_separators literal literal_word skip_blanks span sign
    closing
swap-call = refl

push_action_call-Answered_example :
    Answered chain node lib system abi_of wallets split_wallets wallets-laws [] [] all_locked
      (swap-state.0)
      (swap-state.1)
      202
      (codes "pushed")
push_action_call-Answered_example =
    push_action_call-Answered chain node lib system abi_of wallets split_wallets wallets-laws [] []
      (swap-state.0) all_locked (swap-state.1) 202 (codes "pushed") swap-call

-- A body that is no JSON is an exception of the handler, and nothing is changed.
unreadable :
    push_action_call chain node lib system abi_of wallets split_wallets (codes "?") ([], all_locked)
    ≡ (([], all_locked), raised)
unfolding push_action_call bytes_eq
unreadable = refl
