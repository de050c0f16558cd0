-- ===== src/Plugin/Actions/Tests.antt =====
-- Witnesses of the theorems on the plugin's actions.
use gxmis_plugin.Common.{
  length, bytes_eq, ℕ, true, false, not, ◌==◌, Bytes, codes, List, [], ◌∷◌, map, All, Option, none,
  some, if◌then◌else◌, Passes, ok, ◌≡◌, ◌≢◌, refl, arith,
}
use gxmis_plugin.Plugin.Wallets.{
  terminated, wallet_pairs, parse_wltpwd, unlock_all, lock_all, destroyed, with_wallets,
}
use gxmis_plugin.Plugin.Wallets.Tests.{wallets, wallets-laws, all_locked, Wallets}
use gxmis_plugin.Plugin.Actions.{
  Library, PermissionLevel, Action, abi_serializer_resolver, create_action, variant_to_bin, cached,
}
use gxmis_plugin.Plugin.Actions.Permissions.{
  SplitsOnce, shown, get_account_permissions, to_permission_level, get_account_permissions-shown,
  level_of_pieces,
}
use gxmis_plugin.Plugin.Actions.Abi.{after_lookups, abi_serializer_resolver-same}
use gxmis_plugin.Plugin.Actions.Args.{
  enclosed, combine_action_args, unescape, strip_literals, quote_separators, literal, literal_word,
  skip_blanks, sign, closing, json_from_file_or_string, looks_like_json,
}
use gxmis_plugin.Common.Find.{contains, starts_with, span}
use gxmis_plugin.Plugin.Actions.Create.{
  SystemLibrary, PushActionParams, create_push_action, plain_action, arguments_text,
}
use gxmis_plugin.Plugin.Actions.Transaction.{
  Node, push_action, push_actions, may_push_transaction, prepared, determine_required_keys,
  broadcast, run_block,
}
use gxmis_plugin.Plugin.Actions.Push.{push_action-Closed}

abbrev front : ℕ → List Bytes → List Bytes
front a [] = (a ∷ []) ∷ []
front a (piece ∷ pieces) = (a ∷ piece) ∷ pieces

abbrev split_at : ℕ → Bytes → List Bytes
split_at sep [] = [] ∷ []
split_at sep (a ∷ s) = let rest = split_at sep s in if a == sep then [] ∷ rest else front a rest

abbrev pub lib : Library
lib = record {
  Abi = Bytes;
  Json = Bytes;
  to_name = λ s. some s;
  get_action_type = λ abis action. action;
  variant_to_binary = λ abis action_type args. some args;
  text = λ s. s;
  flag = λ b. codes "flag";
  object = λ fields. codes "object";
  from_string = λ s. some s;
  is_regular_file = λ s. false;
  from_file = λ s. none;
  split = split_at;
  trim = λ s. s;
}

split_at_plain : (sep : ℕ) (b : Bytes) → Passes (λ d. not (d == sep)) b → split_at sep b ≡ b ∷ []
split_at_plain sep [] h = refl
split_at_plain sep (a ∷ b) h = ground (arith, split_at_plain sep b (h.1), h.0)

split_at-SplitsOnce : SplitsOnce lib
split_at-SplitsOnce sep [] b h k = ground (arith, split_at_plain sep b k)
split_at-SplitsOnce sep (d ∷ a) b h k = ground (arith, h.0, split_at-SplitsOnce sep a b (h.1) k)

abbrev owner_level : PermissionLevel
owner_level = record { actor = codes "ab"; permission = codes "c" }

get_account_permissions-shown_example :
    (get_account_permissions lib (map (shown lib) (owner_level ∷ [])) ≡ some (owner_level ∷ []))
    × All (λ level. to_permission_level lib (shown lib level) ≡ some level) (owner_level ∷ [])
get_account_permissions-shown_example =
    get_account_permissions-shown lib (owner_level ∷ []) split_at-SplitsOnce
      ((refl, refl, (refl, (refl, tt)), (refl, tt)), tt)

-- The chain has no ABI at first and one later; another account is looked up in between.
abi_serializer_resolver-same_example :
    (abi_serializer_resolver lib
      (λ n. some (codes "abi"))
      (codes "acct")
      (after_lookups lib
        (((λ n. some (codes "x")), codes "other") ∷ [])
        ((abi_serializer_resolver lib (λ n. none) (codes "acct") []).0))).1
    ≡ (abi_serializer_resolver lib (λ n. none) (codes "acct") []).1
abi_serializer_resolver-same_example =
    abi_serializer_resolver-same lib (λ n. none) (λ n. some (codes "abi")) (codes "acct") []
      (((λ n. some (codes "x")), codes "other") ∷ [])

combine_action_args_sample :
    combine_action_args (codes "a:7,b: x%jy") ≡ codes "{\"a\":7,\"b\":\" x,y\"}"
unfolding combine_action_args unescape enclosed contains starts_with strip_literals quote_separators
    literal literal_word skip_blanks span sign closing
combine_action_args_sample = refl

abbrev pub system : SystemLibrary
system = record {
  Key = Bytes;
  Asset = ℕ;
  to_key = λ s. some s;
  core_name = codes "SYS";
  core_decimals = 4;
  asset_from_string = λ s. some (length s);
  asset_text = λ n. codes "1 SYS";
  pack_newaccount = λ creator newaccount owner active. newaccount;
}

abbrev pub node : Node Wallets
node = record {
  Keys = Bytes;
  get_info = λ w. record { head_block_time = 5; last_irreversible_block_id = []; chain_id = [] };
  wallet_public_keys = λ w. (w, ok (codes "key"));
  get_required_keys = λ trx keys w. (w, ok keys);
  wallet_sign_trx = λ trx keys chain_id w. (w, ok (record trx { signatures = keys ∷ [] }));
  push_transaction = λ trx w. (w, ok tt);
}

abbrev pub swap : PushActionParams
swap = record {
  wltpwd = codes "w#p";
  account = codes "exch";
  action_name = codes "buy";
  action_args = codes "a:7";
  permissions = codes "alice" ∷ [];
}

abbrev pub abi_of : Bytes → Option Bytes
abi_of n = some n

abbrev pub split_wallets : Bytes → List Bytes
split_wallets s = split_at b'#' s

abbrev pub swap-action : Action
swap-action = record {
  authorization = record { actor = codes "alice"; permission = codes "active" } ∷ [];
  account = codes "exch";
  name = codes "buy";
  bytes = codes "{\"a\":7}";
}

pub swap-created : (create_push_action lib system abi_of swap []).1 ≡ ok (swap-action ∷ [])
unfolding create_push_action plain_action arguments_text json_from_file_or_string looks_like_json
    get_account_permissions level_of_pieces create_action variant_to_bin abi_serializer_resolver
    cached bytes_eq combine_action_args unescape enclosed contains starts_with strip_literals
    quote_separators literal literal_word skip_blanks span sign closing
swap-created = refl

pub swap_ready :
    (unlock_all wallets all_locked (parse_wltpwd split_wallets lib.trim swap.wltpwd)).1 ≡ true
unfolding unlock_all parse_wltpwd wallet_pairs
swap_ready = refl

swap_alive :
    (push_action node lib system abi_of wallets split_wallets swap ([], all_locked)).1 ≢ terminated
unfolding push_action push_actions may_push_transaction prepared determine_required_keys broadcast
    run_block with_wallets unlock_all lock_all destroyed parse_wltpwd wallet_pairs
    create_push_action plain_action arguments_text json_from_file_or_string looks_like_json
    get_account_permissions level_of_pieces create_action variant_to_bin abi_serializer_resolver
    cached bytes_eq combine_action_args unescape enclosed contains starts_with strip_literals
    quote_separators literal literal_word skip_blanks span sign closing
swap_alive = λ same. cc

push_action-Closed_example :
    All
      (λ wp.
        wallets-laws.is_open
          ((push_action node lib system abi_of wallets split_wallets swap ([], all_locked)).0.1)
          wp.name
        ≡ false)
      (parse_wltpwd split_wallets lib.trim swap.wltpwd)
push_action-Closed_example =
    push_action-Closed node lib system abi_of wallets split_wallets wallets-laws swap [] all_locked
      (swap-action ∷ []) swap-created swap_ready swap_alive
