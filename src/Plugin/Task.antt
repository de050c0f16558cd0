-- ===== src/Plugin/Task.antt =====
-- The whole of `do_match_limit_order` in plugins/data_exchange_plugin/data_exchange_plugin.cpp: the
-- actions of a trade are packed, the wallets of the two accounts and of the exchange are opened, and
-- the transaction is signed and broadcast.
pub mod Found
use gxmis_plugin.Common.{
  ℕ, Bool, true, false, Bytes, List, [], ◌∷◌, Option, none, some, Result, ok, err, ◌≡◌, refl, arith,
  if◌then◌else◌,
}
use gxmis_plugin.Common.Int.{ℤ}
use gxmis_plugin.Plugin.Matching.{
  MatchingError, ConsignmentOrder, ChainAction, transfer, mlmto, candidates, may_trade,
  deal_actions, do_match_limit_order,
}
use gxmis_plugin.Plugin.Task.Found.{Deal}
use gxmis_plugin.Plugin.Wallets.{
  WalletApi, Exit, done, raised, decrypt_wltpwd, parse_wltpwd, with_wallets,
}
use gxmis_plugin.Plugin.Actions.{Library, AbiCache, Packing, ◌>>=◌, give, Action}
use gxmis_plugin.Plugin.Actions.Create.{SystemLibrary, create_transfer, create_mlmto}
use gxmis_plugin.Plugin.Actions.Transaction.{
  Node, Reply, empty_variant, trx_broadcast_sync, push_actions, run_block,
}

module _ (lib : Library) (system : SystemLibrary) (get_abi : Bytes → Option lib.Abi) where
  open system use {Asset}

  unfoldable pub pack_action : ChainAction Asset → Packing (AbiCache lib) Action
  pack_action (transfer permissions from to quantity memo) =
      create_transfer lib system get_abi permissions from to quantity memo
  pack_action (mlmto permissions buyer_oid seller_oid commodity) =
      create_mlmto lib system get_abi permissions buyer_oid seller_oid commodity

  unfoldable pub pack_actions : List (ChainAction Asset) → Packing (AbiCache lib) (List Action)
  pack_actions [] = give []
  pack_actions (a ∷ more) = do
    packed ← pack_action a
    rest ← pack_actions more
    give (packed ∷ rest)

-- The sending of a deal. The accounts are those whose passwords are decrypted.
module _ {World : Type 0} (node : Node World) (api : WalletApi World) (lib : Library)
    (system : SystemLibrary) (get_abi : Bytes → Option lib.Abi) (split : Bytes → List Bytes)
    (wltpwd_table : Bytes → Option Bytes) where
  open system use {Asset}

  -- The state of the plugin and of the world after a trade was sent.
  unfoldable pub send_deal :
      List Bytes
      → List (ChainAction Asset)
      → AbiCache lib × World
      → (AbiCache lib × World) × Exit Reply
  send_deal accounts actions (cache, w) =
      let (cache', packed) = pack_actions lib system get_abi actions cache in
      elim packed [
        | err e ↦ ((cache', w), raised)
        | ok vec_actions ↦
            let decrypted_wltpwd = decrypt_wltpwd wltpwd_table [] accounts in
            let wallets = parse_wltpwd split lib.trim decrypted_wltpwd in
            let (w', exit) =
              with_wallets api wallets
                (run_block node (push_actions node vec_actions trx_broadcast_sync)) w in
            ((cache', w'), exit)
      ]

  -- The task for the deal that was found. An error of any step leaves the task as an exception.
  unfoldable pub match_task :
      Result MatchingError (Option (Deal Asset))
      → AbiCache lib × World
      → (AbiCache lib × World) × Exit Reply
  match_task (err e) state = (state, raised)
  match_task (ok none) state = (state, done empty_variant)
  match_task (ok (some deal)) state = send_deal deal.accounts deal.actions state
