-- ===== src/Plugin/Actions/Push.antt =====
-- What `push_action` leaves behind.
use gxmis_plugin.Common.{
  Bytes, List, Option, true, false, ok, All, ◌≡◌, ◌≢◌, ◌∙◌, arith, sym, subst,
}
use gxmis_plugin.Plugin.Wallets.{
  WalletParams, WalletApi, terminated, parse_wltpwd, with_wallets, unlock_all,
}
use gxmis_plugin.Plugin.Wallets.Guard.{WalletLaws, with_wallets-Closed}
use gxmis_plugin.Plugin.Actions.{Library, AbiCache, Action}
use gxmis_plugin.Plugin.Actions.Create.{SystemLibrary, PushActionParams, create_push_action}
use gxmis_plugin.Plugin.Actions.Transaction.{
  Node, trx_only_signed, push_actions, run_block, push_action,
}

module _ {World : Type 0} (node : Node World) (lib : Library) (system : SystemLibrary)
    (get_abi : Bytes → Option lib.Abi) (api : WalletApi World) (split : Bytes → List Bytes) where
  abbrev wallets_of : PushActionParams → List WalletParams
  wallets_of params = parse_wltpwd split lib.trim params.wltpwd

  pub push_action-created :
      (params : PushActionParams) (cache : AbiCache lib) (w : World) (actions : List Action)
      → (create_push_action lib system get_abi params cache).1 ≡ ok actions
      → let (w', exit) =
          with_wallets api
            (wallets_of params)
            (run_block node (push_actions node actions trx_only_signed))
            w in
        let (state, exit') = push_action node lib system get_abi api split params (cache, w) in
        (state.1 ≡ w') × (exit' ≡ exit)
  unfolding push_action
  push_action-created params cache w actions created = ground arith

  -- Where the wallets that a call names could all be unlocked, they are closed after the call,
  -- whether it signed the transaction or failed, unless the process ended.
  pub push_action-Closed :
      (laws : WalletLaws api) (params : PushActionParams) (cache : AbiCache lib) (w : World)
      (actions : List Action)
      → (create_push_action lib system get_abi params cache).1 ≡ ok actions
      → (unlock_all api w (parse_wltpwd split lib.trim params.wltpwd)).1 ≡ true
      → (push_action node lib system get_abi api split params (cache, w)).1 ≢ terminated
      → All
          (λ wp.
            laws.is_open
              ((push_action node lib system get_abi api split params (cache, w)).0.1)
              wp.name
            ≡ false)
          (parse_wltpwd split lib.trim params.wltpwd)
  push_action-Closed laws params cache w actions created ready alive =
      let body = run_block node (push_actions node actions trx_only_signed) in
      let (same, exit) = push_action-created params cache w actions created in
      subst (λ after. All (λ wp. laws.is_open after wp.name ≡ false) (wallets_of params)) (sym same)
        (with_wallets-Closed api laws (wallets_of params) body w ready (λ h. alive (exit ∙ h)))
