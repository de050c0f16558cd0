-- ===== src/Api.antt =====
-- plugins/data_exchange_api_plugin/data_exchange_api_plugin.cpp: the call /v1/exchange/push_action of
-- the node's HTTP interface, which has the plugin sign a transaction and gives it to the chain.
pub mod Answers
pub mod Tests
use gxmis_plugin.Common.{
  ℕ, Bytes, List, Option, none, some, Bool, true, false, Result, ok, err, codes, is_empty,
  if◌then◌else◌,
}
use gxmis_plugin.Plugin.Wallets.{WalletApi, Exit, done, raised, terminated}
use gxmis_plugin.Plugin.Actions.{AbiCache, Library}
use gxmis_plugin.Plugin.Actions.Create.{PushActionParams, SystemLibrary}
use gxmis_plugin.Plugin.Actions.Transaction.{
  Node, SignedTransaction, empty_variant, packed_transaction, push_action,
}

-- The calls of the chain's plugin, of the HTTP plugin and of the JSON library. `push_transaction` runs
-- its callback with a result or an exception; `handle_exception` answers with a status and a text.
pub record ChainApi (World : Type 0) : Type 1 where
  pub Results : Type 0
  pub Exception : Type 0
  pub validate : World → Bool
  pub params_from_string : Bytes → Option PushActionParams
  pub push_transaction : SignedTransaction → World → World × Result Exception Results
  pub to_string : Results → Bytes
  pub handle_exception : Bytes → Exception → ℕ × Bytes

-- `if (body.empty()) body = "{}";`
abbrev pub or_object : Bytes → Bytes
or_object body = if is_empty body then codes "{}" else body

module _ {World : Type 0} (chain : ChainApi World) where
  open chain use {Exception, Results, push_transaction, to_string, handle_exception}

  -- The callback that `push_transaction` gets.
  unfoldable pub callback : Bytes → Result Exception Results → ℕ × Bytes
  callback body (err e) = handle_exception body e
  callback body (ok results) = (202, to_string results)

module _ {World : Type 0} (chain : ChainApi World) (node : Node World) (lib : Library)
    (system : SystemLibrary) (get_abi : Bytes → Option lib.Abi) (api : WalletApi World)
    (split : Bytes → List Bytes) where
  open chain use {validate, params_from_string, push_transaction}

  -- The handler: the state it leaves, and the answer, or an exception that leaves the handler. The
  -- empty variant is no object.
  unfoldable pub push_action_call :
      Bytes → AbiCache lib × World → (AbiCache lib × World) × Exit (ℕ × Bytes)
  push_action_call body (cache, w) =
      let text = or_object body in
      if validate w
      then elim (params_from_string text) [
        | none ↦ ((cache, w), raised)
        | some params ↦
            let (state, exit) = push_action node lib system get_abi api split params (cache, w) in
            elim exit [
              | raised ↦ (state, raised)
              | terminated ↦ (state, terminated)
              | done reply ↦ elim reply [
                | empty_variant ↦ (state, raised)
                | packed_transaction trx_signed ↦
                    let (w', result) = push_transaction trx_signed state.1 in
                    ((state.0, w'), done (callback chain text result))
              ]
            ]
      ]
      else ((cache, w), raised)
