-- ===== src/Plugin/Actions/Transaction.antt =====
-- `push_action` and `may_push_transaction`: the actions become one transaction, which the wallet
-- signs while the guard has it open.
use gxmis_plugin.Common.{ℕ, ◌+◌, Bytes, List, [], ◌∷◌, Option, ok, err}
use gxmis_plugin.Plugin.Wallets.{WalletApi, Exit, done, raised, parse_wltpwd, with_wallets}
use gxmis_plugin.Plugin.Actions.{Library, AbiCache, Packing, ◌>>=◌, give, Action}
use gxmis_plugin.Plugin.Actions.Create.{SystemLibrary, PushActionParams, create_push_action}

-- `signed_transaction`; a block is named by its id.
pub record SignedTransaction : Type 0 where
  pub expiration : ℕ
  pub ref_block_id : Bytes
  pub max_cpu_usage_ms : ℕ
  pub max_net_usage_words : ℕ
  pub delay_sec : ℕ
  pub actions : List Action
  pub signatures : List Bytes

-- `get_info`
pub record Info : Type 0 where
  pub head_block_time : ℕ
  pub last_irreversible_block_id : Bytes
  pub chain_id : Bytes

-- `trx_broadcast_method`
pub data TrxBroadcastMethod : Type 0 where
  trx_only_signed trx_broadcast_sync : TrxBroadcastMethod

-- An empty variant, or the packed transaction.
pub data Reply : Type 0 where
  empty_variant : Reply
  packed_transaction : SignedTransaction → Reply

-- The calls of the chain and of the wallet, on the state of the world.
pub record Node (World : Type 0) : Type 1 where
  pub Keys : Type 0
  pub get_info : World → Info
  pub wallet_public_keys : Packing World Keys
  pub get_required_keys : SignedTransaction → Keys → Packing World Keys
  pub wallet_sign_trx : SignedTransaction → Keys → Bytes → Packing World SignedTransaction
  pub push_transaction : SignedTransaction → Packing World (Unit {0})

-- The transaction of `push_actions`, before its fields are set.
abbrev pub transaction_of : List Action → SignedTransaction
transaction_of actions = record {
  expiration = 0;
  ref_block_id = [];
  max_cpu_usage_ms = 0;
  max_net_usage_words = 0;
  delay_sec = 0;
  actions = actions;
  signatures = [];
}

-- A signed transaction is not changed any more; times are in seconds.
unfoldable pub prepared : Info → SignedTransaction → SignedTransaction
prepared info trx = elim trx.signatures [
  | s ∷ more ↦ trx
  | [] ↦ record trx {
    expiration = info.head_block_time + 30;
    ref_block_id = info.last_irreversible_block_id;
    max_cpu_usage_ms = 0;
    max_net_usage_words = 0;
    delay_sec = 0;
  }
]

module _ {World : Type 0} (node : Node World) where
  open node use {
    Keys, get_info, wallet_public_keys, get_required_keys, wallet_sign_trx, push_transaction,
  }

  unfoldable pub determine_required_keys : SignedTransaction → Packing World Keys
  determine_required_keys trx = do
    public_keys ← wallet_public_keys
    get_required_keys trx public_keys

  unfoldable pub broadcast : TrxBroadcastMethod → SignedTransaction → Packing World Reply
  broadcast trx_only_signed trx = give (packed_transaction trx)
  broadcast trx_broadcast_sync trx = do sent ← push_transaction trx; give empty_variant

  unfoldable pub may_push_transaction : SignedTransaction → TrxBroadcastMethod → Packing World Reply
  may_push_transaction trx tbm w =
      let info = get_info w in
      let ready = prepared info trx in
      (do
        required_keys ← determine_required_keys ready
        signed ← wallet_sign_trx ready required_keys info.chain_id
        broadcast tbm signed)
        w

  unfoldable pub push_actions : List Action → TrxBroadcastMethod → Packing World Reply
  push_actions actions tbm = may_push_transaction (transaction_of actions) tbm

  -- A block of code that ends, or raises its error.
  unfoldable pub run_block : {A : Type 0} → Packing World A → World → World × Exit A
  run_block m w =
      let (w', result) = m w in elim result [ ok a ↦ (w', done a) | err e ↦ (w', raised) ]

  -- `push_action`; the ABIs are cached also when it fails.
  unfoldable pub push_action :
      (lib : Library)
      → SystemLibrary
      → (Bytes → Option lib.Abi)
      → WalletApi World
      → (Bytes → List Bytes)
      → PushActionParams
      → AbiCache lib × World
      → (AbiCache lib × World) × Exit Reply
  push_action lib system get_abi api split params (cache, w) =
      let (cache', created) = create_push_action lib system get_abi params cache in
      elim created [
        | err e ↦ ((cache', w), raised)
        | ok actions ↦
            let wallets = parse_wltpwd split lib.trim params.wltpwd in
            let (w', exit) =
              with_wallets api wallets (run_block (push_actions actions trx_only_signed)) w in
            ((cache', w'), exit)
      ]
