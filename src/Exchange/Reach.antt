-- ===== src/Exchange/Reach.antt =====
-- The contract's life: sequences of actions from a state with the invariant.
use gxmis_plugin.Common.{ℕ, ◌≡◌, ◌<◌, ◌^◌, Bytes, ok, arith, sym, subst}
use gxmis_plugin.Common.Int.{ℤ, pos, ◌<ℤ◌, pos_part}
use gxmis_plugin.Eosio.{Chain, Context}
use gxmis_plugin.Exchange.{State}
use gxmis_plugin.Exchange.Orders.{limit_order, cancel_limit_order}
use gxmis_plugin.Exchange.Match.{match_limit_order}
use gxmis_plugin.Exchange.Wallet.{surprise_wlt, deliver_sgx_model_result}
use gxmis_plugin.Exchange.Book.{IsBook}
use gxmis_plugin.Exchange.Book.Place.{limit_order-IsBook}
use gxmis_plugin.Exchange.Book.Cancel.{cancel_limit_order-IsBook}
use gxmis_plugin.Exchange.Book.Trade.{match_limit_order-IsBook}

module _ (c : Chain) where
  -- One action that goes through. An order is placed for a positive amount of int64_t.
  pub data Step (s s' : State c) : Type 0 where
    place :
        (ctx : Context) (consigner : ℕ) (commodity_type commodity : Bytes) (amount : ℤ)
        (price : c.assets.Asset) (oper : ℤ)
        → pos 0 <ℤ amount
        → pos_part amount < 2 ^ 63
        → limit_order c ctx s consigner commodity_type commodity amount price oper ≡ ok s'
        → Step s s'
    cancel :
        (ctx : Context) (consigner : ℕ) (oid : Bytes)
        → cancel_limit_order c ctx s consigner oid ≡ ok s'
        → Step s s'
    trade :
        (ctx : Context) (buyer_oid seller_oid commodity : Bytes)
        → match_limit_order c ctx s buyer_oid seller_oid commodity ≡ ok s'
        → Step s s'
    keep_wallet :
        (ctx : Context) (account : ℕ) (wltpwd : Bytes)
        → surprise_wlt c ctx s account wltpwd ≡ ok s'
        → Step s s'
    deliver :
        (content form type access_method company : Bytes) (encrypted : ℕ)
        → deliver_sgx_model_result c s content form type access_method company encrypted ≡ ok s'
        → Step s s'

  pub data Reach (s : State c) : State c → Type 0 where
    here : Reach s s
    next : {t u : State c} → Reach s t → Step t u → Reach s u

  -- The invariant reads six tables only.
  same-IsBook :
      (s s' : State c)
      → s' ≡ record s { wltpwd = s'.wltpwd; sgx_model_result = s'.sgx_model_result }
      → IsBook c s
      → IsBook c s'
  same-IsBook s s' e inv = subst (IsBook c) (sym e) (record {
    buyers = inv.buyers;
    sellers = inv.sellers;
    bought = inv.bought;
    sold = inv.sold;
    cancels = inv.cancels;
    trades = inv.trades;
  })

  pub surprise_wlt_frame :
      (ctx : Context) (s s' : State c) (account : ℕ) (wltpwd : Bytes)
      → surprise_wlt c ctx s account wltpwd ≡ ok s'
      → s' ≡ record s { wltpwd = s'.wltpwd; sgx_model_result = s'.sgx_model_result }
  unfolding surprise_wlt
  surprise_wlt_frame ctx s s' account wltpwd h = ground arith

  pub deliver_frame :
      (s s' : State c) (content form type access_method company : Bytes) (encrypted : ℕ)
      → deliver_sgx_model_result c s content form type access_method company encrypted ≡ ok s'
      → s' ≡ record s { wltpwd = s'.wltpwd; sgx_model_result = s'.sgx_model_result }
  unfolding deliver_sgx_model_result
  deliver_frame s s' content form type access_method company encrypted h = ground arith

  Step-IsBook : (s s' : State c) → Step s s' → IsBook c s → IsBook c s'
  Step-IsBook s s' (place ctx n t g a p o positive fits h) inv =
      limit_order-IsBook c ctx s s' n t g a p o positive fits inv h
  Step-IsBook s s' (cancel ctx n oid h) inv = cancel_limit_order-IsBook c ctx s s' n oid inv h
  Step-IsBook s s' (trade ctx bo lo g h) inv = match_limit_order-IsBook c ctx s s' bo lo g inv h
  Step-IsBook s s' (keep_wallet ctx n w h) inv =
      same-IsBook s s' (surprise_wlt_frame ctx s s' n w h) inv
  Step-IsBook s s' (deliver a b d e f g h) inv =
      same-IsBook s s' (deliver_frame s s' a b d e f g h) inv

  -- Every state that the actions reach from a state with the invariant has it too, as long as
  -- every order is placed for a positive amount.
  pub Reach-IsBook : (s s' : State c) → Reach s s' → IsBook c s → IsBook c s'
  Reach-IsBook s s' here inv = inv
  Reach-IsBook s s' (next {t} r st) inv = Step-IsBook t s' st (Reach-IsBook s t r inv)
