-- ===== src/Exchange/Balance/Life.antt =====
-- The balance over the contract's life.
use gxmis_plugin.Common.{ℕ, ◌≡◌, none, arith, subst, sym, ◌∙◌}
use gxmis_plugin.Common.Int.{pos}
use gxmis_plugin.Eosio.{Chain}
use gxmis_plugin.Eosio.Total.{total, total-zero}
use gxmis_plugin.Exchange.{State, Order}
use gxmis_plugin.Exchange.Book.{IsBook, EveryOrder}
use gxmis_plugin.Exchange.Reach.{
  Step, place, cancel, trade, keep_wallet, deliver, Reach, here, next, Reach-IsBook,
  surprise_wlt_frame, deliver_frame,
}
use gxmis_plugin.Exchange.Balance.{IsBalanced, over_orders, bought_of, sold_of, traded_of}
use gxmis_plugin.Exchange.Balance.Orders.{limit_order-IsBalanced, cancel_limit_order-IsBalanced}
use gxmis_plugin.Exchange.Balance.Trade.{match_limit_order-IsBalanced}

module _ (c : Chain) where
  same-IsBalanced :
      (s s' : State c)
      → s' ≡ record s { wltpwd = s'.wltpwd; sgx_model_result = s'.sgx_model_result }
      → IsBalanced c s
      → IsBalanced c s'
  same-IsBalanced s s' e even =
      subst (IsBalanced c) (sym e)
        (record { bound = even.bound; bought = even.bought; sold = even.sold })

  Step-IsBalanced : (s s' : State c) → Step c s s' → IsBook c s → IsBalanced c s → IsBalanced c s'
  Step-IsBalanced s s' (place ctx n t g a p o positive fits h) inv even =
      limit_order-IsBalanced c ctx s s' n t g a p o h even
  Step-IsBalanced s s' (cancel ctx n oid h) inv even =
      cancel_limit_order-IsBalanced c ctx s s' n oid h even
  Step-IsBalanced s s' (trade ctx bo lo g h) inv even =
      match_limit_order-IsBalanced c ctx s s' bo lo g inv h even
  Step-IsBalanced s s' (keep_wallet ctx n w h) inv even =
      same-IsBalanced s s' (surprise_wlt_frame c ctx s s' n w h) even
  Step-IsBalanced s s' (deliver a b d e f g h) inv even =
      same-IsBalanced s s' (deliver_frame c s s' a b d e f g h) even

  -- No order has been traded, and there is no trade.
  pub record IsFresh (s : State c) : Type 0 where
    pub buyers : EveryOrder c (λ o. o.amount_done ≡ pos 0) s.buyer
    pub buyers_done : EveryOrder c (λ o. o.amount_done ≡ pos 0) s.buyer_order
    pub sellers : EveryOrder c (λ o. o.amount_done ≡ pos 0) s.seller
    pub sellers_done : EveryOrder c (λ o. o.amount_done ≡ pos 0) s.seller_order
    pub cancels : EveryOrder c (λ o. o.amount_done ≡ pos 0) s.cancel_order
    pub no_trades : (k : ℕ) → c.trades.get s.matched_order k ≡ none

  module _ (s : State c) (fresh : IsFresh s) where
    trades-zero : (n : ℕ) → total c.trades (traded_of c) s.matched_order n ≡ 0
    trades-zero =
        total-zero c.trades (traded_of c) s.matched_order
          (λ k r h. ground (arith, fresh.no_trades k))

    orders-zero :
        (quantity : Order c → ℕ)
        → ((o : Order c) → o.amount_done ≡ pos 0 → quantity o ≡ 0)
        → (n : ℕ) → over_orders c quantity s n ≡ 0
    orders-zero quantity nothing n = omega (
      arith,
      total-zero c.orders quantity s.buyer (λ k r h. nothing r (fresh.buyers k r h)) n,
      total-zero c.orders quantity s.buyer_order (λ k r h. nothing r (fresh.buyers_done k r h)) n,
      total-zero c.orders quantity s.seller (λ k r h. nothing r (fresh.sellers k r h)) n,
      total-zero c.orders quantity s.seller_order (λ k r h. nothing r (fresh.sellers_done k r h)) n,
      total-zero c.orders quantity s.cancel_order (λ k r h. nothing r (fresh.cancels k r h)) n,
    )

    pub IsFresh-IsBalanced : IsBalanced c s
    IsFresh-IsBalanced = record {
      bound = 0;
      bought = λ n h. orders-zero (bought_of c) (λ o e. ground arith) n ∙ sym (trades-zero n);
      sold = λ n h. orders-zero (sold_of c) (λ o e. ground arith) n ∙ sym (trades-zero n);
    }

  -- In every state that the actions reach from a balanced state with the invariant, as long as every
  -- order is placed for a positive amount: the amounts done of all buyers' orders, open, done and
  -- cancelled, add up to the amounts of all trades, and so do those of all sellers' orders.
  pub Reach-IsBalanced :
      (s s' : State c) → Reach c s s' → IsBook c s → IsBalanced c s → IsBalanced c s'
  Reach-IsBalanced s s' here inv even = even
  Reach-IsBalanced s s' (next {t} r st) inv even =
      Step-IsBalanced t s' st (Reach-IsBook c s t r inv) (Reach-IsBalanced s t r inv even)
