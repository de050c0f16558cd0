-- ===== src/Exchange/Balance/Orders.antt =====
-- Placing and cancelling keep the balance of what is bought, sold and traded.
use gxmis_plugin.Common.{
  ℕ, suc, ◌+◌, ◌≤◌, ◌≡◌, ◌≢◌, Bytes, ok, Bool-cases, inl, inr, arith, refl, ap,
}
use gxmis_plugin.Common.Int.{ℤ, pos, eqb_ℤ, eq_of_parts}
use gxmis_plugin.Eosio.{Chain, Context}
use gxmis_plugin.Exchange.{State, Order}
use gxmis_plugin.Exchange.Orders.{limit_order, cancel_limit_order}
use gxmis_plugin.Exchange.Book.Placed.{Placed, limit_order-Placed, new_order}
use gxmis_plugin.Exchange.Book.Cancel.{
  Cancels, buyer_cancelled, seller_cancelled, cancel_limit_order-Cancels,
}
use gxmis_plugin.Exchange.Balance.{IsBalanced, bought_of, sold_of, over_orders}
use gxmis_plugin.Exchange.Balance.Moves.{OneMore-total, Cancelled-total}

module _ (c : Chain) where
  -- From some key on, the sum over all orders grows by `more`.
  abbrev pub AllGrow : (Order c → ℕ) → State c → State c → ℕ → Type 0
  AllGrow quantity s s' more =
      (bound : ℕ) × ((n : ℕ)
        → bound ≤ n
        → over_orders c quantity s' n ≡ over_orders c quantity s n + more)

  module _ (quantity : Order c → ℕ) (s s' : State c) where
    Placed-total :
        (ctx : Context) (consigner : ℕ) (commodity_type commodity : Bytes) (amount : ℤ)
        (price : c.assets.Asset) (oper : ℤ)
        → Placed c ctx s consigner commodity_type commodity amount price oper s'
        → ((o : Order c) → o.amount_done ≡ pos 0 → quantity o ≡ 0)
        → AllGrow quantity s s' 0
    Placed-total ctx consigner commodity_type commodity amount price oper p nothing_done =
        let o = new_order c ctx consigner commodity_type commodity amount price oper p.id p.total in
        let none_done : quantity o ≡ 0 = nothing_done o refl in
        elim (Bool-cases (eqb_ℤ oper (pos 1))) [
          | inl buys ↦
              let is_buyer : oper ≡ pos 1 = ground (arith, eq_of_parts oper (pos 1)) in
              let (one_more, same) = p.buyers is_buyer in
              (
                suc p.id,
                λ n h. ground (
                  arith,
                  OneMore-total c quantity s.buyer s'.buyer o one_more none_done n,
                  same,
                  ap (λ z. z.buyer_order) p.frame,
                  ap (λ z. z.seller_order) p.frame,
                  ap (λ z. z.cancel_order) p.frame,
                ),
              )
          | inr sells ↦
              let differs : oper ≢ pos 1 = λ e. ground arith in
              let (one_more, same) = p.sellers differs in
              (
                suc p.id,
                λ n h. ground (
                  arith,
                  OneMore-total c quantity s.seller s'.seller o one_more none_done n,
                  same,
                  ap (λ z. z.buyer_order) p.frame,
                  ap (λ z. z.seller_order) p.frame,
                  ap (λ z. z.cancel_order) p.frame,
                ),
              )
        ]

    Cancels-total :
        (ctx : Context) (consigner : ℕ) (oid : Bytes)
        → Cancels c ctx s consigner oid s'
        → ((o : Order c) (id : ℕ) → quantity (record o { id = id; stat = 0 }) ≡ quantity o)
        → AllGrow quantity s s' 0
    Cancels-total ctx consigner oid (buyer_cancelled k o signed found number moved frame) same =
        let (bound, grows) =
          Cancelled-total c quantity s.cancel_order s'.cancel_order s.buyer s'.buyer k o found moved
            (same o) in
        (
          bound,
          λ n h. ground (
            arith,
            grows n h,
            ap (λ z. z.seller) frame,
            ap (λ z. z.buyer_order) frame,
            ap (λ z. z.seller_order) frame,
          ),
        )
    Cancels-total ctx consigner oid (seller_cancelled k o signed absent found number moved frame)
          same =
        let (bound, grows) =
          Cancelled-total c quantity s.cancel_order s'.cancel_order s.seller s'.seller k o found
            moved (same o) in
        (
          bound,
          λ n h. ground (
            arith,
            grows n h,
            ap (λ z. z.buyer) frame,
            ap (λ z. z.buyer_order) frame,
            ap (λ z. z.seller_order) frame,
          ),
        )

  -- Where the trades stay and the sums over the orders do not grow, the balance is kept.
  still-IsBalanced :
      (s s' : State c)
      → AllGrow (bought_of c) s s' 0
      → AllGrow (sold_of c) s s' 0
      → s'.matched_order ≡ s.matched_order
      → IsBalanced c s
      → IsBalanced c s'
  still-IsBalanced s s' (kb, bought) (kl, sold) same even = record {
    bound = even.bound + kb + kl;
    bought = λ n h. ground (arith, bought n, even.bought n);
    sold = λ n h. ground (arith, sold n, even.sold n);
  }

  pub limit_order-IsBalanced :
      (ctx : Context) (s s' : State c) (consigner : ℕ) (commodity_type commodity : Bytes)
      (amount : ℤ) (price : c.assets.Asset) (oper : ℤ)
      → limit_order c ctx s consigner commodity_type commodity amount price oper ≡ ok s'
      → IsBalanced c s
      → IsBalanced c s'
  limit_order-IsBalanced ctx s s' consigner commodity_type commodity amount price oper h even =
      let p =
        limit_order-Placed c ctx s s' consigner commodity_type commodity amount price oper h in
      let grows = λ (quantity : Order c → ℕ).
        Placed-total quantity s s' ctx consigner commodity_type commodity amount price oper p in
      still-IsBalanced s s' (grows (bought_of c) (λ o e. ground arith))
        (grows (sold_of c) (λ o e. ground arith)) (ap (λ z. z.matched_order) p.frame) even

  Cancels-trades :
      (ctx : Context) (s s' : State c) (consigner : ℕ) (oid : Bytes)
      → Cancels c ctx s consigner oid s'
      → s'.matched_order ≡ s.matched_order
  Cancels-trades ctx s s' consigner oid (buyer_cancelled k o signed found number moved frame) =
      ap (λ z. z.matched_order) frame
  Cancels-trades ctx s s' consigner oid
        (seller_cancelled k o signed absent found number moved frame) =
      ap (λ z. z.matched_order) frame

  pub cancel_limit_order-IsBalanced :
      (ctx : Context) (s s' : State c) (consigner : ℕ) (oid : Bytes)
      → cancel_limit_order c ctx s consigner oid ≡ ok s'
      → IsBalanced c s
      → IsBalanced c s'
  cancel_limit_order-IsBalanced ctx s s' consigner oid h even =
      let m = cancel_limit_order-Cancels c ctx s s' consigner oid h in
      still-IsBalanced s s' (Cancels-total (bought_of c) s s' ctx consigner oid m (λ o id. refl))
        (Cancels-total (sold_of c) s s' ctx consigner oid m (λ o id. refl))
        (Cancels-trades ctx s s' consigner oid m) even
