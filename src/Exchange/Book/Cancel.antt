-- ===== src/Exchange/Book/Cancel.antt =====
-- `cancel_limit_order`: what it moves, and that it keeps the invariant of the tables.
use gxmis_plugin.Common.{
  ℕ, ◌≡◌, none, some, Option-cases, Bytes, ok, arith, inl, inr, ◌==◌, if◌then◌else◌, Result-cases,
  subst, true, refl, sym,
}
use gxmis_plugin.Eosio.{Chain, Context}
use gxmis_plugin.Exchange.{State, Order}
use gxmis_plugin.Exchange.Orders.{cancel_at, cancelled, cancel_limit_order}
use gxmis_plugin.Exchange.Book.{IsBook, IsLive, IsCancelled, EveryOrder}

module _ (c : Chain) where
  -- The order moves from the table `t` into that of the cancelled orders `cs`, with status 0.
  pub record Cancelled (cs cs' t t' : c.orders.Table) (k : ℕ) (o : Order c) : Type 0 where
    pub id : ℕ
    pub fresh : c.orders.get cs id ≡ none
    pub erased : (j : ℕ) → c.orders.get t' j ≡ (if k == j then none else c.orders.get t j)
    pub copied :
        (j : ℕ)
        → c.orders.get cs' j
          ≡ (if id == j then some (record o { id = id; stat = 0 }) else c.orders.get cs j)

  module _ (cs cs' t t' : c.orders.Table) (k : ℕ) (o : Order c) where
    pub cancel_at-Cancelled :
        c.orders.get t k ≡ some o → cancel_at c cs t k ≡ ok (cs', t') → Cancelled cs cs' t t' k o
    unfolding cancel_at
    cancel_at-Cancelled found h = elim (Option-cases (c.orders.available_primary_key cs)) [
      | inl full ↦ absurd (ground arith)
      | inr (id, free) ↦
          let fresh = c.orders.available_free cs id free in
          record {
            id = id;
            fresh = fresh;
            erased = λ j. ground (arith, c.orders.get-erase t k o j found);
            copied = λ j. ground (arith, c.orders.get-emplace cs (cancelled c id o) j fresh);
          }
    ]

    cancels-Every :
        Cancelled cs cs' t t' k o
        → IsLive c o
        → EveryOrder c (IsCancelled c) cs
        → EveryOrder c (IsCancelled c) cs'
    cancels-Every m live all j r h =
        let now_cancelled : IsCancelled c (cancelled c m.id o) = record {
          cancelled = refl;
          unfilled = ground arith;
        } in
        ground (arith, m.copied j, all j r)

    erased-Every :
        (P : Order c → Type 0) → Cancelled cs cs' t t' k o → EveryOrder c P t → EveryOrder c P t'
    erased-Every P m all j r h = ground (arith, m.erased j, all j r)

  -- What a cancellation did: the order with the number stood in the table of buyers, or, if it has
  -- no such order, in that of sellers; it moved to the cancelled orders, and nothing else changed.
  pub data Cancels (ctx : Context) (s : State c) (consigner : ℕ) (oid : Bytes) (s' : State c)
      : Type 0 where
    buyer_cancelled :
        (k : ℕ) (o : Order c)
        → ctx.has_auth consigner ≡ true
        → c.orders.get s.buyer k ≡ some o
        → o.oid ≡ oid
        → Cancelled s.cancel_order s'.cancel_order s.buyer s'.buyer k o
        → s' ≡ record s { cancel_order = s'.cancel_order; buyer = s'.buyer }
        → Cancels ctx s consigner oid s'
    seller_cancelled :
        (k : ℕ) (o : Order c)
        → ctx.has_auth consigner ≡ true
        → c.orders.find_by (λ r. r.oid) s.buyer oid ≡ none
        → c.orders.get s.seller k ≡ some o
        → o.oid ≡ oid
        → Cancelled s.cancel_order s'.cancel_order s.seller s'.seller k o
        → s' ≡ record s { cancel_order = s'.cancel_order; seller = s'.seller }
        → Cancels ctx s consigner oid s'

  -- A successful cancellation was signed by the account that it names, and moved one order with the
  -- given number, with status 0 and under a new key, from the buyers, or, where no buyer's order has
  -- the number, from the sellers, to the cancelled orders; no other row and no other table changed.
  pub cancel_limit_order-Cancels :
      (ctx : Context) (s s' : State c) (consigner : ℕ) (oid : Bytes)
      → cancel_limit_order c ctx s consigner oid ≡ ok s'
      → Cancels ctx s consigner oid s'
  unfolding cancel_limit_order
  cancel_limit_order-Cancels ctx s s' consigner oid h =
      elim (Option-cases (c.orders.find_by (λ r. r.oid) s.buyer oid)) [
        | inr (k, hit) ↦
            let (o, found, numbered) = c.orders.find_by_sound (λ r. r.oid) s.buyer oid k hit in
            elim (Result-cases (cancel_at c s.cancel_order s.buyer k)) [
              | inr (e, p) ↦ absurd (ground arith)
              | inl ((cs, t), p) ↦
                  buyer_cancelled k o (ground arith) found numbered
                    (cancel_at-Cancelled s.cancel_order s'.cancel_order s.buyer s'.buyer k o found
                      (ground arith))
                    (ground arith)
            ]
        | inl miss ↦ elim (Option-cases (c.orders.find_by (λ r. r.oid) s.seller oid)) [
          | inr (k, hit) ↦
              let (o, found, numbered) = c.orders.find_by_sound (λ r. r.oid) s.seller oid k hit in
              elim (Result-cases (cancel_at c s.cancel_order s.seller k)) [
                | inr (e, p) ↦ absurd (ground arith)
                | inl ((cs, t), p) ↦
                    seller_cancelled k o (ground arith) miss found numbered
                      (cancel_at-Cancelled s.cancel_order s'.cancel_order s.seller s'.seller k o
                        found (ground arith))
                      (ground arith)
              ]
          | inl miss' ↦ absurd (ground arith)
        ]
      ]

  Cancels-IsBook :
      (ctx : Context) (s s' : State c) (consigner : ℕ) (oid : Bytes)
      → Cancels ctx s consigner oid s'
      → IsBook c s
      → IsBook c s'
  Cancels-IsBook ctx s s' consigner oid (buyer_cancelled k o a found n m e) inv =
      subst (IsBook c) (sym e) (record {
        buyers = erased-Every _ _ _ _ k o _ m inv.buyers;
        sellers = inv.sellers;
        bought = inv.bought;
        sold = inv.sold;
        cancels = cancels-Every _ _ _ _ k o m (inv.buyers k o found).0 inv.cancels;
        trades = inv.trades;
      })
  Cancels-IsBook ctx s s' consigner oid (seller_cancelled k o a miss found n m e) inv =
      subst (IsBook c) (sym e) (record {
        buyers = inv.buyers;
        sellers = erased-Every _ _ _ _ k o _ m inv.sellers;
        bought = inv.bought;
        sold = inv.sold;
        cancels = cancels-Every _ _ _ _ k o m (inv.sellers k o found).0 inv.cancels;
        trades = inv.trades;
      })

  -- A cancellation keeps the invariant of the tables.
  pub cancel_limit_order-IsBook :
      (ctx : Context) (s s' : State c) (consigner : ℕ) (oid : Bytes)
      → IsBook c s
      → cancel_limit_order c ctx s consigner oid ≡ ok s'
      → IsBook c s'
  cancel_limit_order-IsBook ctx s s' consigner oid inv h =
      Cancels-IsBook ctx s s' consigner oid (cancel_limit_order-Cancels ctx s s' consigner oid h)
        inv
