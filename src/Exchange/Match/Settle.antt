-- ===== src/Exchange/Match/Settle.antt =====
-- One side of a trade: what `settle` does to the open order, and to the table of done orders.
use gxmis_plugin.Common.{
  ℕ, ◌≡◌, true, false, none, some, ok, arith, inl, inr, Option-cases, ◌==◌, if◌then◌else◌,
}
use gxmis_plugin.Common.Int.{ℤ}
use gxmis_plugin.Eosio.{Chain}
use gxmis_plugin.Exchange.{Order}
use gxmis_plugin.Exchange.Match.{settle, archive, fill}

module _ (c : Chain) where
  open c use {orders}

  -- The order stays open under its key, with the fill written, and nothing else changes.
  pub record Kept (matched : ℤ) (table done table' done' : orders.Table) (k : ℕ) (o : Order c)
      : Type 0 where
    pub stored :
        (j : ℕ)
        → orders.get table' j ≡ (if k == j then some (fill c matched o) else orders.get table j)
    pub same_done : done' ≡ done

  -- The order is gone, and stands among the done ones with the fill written, under a new key.
  pub record Moved (matched : ℤ) (table done table' done' : orders.Table) (k : ℕ) (o : Order c)
      : Type 0 where
    pub id : ℕ
    pub fresh : orders.get done id ≡ none
    pub erased : (j : ℕ) → orders.get table' j ≡ (if k == j then none else orders.get table j)
    pub archived :
        (j : ℕ)
        → orders.get done' j
          ≡ (if id == j then some (record (fill c matched o) { id = id }) else orders.get done j)

  module _ (matched : ℤ) (table done table' done' : orders.Table) (k : ℕ) (o : Order c)
      (found : orders.get table k ≡ some o) where
    pub fill_key : (fill c matched o).id ≡ k
    unfolding fill
    fill_key = orders.get_key table k o found

    filled :
        (j : ℕ)
        → orders.get (orders.modify table k (fill c matched)) j
          ≡ (if k == j then some (fill c matched o) else orders.get table j)
    filled j = orders.get-modify table k (fill c matched) o j found fill_key

    pub settle-Kept :
        settle c false matched table done k ≡ ok (table', done')
        → Kept matched table done table' done' k o
    unfolding settle
    settle-Kept h = record { stored = λ j. ground (arith, filled j); same_done = ground arith }

    pub settle-Moved :
        settle c true matched table done k ≡ ok (table', done')
        → Moved matched table done table' done' k o
    unfolding settle archive
    settle-Moved h = elim (Option-cases (orders.available_primary_key done)) [
      | inl full ↦ absurd (ground arith)
      | inr (id, free) ↦
          let t1 = orders.modify table k (fill c matched) in
          let at_k : orders.get t1 k ≡ some (fill c matched o) = ground (arith, filled k) in
          let row : Order c = record (fill c matched o) { id = id } in
          let fresh = orders.available_free done id free in
          record {
            id = id;
            fresh = fresh;
            erased = λ j. ground (arith, orders.get-erase t1 k (fill c matched o) j at_k, filled j);
            archived = λ j. ground (arith, orders.get-emplace done row j fresh);
          }
    ]
