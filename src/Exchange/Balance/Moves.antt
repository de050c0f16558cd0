-- ===== src/Exchange/Balance/Moves.antt =====
-- The sums over orders, through what an action does to the tables.
use gxmis_plugin.Common.{ℕ, suc, ◌+◌, ◌≤◌, ◌≡◌, Bool, none, some, inl, inr, arith}
use gxmis_plugin.Common.Int.{ℤ, pos, ◌≤ℤ◌, ◌<ℤ◌, pos_part, add64_pos, pos-of-nonneg}
use gxmis_plugin.Eosio.{Chain}
use gxmis_plugin.Eosio.Total.{total, total-change}
use gxmis_plugin.Exchange.{Order}
use gxmis_plugin.Exchange.Match.{fill, remaining}
use gxmis_plugin.Exchange.Match.Amounts.{IsUnfilled, count}
use gxmis_plugin.Exchange.Match.Outcome.{Settled}
use gxmis_plugin.Exchange.Book.Cancel.{Cancelled}
use gxmis_plugin.Exchange.Book.Placed.{OneMore}

module _ (c : Chain) where
  -- A fill by at most what remains adds the matched amount to the amount done.
  pub fill-done :
      (m : ℤ) (o : Order c)
      → IsUnfilled c o
      → pos 0 <ℤ m
      → m ≤ℤ remaining c o
      → pos_part (fill c m o).amount_done ≡ pos_part o.amount_done + pos_part m
  unfolding fill
  fill-done m o h lo hi =
      let n = count c o h in
      let em = pos-of-nonneg m (omega arith) in ground (arith, add64_pos n.d (pos_part m))

  module _ (quantity : Order c → ℕ) where
    abbrev sum : c.orders.Table → ℕ → ℕ
    sum = total c.orders quantity

    -- From some key on, the sum over two tables grows by `more`.
    abbrev pub Grows : (t u t' u' : c.orders.Table) → ℕ → Type 0
    Grows t u t' u' more =
        (bound : ℕ) × ((n : ℕ) → bound ≤ n → sum t' n + sum u' n ≡ sum t n + sum u n + more)

    pub OneMore-total :
        (t t' : c.orders.Table) (o : Order c)
        → OneMore c t t' o
        → quantity o ≡ 0
        → (n : ℕ) → suc o.id ≤ n
        → sum t' n ≡ sum t n
    OneMore-total t t' o (fresh, one_more) zero_done n h =
        ground (arith, total-change c.orders quantity t t' o.id n (some o) one_more)

    pub Cancelled-total :
        (cs cs' t t' : c.orders.Table) (k : ℕ) (o : Order c)
        → c.orders.get t k ≡ some o
        → Cancelled c cs cs' t t' k o
        → ((id : ℕ) → quantity (record o { id = id; stat = 0 }) ≡ quantity o)
        → Grows t cs t' cs' 0
    Cancelled-total cs cs' t t' k o found moved same = (
      suc (k + moved.id),
      λ n h. ground (
        arith,
        same moved.id,
        moved.fresh,
        total-change c.orders quantity t t' k n none moved.erased,
        total-change c.orders quantity cs cs' moved.id n
            (some (record o { id = moved.id; stat = 0 })) moved.copied,
      ),
    )

    pub Settled-total :
        (used_up : Bool) (m : ℤ) (t done t' done' : c.orders.Table) (k : ℕ) (o : Order c) (more : ℕ)
        → c.orders.get t k ≡ some o
        → quantity (fill c m o) ≡ quantity o + more
        → ((id : ℕ) → quantity (record (fill c m o) { id = id }) ≡ quantity (fill c m o))
        → Settled c used_up m t done t' done' k o
        → Grows t done t' done' more
    Settled-total used_up m t done t' done' k o more found grows same (inl (e, moved)) = (
      suc (k + moved.id),
      λ n h. ground (
        arith,
        same moved.id,
        moved.fresh,
        total-change c.orders quantity t t' k n none moved.erased,
        total-change c.orders quantity done done' moved.id n
            (some (record (fill c m o) { id = moved.id })) moved.archived,
      ),
    )
    Settled-total used_up m t done t' done' k o more found grows same (inr (e, kept)) = (
      suc k,
      λ n h. ground (
        arith,
        kept.same_done,
        total-change c.orders quantity t t' k n (some (fill c m o)) kept.stored,
      ),
    )
