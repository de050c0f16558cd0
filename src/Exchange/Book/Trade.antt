-- ===== src/Exchange/Book/Trade.antt =====
-- `match_limit_order` keeps the invariant of the tables.
use gxmis_plugin.Common.{
  ℕ, ◌≡◌, ◌≢◌, Bool, true, false, Bytes, ok, arith, inl, inr, refl, ◌∙◌, subst, sym,
}
use gxmis_plugin.Common.Int.{ℤ, pos, leb_ℤ, ◌<ℤ◌}
use gxmis_plugin.Eosio.{Chain, Context}
use gxmis_plugin.Exchange.{State, Order}
use gxmis_plugin.Exchange.Match.{match_limit_order, remaining, matched_amount, fill}
use gxmis_plugin.Exchange.Match.Amounts.{matched_amount-IsMatched, fill_partly, fill_up}
use gxmis_plugin.Exchange.Match.Settle.{Kept, Moved}
use gxmis_plugin.Exchange.Match.Outcome.{Settled, match_limit_order-Outcome}
use gxmis_plugin.Exchange.Book.{IsBook, IsLive, IsDone, IsCancelled, EveryOrder}

module _ (c : Chain) where
  fill_oper : (m : ℤ) (o : Order c) → (fill c m o).oper ≡ o.oper
  unfolding fill
  fill_oper m o = refl

  fill_amount : (m : ℤ) (o : Order c) → (fill c m o).amount ≡ o.amount
  unfolding fill
  fill_amount m o = refl

  -- One side: `Q` is what holds of the direction of every order of its tables.
  module _ (Q : ℤ → Type 0) (m : ℤ) (table done table' done' : c.orders.Table) (k : ℕ) (o : Order c)
      (live : IsLive c o) (positive : pos 0 <ℤ m) (q : Q o.oper) where
    Kept-Every :
        m <ℤ remaining c o
        → Kept c m table done table' done' k o
        → EveryOrder c (λ r. IsLive c r × Q r.oper) table
        → EveryOrder c (λ r. IsLive c r × Q r.oper) table'
    Kept-Every small kept all j r h =
        let (unfilled, same) = fill_partly c m o live.unfilled positive small in
        let p : IsLive c (fill c m o) × Q (fill c m o).oper = (
          (record { waiting = same ∙ live.waiting; unfilled = unfilled }),
          subst Q (sym (fill_oper m o)) q,
        ) in
        ground (arith, kept.stored j, all j r, p)

    Moved-Every :
        m ≡ remaining c o
        → Moved c m table done table' done' k o
        → EveryOrder c (λ r. IsLive c r × Q r.oper) table
        → EveryOrder c (λ r. IsDone c r × Q r.oper) done
        → EveryOrder c (λ r. IsLive c r × Q r.oper) table'
          × EveryOrder c (λ r. IsDone c r × Q r.oper) done'
    Moved-Every e moved all all_done =
        let (full, stat) = fill_up c m o live.unfilled e in
        let row : Order c = record (fill c m o) { id = moved.id } in
        let p : IsDone c row × Q row.oper = (
          (record { done = stat; full = full ∙ sym (fill_amount m o) }),
          subst Q (sym (fill_oper m o)) q,
        ) in
        (
          (λ j r h. ground (arith, moved.erased j, all j r)),
          λ j r h. ground (arith, moved.archived j, all_done j r, p),
        )

    side-Every :
        (used_up : Bool)
        → (used_up ≡ true → m ≡ remaining c o)
        → (used_up ≡ false → m <ℤ remaining c o)
        → Settled c used_up m table done table' done' k o
        → EveryOrder c (λ r. IsLive c r × Q r.oper) table
        → EveryOrder c (λ r. IsDone c r × Q r.oper) done
        → EveryOrder c (λ r. IsLive c r × Q r.oper) table'
          × EveryOrder c (λ r. IsDone c r × Q r.oper) done'
    side-Every used_up uses keeps (inl (e, moved)) all all_done =
        Moved-Every (uses e) moved all all_done
    side-Every used_up uses keeps (inr (e, kept)) all all_done = (
      Kept-Every (keeps e) kept all,
      subst (EveryOrder c (λ r. IsDone c r × Q r.oper)) (sym kept.same_done) all_done,
    )

  -- A match keeps the invariant of the tables.
  pub match_limit_order-IsBook :
      (ctx : Context) (s s' : State c) (buyer_oid seller_oid commodity : Bytes)
      → IsBook c s
      → match_limit_order c ctx s buyer_oid seller_oid commodity ≡ ok s'
      → IsBook c s'
  match_limit_order-IsBook ctx s s' buyer_oid seller_oid commodity inv h =
      let r = match_limit_order-Outcome c ctx s s' buyer_oid seller_oid commodity h in
      let (live_b, buys) = inv.buyers r.kb r.b r.buyer_found in
      let (live_l, sells) = inv.sellers r.kl r.l r.seller_found in
      let m = matched_amount-IsMatched c r.b r.l live_b.unfilled live_l.unfilled in
      let (buyers, bought) =
        side-Every (λ z. z ≡ pos 1) (matched_amount c r.b r.l) s.buyer s.buyer_order s'.buyer
          s'.buyer_order r.kb r.b live_b m.positive buys (leb_ℤ (remaining c r.b) (remaining c r.l))
          m.uses_buyer m.keeps_buyer r.buyer_side inv.buyers inv.bought in
      let (sellers, sold) =
        side-Every (λ z. z ≢ pos 1) (matched_amount c r.b r.l) s.seller s.seller_order s'.seller
          s'.seller_order r.kl r.l live_l m.positive sells
          (leb_ℤ (remaining c r.l) (remaining c r.b)) m.uses_seller m.keeps_seller r.seller_side
          inv.sellers inv.sold in
      record {
        buyers = buyers;
        sellers = sellers;
        bought = bought;
        sold = sold;
        cancels = subst (EveryOrder c (IsCancelled c)) (sym r.same_cancelled) inv.cancels;
        trades = λ j t e.
            ground (arith, r.trade_stored j, inv.trades j t, m.positive, r.tradable.two_accounts);
      }
