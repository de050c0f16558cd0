-- ===== src/Exchange/Balance/Trade.antt =====
-- A match keeps the balance of what is bought, sold and traded.
use gxmis_plugin.Common.{ℕ, suc, ◌+◌, ◌≤◌, ◌≡◌, ◌≢◌, Bytes, ok, some, arith, refl}
use gxmis_plugin.Common.Int.{ℤ, pos, pos_part, eq_of_parts, leb_ℤ}
use gxmis_plugin.Eosio.{Chain, Context}
use gxmis_plugin.Eosio.Total.{total, total-change}
use gxmis_plugin.Exchange.{State, Order}
use gxmis_plugin.Exchange.Match.{match_limit_order, fill, matched_amount, remaining}
use gxmis_plugin.Exchange.Match.Amounts.{matched_amount-IsMatched}
use gxmis_plugin.Exchange.Match.Outcome.{Outcome, match_limit_order-Outcome, trade_row}
use gxmis_plugin.Exchange.Book.{IsBook}
use gxmis_plugin.Exchange.Balance.{IsBalanced, bought_of, sold_of, traded_of}
use gxmis_plugin.Exchange.Balance.Moves.{fill-done, Settled-total}
use gxmis_plugin.Exchange.Balance.Orders.{AllGrow}

module _ (c : Chain) where
  fill_oper : (m : ℤ) (o : Order c) → (fill c m o).oper ≡ o.oper
  unfolding fill
  fill_oper m o = refl

  -- What a fill by at most the rest adds on the order's own side, and on the other.
  bought_of-fill :
      (m : ℤ) (o : Order c) (more : ℕ)
      → o.oper ≡ pos 1
      → pos_part (fill c m o).amount_done ≡ pos_part o.amount_done + more
      → (bought_of c (fill c m o) ≡ bought_of c o + more)
        × (sold_of c (fill c m o) ≡ sold_of c o + 0)
  bought_of-fill m o more buys done = ground (arith, fill_oper m o)

  sold_of-fill :
      (m : ℤ) (o : Order c) (more : ℕ)
      → o.oper ≢ pos 1
      → pos_part (fill c m o).amount_done ≡ pos_part o.amount_done + more
      → (sold_of c (fill c m o) ≡ sold_of c o + more)
        × (bought_of c (fill c m o) ≡ bought_of c o + 0)
  sold_of-fill m o more sells done = ground (arith, fill_oper m o, eq_of_parts o.oper (pos 1))

  module _ (ctx : Context) (s s' : State c) (buyer_oid seller_oid commodity : Bytes)
      (r : Outcome c ctx s buyer_oid seller_oid commodity s') where
    Outcome-total :
        (quantity : Order c → ℕ) (more_b more_l : ℕ)
        → quantity (fill c (matched_amount c r.b r.l) r.b) ≡ quantity r.b + more_b
        → quantity (fill c (matched_amount c r.b r.l) r.l) ≡ quantity r.l + more_l
        → ((o : Order c) (id : ℕ) → quantity (record o { id = id }) ≡ quantity o)
        → AllGrow c quantity s s' (more_b + more_l)
    Outcome-total quantity more_b more_l grows_b grows_l same =
        let m = matched_amount c r.b r.l in
        let (kb, buyers) =
          Settled-total c quantity (leb_ℤ (remaining c r.b) (remaining c r.l)) m s.buyer
            s.buyer_order s'.buyer s'.buyer_order r.kb r.b more_b r.buyer_found grows_b
            (same (fill c m r.b)) r.buyer_side in
        let (kl, sellers) =
          Settled-total c quantity (leb_ℤ (remaining c r.l) (remaining c r.b)) m s.seller
            s.seller_order s'.seller s'.seller_order r.kl r.l more_l r.seller_found grows_l
            (same (fill c m r.l)) r.seller_side in
        (kb + kl, λ n h. ground (arith, buyers n, sellers n, r.same_cancelled))

    trades-total :
        (n : ℕ)
        → suc r.trade_id ≤ n
        → total c.trades (traded_of c) s'.matched_order n
          ≡ total c.trades (traded_of c) s.matched_order n + pos_part (matched_amount c r.b r.l)
    trades-total n h =
        let row = trade_row c ctx buyer_oid seller_oid commodity r.b r.l r.price r.trade_id in
        ground (
          arith,
          r.trade_fresh,
          total-change c.trades (traded_of c) s.matched_order s'.matched_order r.trade_id n
              (some row) r.trade_stored,
        )

    Outcome-IsBalanced : IsBook c s → IsBalanced c s → IsBalanced c s'
    Outcome-IsBalanced inv even =
        let m = matched_amount c r.b r.l in
        let (live_b, buys) = inv.buyers r.kb r.b r.buyer_found in
        let (live_l, sells) = inv.sellers r.kl r.l r.seller_found in
        let fits = matched_amount-IsMatched c r.b r.l live_b.unfilled live_l.unfilled in
        let (grow_b, stay_b) =
          bought_of-fill m r.b (pos_part m) buys
            (fill-done c m r.b live_b.unfilled fits.positive fits.le_buyer) in
        let (grow_l, stay_l) =
          sold_of-fill m r.l (pos_part m) sells
            (fill-done c m r.l live_l.unfilled fits.positive fits.le_seller) in
        let (kb, bought) =
          Outcome-total (bought_of c) (pos_part m) 0 grow_b stay_l (λ o id. refl) in
        let (kl, sold) = Outcome-total (sold_of c) 0 (pos_part m) stay_b grow_l (λ o id. refl) in
        record {
          bound = even.bound + kb + kl + suc r.trade_id;
          bought = λ n h. omega (arith, bought n, even.bought n, trades-total n);
          sold = λ n h. omega (arith, sold n, even.sold n, trades-total n);
        }

  pub match_limit_order-IsBalanced :
      (ctx : Context) (s s' : State c) (buyer_oid seller_oid commodity : Bytes)
      → IsBook c s
      → match_limit_order c ctx s buyer_oid seller_oid commodity ≡ ok s'
      → IsBalanced c s
      → IsBalanced c s'
  match_limit_order-IsBalanced ctx s s' buyer_oid seller_oid commodity inv h even =
      Outcome-IsBalanced ctx s s' buyer_oid seller_oid commodity
        (match_limit_order-Outcome c ctx s s' buyer_oid seller_oid commodity h) inv even
