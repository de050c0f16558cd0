-- ===== src/Exchange/Match/Amounts.antt =====
-- The quantities of a trade between two open orders: no int64_t wraps, and no order is overfilled.
use gxmis_plugin.Common.{ℕ, ◌<◌, ◌^◌, ◌≡◌, ap₂, ◌∙◌, ◌-◌, true, false, arith, if◌then◌else◌}
use gxmis_plugin.Common.Int.{
  ℤ, pos, ◌≤ℤ◌, ◌<ℤ◌, leb_ℤ, ltb_ℤ, sub64, pos_part, eq_of_parts, sub64_pos, add64_pos,
  pos-of-nonneg, parts_canonical,
}
use gxmis_plugin.Eosio.{Chain}
use gxmis_plugin.Exchange.{Order}
use gxmis_plugin.Exchange.Match.{fill, remaining, matched_amount}

-- An order with something left to trade.
pub record IsUnfilled (c : Chain) (o : Order c) : Type 0 where
  pub nonneg : pos 0 ≤ℤ o.amount_done
  pub unfilled : o.amount_done <ℤ o.amount
  pub fits : pos_part o.amount < 2 ^ 63

module _ (c : Chain) where
  -- In numbers: the amount, what is done, and what remains, which is their difference.
  pub record Count (o : Order c) : Type 0 where
    pub a : ℕ
    pub d : ℕ
    pub amount : o.amount ≡ pos a
    pub amount_done : o.amount_done ≡ pos d
    pub left : remaining c o ≡ pos (a - d)
    pub below : d < a
    pub fits : a < 2 ^ 63

  pub count : (o : Order c) → IsUnfilled c o → Count o
  count o h =
      let ea = pos-of-nonneg o.amount (omega arith) in
      let ed = pos-of-nonneg o.amount_done h.nonneg in
      record {
        a = pos_part o.amount;
        d = pos_part o.amount_done;
        amount = ea;
        amount_done = ed;
        left =
            ap₂ sub64 ea ed
            ∙ sub64_pos (pos_part o.amount) (pos_part o.amount_done)
                (omega (arith, parts_canonical o.amount_done)) h.fits;
        below = omega (arith, parts_canonical o.amount_done);
        fits = h.fits;
      }

  remaining_pos : (o : Order c) → IsUnfilled c o → pos 0 <ℤ remaining c o
  remaining_pos o h = let n = count o h in ground arith

  -- The matched amount is positive, is at most what remains on either side, and uses up the side
  -- that has no more than the other.
  pub record IsMatched (m rb rl : ℤ) : Type 0 where
    pub positive : pos 0 <ℤ m
    pub le_buyer : m ≤ℤ rb
    pub le_seller : m ≤ℤ rl
    pub uses_buyer : leb_ℤ rb rl ≡ true → m ≡ rb
    pub uses_seller : leb_ℤ rl rb ≡ true → m ≡ rl
    pub keeps_buyer : leb_ℤ rb rl ≡ false → m <ℤ rb
    pub keeps_seller : leb_ℤ rl rb ≡ false → m <ℤ rl

  smaller_IsMatched :
      (rb rl : ℤ) → pos 0 <ℤ rb → pos 0 <ℤ rl → IsMatched (if ltb_ℤ rb rl then rb else rl) rb rl
  smaller_IsMatched rb rl hb hl = record {
    positive = ground arith;
    le_buyer = ground arith;
    le_seller = ground arith;
    uses_buyer = λ h. ground (arith, eq_of_parts rb rl);
    uses_seller = λ h. ground (arith, eq_of_parts rb rl);
    keeps_buyer = λ h. ground arith;
    keeps_seller = λ h. ground arith;
  }

  pub matched_amount-IsMatched :
      (b l : Order c)
      → IsUnfilled c b
      → IsUnfilled c l
      → IsMatched (matched_amount c b l) (remaining c b) (remaining c l)
  matched_amount-IsMatched b l hb hl =
      smaller_IsMatched (remaining c b) (remaining c l) (remaining_pos b hb) (remaining_pos l hl)

  -- A fill below what remains leaves the order open, under the same conditions.
  pub fill_partly :
      (m : ℤ) (o : Order c)
      → IsUnfilled c o
      → pos 0 <ℤ m
      → m <ℤ remaining c o
      → IsUnfilled c (fill c m o) × ((fill c m o).stat ≡ o.stat)
  unfolding fill
  fill_partly m o h lo hi =
      let n = count o h in
      let em = pos-of-nonneg m (omega arith) in ground (arith, add64_pos n.d (pos_part m))

  -- A fill by all that remains completes the order.
  pub fill_up :
      (m : ℤ) (o : Order c)
      → IsUnfilled c o
      → m ≡ remaining c o
      → ((fill c m o).amount_done ≡ o.amount) × ((fill c m o).stat ≡ 3)
  unfolding fill
  fill_up m o h e = let n = count o h in ground (arith, add64_pos n.d (n.a - n.d))
