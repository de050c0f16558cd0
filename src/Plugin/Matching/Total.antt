-- ===== src/Plugin/Matching/Total.antt =====
-- The price and the total of a trade that `do_match_limit_order` proposes.
use gxmis_plugin.Common.{
  ℕ, zero, suc, ◌+◌, ◌*◌, ◌≤◌, ◌<◌, Bool, Option, none, some, ok, Option-cases, ◌⊎◌, inl, inr, ◌≡◌,
  arith, ltb, if◌then◌else◌,
}
use gxmis_plugin.Common.Int.{pos}
use gxmis_plugin.Plugin.Matching.{deal_price, total_loop, deal_total}

mul-suc : (n k : ℕ) → n * suc k ≡ n * k + n
mul-suc n k = omega arith

-- Assets of one symbol as their amounts: the comparisons and the sum of two assets succeed when
-- their symbols agree and the sum is in range.
pub record Amounts (Asset : Type 0) (lt : Asset → Asset → Option Bool)
    (plus : Asset → Asset → Option Asset) : Type 0 where
  pub units : Asset → ℕ
  pub units-lt : (a b : Asset) (r : Bool) → lt a b ≡ some r → r ≡ ltb (units a) (units b)
  pub units-plus : (a b c : Asset) → plus a b ≡ some c → units c ≡ units a + units b

-- The place between two prices that is nearest to the last price, if there is one.
unfoldable pub nearest_price : {Asset : Type 0} → (Asset → ℕ) → Option Asset → ℕ → ℕ → ℕ
nearest_price units none low high = low
nearest_price units (some last) low high =
    if ltb (units last) low then low else (if ltb high (units last) then high else units last)

module _ {Asset : Type 0} (lt : Asset → Asset → Option Bool) (plus : Asset → Asset → Option Asset)
    (amounts : Amounts Asset lt plus) where
  open amounts use {units, units-lt, units-plus}

  units-total_loop :
      (mprice total : Asset) (n : ℕ) (t : Asset)
      → total_loop plus mprice total (suc n) ≡ ok t
      → units t ≡ units total + units mprice * n
  unfolding total_loop
  units-total_loop mprice total zero t e = ground arith
  units-total_loop mprice total (suc n) t e = elim (Option-cases (plus total mprice)) [
    | inl bad ↦ ground arith
    | inr (sum, good) ↦ ground (
      arith,
      units-total_loop mprice sum n t,
      units-plus total mprice sum,
      mul-suc (units mprice) n,
    )
  ]

  -- The total of a trade of at least one unit is the price times the amount, when the sums are in
  -- range. (The loop adds the price once less than it is asked to, and starts from the price.)
  pub units-deal_total :
      (mprice : Asset) (n : ℕ) (t : Asset)
      → 0 < n
      → deal_total plus mprice (pos n) ≡ ok t
      → units t ≡ units mprice * n
  unfolding deal_total
  units-deal_total mprice zero t h e = absurd (omega arith)
  units-deal_total mprice (suc n) t h e =
      ground (arith, units-total_loop mprice mprice n t, mul-suc (units mprice) n)

  deal_price_last :
      (last low high p : Asset)
      → units low ≤ units high
      → deal_price lt (some last) low high ≡ ok p
      → (units p ≡ units low) × (units last ≤ units low)
        ⊎ ((units p ≡ units last) × (units low ≤ units last) × (units last ≤ units high)
            ⊎ (units p ≡ units high) × (units high ≤ units last))
  unfolding deal_price
  deal_price_last last low high p h e = elim (Option-cases (lt last low)) [
    | inl bad ↦ absurd (ground arith)
    | inr (below, e1) ↦ elim (Option-cases (lt last high)) [
      | inl bad ↦ ground (arith, units-lt last low below e1)
      | inr (within, e2) ↦ ground (arith, units-lt last low below e1, units-lt last high within e2)
    ]
  ]

  -- The price is between the two orders' prices, and is the last price moved to the nearest place
  -- between them; without a last price it is the lower one.
  pub deal_price_bounds :
      (last : Option Asset) (low high p : Asset)
      → units low ≤ units high
      → deal_price lt last low high ≡ ok p
      → (units low ≤ units p)
        × (units p ≤ units high)
        × (units p ≡ nearest_price units last (units low) (units high))
  unfolding deal_price nearest_price
  deal_price_bounds none low high p h e = (ground arith, ground arith, ground arith)
  deal_price_bounds (some last) low high p h e =
      let found = deal_price_last last low high p h e in
      (ground (arith, found), ground (arith, found), ground (arith, found))
