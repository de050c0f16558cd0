-- ===== src/Plugin/Matching/Blocked.antt =====
-- An order with a negative price, which the index puts behind all others.
use gxmis_plugin.Common.{
  ℕ, zero, suc, ◌≤◌, ◌≡◌, ◌≢◌, inl, inr, List, [], ◌∷◌, All, get_elem?, Bytes, Bool, Option, some,
  true, false, ok, Result, sym, ap₂, ◌∙◌, subst, arith, Option-cases, Result-cases, Result-cases,
}
use gxmis_plugin.Common.Int.{ℤ, pos, leb_ℤ, ◌≤ℤ◌, ◌<ℤ◌, Fits64}
use gxmis_plugin.Plugin.Matching.{
  ConsignmentOrder, ChainAction, MatchingError, candidates, may_trade, do_match_limit_order,
}
use gxmis_plugin.Plugin.Matching.Chosen.{first_other}
use gxmis_plugin.Plugin.Matching.Index.{
  Before, IsIndex, buyer_query_result, seller_query_result, by_price, unsigned64,
}
use gxmis_plugin.Plugin.Matching.Priority.{
  candidates-Before, buyer_query_result-All, first_other-All,
}

All_at {ℓ κ} :
    {A : Type ℓ} (P : A → Type κ) (xs : List A) (k : ℕ) (x : A)
    → get_elem? xs k ≡ some x
    → All P xs
    → P x
All_at P [] k x e h = absurd (ground arith)
All_at P (y ∷ xs) zero x e h = subst P (ground arith) (h.0)
All_at P (y ∷ xs) (suc k) x e h = All_at P xs k x e (h.1)

-- A negative number stands behind every other one as a uint64_t, and so does what follows it.
unsigned64_negative :
    (a b : ℤ) → Fits64 a → Fits64 b → a <ℤ pos 0 → unsigned64 a ≤ unsigned64 b → b <ℤ pos 0
unsigned64_negative a b fa fb h le = ground arith

Before-le :
    {Asset : Type 0} (amount_of : Asset → ℤ) (a b : ConsignmentOrder Asset)
    → Before amount_of a b
    → by_price amount_of a ≤ by_price amount_of b
Before-le amount_of a b h = ground arith

module _ (Asset : Type 0) (lt le : Asset → Asset → Option Bool)
    (plus : Asset → Asset → Option Asset) (last_price : Bytes → Option Asset)
    (token_decimals : Bytes → Option ℕ) (asset_from_string : Bytes → Option Asset)
    (exchange_contract_acct : Bytes) (amount_of : Asset → ℤ) where
  -- `<=` on assets compares their amounts, if it does not fail.
  abbrev pub ComparesAmounts : Type 0
  ComparesAmounts =
      (x y : Asset) (r : Bool) → le x y ≡ some r → r ≡ leb_ℤ (amount_of x) (amount_of y)

  -- A seller's price that is not negative and a buyer's that is do not meet.
  may_trade-negative :
      (b l : ConsignmentOrder Asset) (r : Bool)
      → ComparesAmounts
      → amount_of b.price <ℤ pos 0
      → pos 0 ≤ℤ amount_of l.price
      → may_trade Asset lt le plus last_price token_decimals asset_from_string
          exchange_contract_acct b l
        ≡ ok r
      → r ≡ false
  unfolding may_trade
  may_trade-negative b l r compares negative nonneg e = elim (Option-cases (le l.price b.price)) [
    | inl fails ↦ absurd (ground arith)
    | inr (x, found) ↦ ground (arith, compares l.price b.price x found)
  ]

  actions_need_fit :
      (b b1 l l1 : ConsignmentOrder Asset) (bs ls : List (ConsignmentOrder Asset))
      (action : ChainAction Asset) (more : List (ChainAction Asset))
      → candidates (b ∷ bs) (l ∷ ls) ≡ ok (b1, l1)
      → do_match_limit_order Asset lt le plus last_price token_decimals asset_from_string
          exchange_contract_acct
          (b ∷ bs)
          (l ∷ ls)
        ≡ ok (action ∷ more)
      → may_trade Asset lt le plus last_price token_decimals asset_from_string
          exchange_contract_acct b1 l1
        ≡ ok true
  unfolding do_match_limit_order
  actions_need_fit b b1 l l1 bs ls action more pair e =
      elim (Result-cases (
        may_trade Asset lt le plus last_price token_decimals asset_from_string
          exchange_contract_acct b1 l1)) [
            | inl (fits, tested) ↦ ground arith
            | inr (bad, failed) ↦ absurd (ground arith)
          ]

  abbrev task :
      List (ConsignmentOrder Asset)
      → List (ConsignmentOrder Asset)
      → Result MatchingError (List (ChainAction Asset))
  task =
      do_match_limit_order Asset lt le plus last_price token_decimals asset_from_string
        exchange_contract_acct

  -- Where some buyer's order has a negative price, all sellers' prices are not negative, and one of
  -- the sellers that the query returns has another account than the first buyer, the task sends
  -- nothing at all: the order with the negative price hides every other buyer.
  pub do_match_limit_order-blocked :
      (buyers sellers bs ls : List (ConsignmentOrder Asset)) (b l0 l bad : ConsignmentOrder Asset)
      (k : ℕ) (action : ChainAction Asset) (more : List (ChainAction Asset))
      → ComparesAmounts
      → IsIndex amount_of buyers
      → IsIndex amount_of sellers
      → All (λ o. Fits64 (amount_of o.price)) buyers
      → All (λ o. pos 0 ≤ℤ amount_of o.price) sellers
      → get_elem? buyers k ≡ some bad
      → amount_of bad.price <ℤ pos 0
      → buyer_query_result buyers ≡ b ∷ bs
      → seller_query_result sellers ≡ l0 ∷ ls
      → first_other b.consigner (seller_query_result sellers) ≡ some l
      → do_match_limit_order Asset lt le plus last_price token_decimals asset_from_string
          exchange_contract_acct
          (buyer_query_result buyers)
          (seller_query_result sellers)
        ≢ ok (action ∷ more)
  do_match_limit_order-blocked buyers sellers bs ls b l0 l bad k action more compares sorted_b
        sorted_l fit nonneg at negative eb el other sends =
      let (pair, highest, lowest) =
        candidates-Before amount_of buyers sellers bs ls b l0 l sorted_b sorted_l eb el other in
      let b_fits =
        buyer_query_result-All amount_of (λ o. Fits64 (amount_of o.price)) buyers bs b eb fit in
      let l_nonneg =
        first_other-All amount_of (λ o. pos 0 ≤ℤ amount_of o.price) b.consigner 100 sellers l other
          nonneg in
      let bad_fits = All_at (λ o. Fits64 (amount_of o.price)) buyers k bad at fit in
      let behind = All_at (λ o. Before amount_of o b) buyers k bad at highest in
      let b_negative =
        unsigned64_negative (amount_of bad.price) (amount_of b.price) bad_fits b_fits negative
          (Before-le amount_of bad b behind) in
      let fits =
        actions_need_fit b b l0 l bs ls action more (sym (ap₂ candidates eb el) ∙ pair)
          (sym (ap₂ task eb el) ∙ sends) in
      cc (may_trade-negative b l true compares b_negative l_nonneg fits)
