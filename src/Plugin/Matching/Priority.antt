-- ===== src/Plugin/Matching/Priority.antt =====
-- Which orders go first.
use gxmis_plugin.Common.{
  ℕ, zero, suc, ◌≡◌, inl, inr, List, [], ◌∷◌, ◌++◌, All, All-mono, All_last, take, bytes_eq, Bytes,
  some, false, ok, refl, sym, ap, ap₂, ◌∙◌, subst, arith, Bool-cases,
}
use gxmis_plugin.Common.Int.{ℤ}
use gxmis_plugin.Plugin.Matching.{ConsignmentOrder, candidates}
use gxmis_plugin.Plugin.Matching.Chosen.{first_other, chosen}
use gxmis_plugin.Plugin.Matching.Candidates.{candidates_lem}
use gxmis_plugin.Plugin.Matching.Index.{Before, IsIndex, buyer_query_result, seller_query_result}
use mathlib.Core.List.{reverse, reverse-reverse, reverse-cons}

module _ {Asset : Type 0} (amount_of : Asset → ℤ) where
  Before-refl : (o : ConsignmentOrder Asset) → Before amount_of o o
  Before-refl o = inr (refl, omega arith)

  -- The last row of an index has the highest place.
  last-Before :
      (os : List (ConsignmentOrder Asset)) (b : ConsignmentOrder Asset)
      → IsIndex amount_of (os ++ (b ∷ []))
      → All (λ o. Before amount_of o b) (os ++ (b ∷ []))
  last-Before [] b sorted = (Before-refl b, tt)
  last-Before (o ∷ os) b sorted =
      (All_last (Before amount_of o) os b (sorted.0), last-Before os b (sorted.1))

  reversed_rows :
      (index rest : List (ConsignmentOrder Asset)) (b : ConsignmentOrder Asset)
      → reverse index ≡ b ∷ rest
      → index ≡ reverse rest ++ (b ∷ [])
  reversed_rows index rest b e = sym (reverse-reverse index) ∙ ap reverse e ∙ reverse-cons b rest

  -- The first row of the reversed index.
  pub reversed-Before :
      (index rest : List (ConsignmentOrder Asset)) (b : ConsignmentOrder Asset)
      → IsIndex amount_of index
      → reverse index ≡ b ∷ rest
      → All (λ o. Before amount_of o b) index
  reversed-Before index rest b sorted e =
      let rows = reversed_rows index rest b e in
      subst (λ xs. All (λ o. Before amount_of o b) xs) (sym rows)
        (last-Before (reverse rest) b (subst (IsIndex amount_of) rows sorted))

  -- The first row of another account among the first ones of an index.
  pub first_other-Before :
      (account : Bytes) (n : ℕ) (index : List (ConsignmentOrder Asset)) (l : ConsignmentOrder Asset)
      → IsIndex amount_of index
      → first_other account (take n index) ≡ some l
      → All (λ o. bytes_eq account o.consigner ≡ false → Before amount_of l o) index
  unfolding first_other
  first_other-Before account zero index l sorted e = absurd (ground arith)
  first_other-Before account (suc n) [] l sorted e = absurd (ground arith)
  first_other-Before account (suc n) (o ∷ index) l sorted e =
      elim (Bool-cases (bytes_eq account o.consigner)) [
        | inl own ↦ (
          (λ other. absurd (ground arith)),
          first_other-Before account n index l (sorted.1) (ground arith),
        )
        | inr other ↦
            let here : l ≡ o = ground arith in
            subst
              (λ p.
                All (λ r. bytes_eq account r.consigner ≡ false → Before amount_of p r) (o ∷ index))
              (sym here) ((λ h. Before-refl o), All-mono index (λ r before h. before) (sorted.0))
      ]

  take-cons :
      (n : ℕ) (xs bs : List (ConsignmentOrder Asset)) (b : ConsignmentOrder Asset)
      → take (suc n) xs ≡ b ∷ bs
      → (rest : List (ConsignmentOrder Asset)) × (xs ≡ b ∷ rest)
  take-cons n [] bs b e = absurd (ground arith)
  take-cons n (x ∷ xs) bs b e = (xs, ground arith)

  -- The two orders are among the rows.
  pub buyer_query_result-All :
      (P : ConsignmentOrder Asset → Type 0) (buyers bs : List (ConsignmentOrder Asset))
      (b : ConsignmentOrder Asset)
      → buyer_query_result buyers ≡ b ∷ bs
      → All P buyers
      → P b
  buyer_query_result-All P buyers bs b e all =
      let (rest, front) = take-cons 99 (reverse buyers) bs b e in
      All_last P (reverse rest) b (subst (All P) (reversed_rows buyers rest b front) all)

  pub first_other-All :
      (P : ConsignmentOrder Asset → Type 0) (account : Bytes) (n : ℕ)
      (index : List (ConsignmentOrder Asset)) (l : ConsignmentOrder Asset)
      → first_other account (take n index) ≡ some l
      → All P index
      → P l
  unfolding first_other
  first_other-All P account zero index l e all = absurd (ground arith)
  first_other-All P account (suc n) [] l e all = absurd (ground arith)
  first_other-All P account (suc n) (o ∷ index) l e all =
      elim (Bool-cases (bytes_eq account o.consigner)) [
        | inl own ↦ first_other-All P account n index l (ground arith) (all.1)
        | inr other ↦ subst P (ground arith) (all.0)
      ]

  first_other-chosen :
      (b l0 l : ConsignmentOrder Asset) (bs ls : List (ConsignmentOrder Asset))
      → first_other b.consigner (l0 ∷ ls) ≡ some l
      → chosen b bs l0 ls ≡ (b, l)
  unfolding chosen
  first_other-chosen b l0 l bs ls e = rw (e, chosen)

  -- Where one of the sellers that the query returns has another account than the first buyer, these
  -- two are proposed. No buyer's order has a higher price in the index; of those with the highest
  -- price it is the newest, the one with the highest key. No seller's order of another account has a
  -- lower price; of those with the lowest price it is the oldest.
  pub candidates-Before :
      (buyers sellers bs ls : List (ConsignmentOrder Asset)) (b l0 l : ConsignmentOrder Asset)
      → IsIndex amount_of buyers
      → IsIndex amount_of sellers
      → buyer_query_result buyers ≡ b ∷ bs
      → seller_query_result sellers ≡ l0 ∷ ls
      → first_other b.consigner (seller_query_result sellers) ≡ some l
      → (candidates (buyer_query_result buyers) (seller_query_result sellers) ≡ ok (b, l))
        × All (λ o. Before amount_of o b) buyers
        × All (λ o. bytes_eq b.consigner o.consigner ≡ false → Before amount_of l o) sellers
  candidates-Before buyers sellers bs ls b l0 l sorted_b sorted_l eb el e =
      let (rest, front) = take-cons 99 (reverse buyers) bs b eb in
      let other : first_other b.consigner (l0 ∷ ls) ≡ some l =
        subst (λ rows. first_other b.consigner rows ≡ some l) el e in
      (
        ap₂ candidates eb el
            ∙ candidates_lem b l0 bs ls
            ∙ ap ok (first_other-chosen b l0 l bs ls other),
        reversed-Before buyers rest b sorted_b front,
        first_other-Before b.consigner 100 sellers l sorted_l e,
      )
