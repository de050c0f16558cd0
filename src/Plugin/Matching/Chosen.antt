-- ===== src/Plugin/Matching/Chosen.antt =====
-- The pair of orders that the plugin proposes to trade, described without a loop.
use gxmis_plugin.Common.{
  ℕ, zero, suc, ◌<◌, Bytes, bytes_eq, bytes_eq_iff, List, [], ◌∷◌, length, get_elem?, drop, true,
  false, Option, none, some, ◌≡◌, ◌≤◌, arith, if◌then◌else◌,
}
use gxmis_plugin.Plugin.Matching.{ConsignmentOrder}

pub bytes_eq_comm : (s t : Bytes) → bytes_eq s t ≡ bytes_eq t s
bytes_eq_comm s t = ground (arith, bytes_eq_iff s t, bytes_eq_iff t s)

module _ {Asset : Type 0} where
  -- The first order of another account.
  unfoldable pub first_other :
      Bytes → List (ConsignmentOrder Asset) → Option (ConsignmentOrder Asset)
  unfolding bytes_eq
  first_other account [] = none
  first_other account (o ∷ os) =
      let rest = first_other account os in if bytes_eq account o.consigner then rest else some o

  abbrev pub last_of :
      ConsignmentOrder Asset → List (ConsignmentOrder Asset) → ConsignmentOrder Asset
  last_of o [] = o
  last_of o (p ∷ os) = last_of p os

  -- The first order of another account, or else the last one.
  unfoldable pub found :
      Bytes → ConsignmentOrder Asset → List (ConsignmentOrder Asset) → ConsignmentOrder Asset
  found account o os = elim (first_other account (o ∷ os)) [ some p ↦ p | none ↦ last_of o os ]

  -- The first buyer and the first seller of another account. Where all sellers have the first
  -- buyer's account: the first buyer of another account, and the last seller.
  unfoldable pub chosen :
      ConsignmentOrder Asset
      → List (ConsignmentOrder Asset)
      → ConsignmentOrder Asset
      → List (ConsignmentOrder Asset)
      → ConsignmentOrder Asset × ConsignmentOrder Asset
  chosen b bs l ls = elim (first_other b.consigner (l ∷ ls)) [
    | some seller ↦ (b, seller)
    | none ↦ (found l.consigner b bs, record (last_of l ls) { consigner = l.consigner })
  ]

  -- What is left of a list that is read up to an index.
  pub drop-cons :
      (xs : List (ConsignmentOrder Asset)) (n : ℕ) (y : ConsignmentOrder Asset)
      (ys : List (ConsignmentOrder Asset))
      → drop n xs ≡ y ∷ ys
      → (get_elem? xs n ≡ some y) × (drop (suc n) xs ≡ ys) × (n < length xs)
  drop-cons [] zero y ys h = cc
  drop-cons [] (suc n) y ys h = cc
  drop-cons (x ∷ xs) zero y ys h = ground arith
  drop-cons (x ∷ xs) (suc n) y ys h = ground (arith, drop-cons xs n y ys h)

  pub drop-nil : (xs : List (ConsignmentOrder Asset)) (n : ℕ) → drop n xs ≡ [] → length xs ≤ n
  drop-nil [] n h = omega arith
  drop-nil (x ∷ xs) zero h = cc
  drop-nil (x ∷ xs) (suc n) h = omega (arith, drop-nil xs n h)

  pub found_here :
      (account : Bytes) (o : ConsignmentOrder Asset) (os : List (ConsignmentOrder Asset))
      → bytes_eq account o.consigner ≡ false
      → found account o os ≡ o
  unfolding found first_other
  found_here account o os h = ground arith

  pub found_later :
      (account : Bytes) (o p : ConsignmentOrder Asset) (os : List (ConsignmentOrder Asset))
      → bytes_eq account o.consigner ≡ true
      → found account o (p ∷ os) ≡ found account p os
  unfolding found first_other
  found_later account o p os h = ground arith

  pub found_nowhere :
      (account : Bytes) (o : ConsignmentOrder Asset)
      → bytes_eq account o.consigner ≡ true
      → found account o [] ≡ o
  unfolding found first_other
  found_nowhere account o h = ground arith
