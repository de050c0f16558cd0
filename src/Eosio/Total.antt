-- ===== src/Eosio/Total.antt =====
-- The sum of a quantity over the rows of a table, up to a key.
use gxmis_plugin.Common.{
  ℕ, zero, suc, ◌+◌, ◌≤◌, ◌<◌, ◌≡◌, Option, none, some, ◌==◌, if◌then◌else◌, refl, arith,
  Bool-cases, Option-cases, inl, inr,
}
use gxmis_plugin.Eosio.{MultiIndex}

module _ {Row : Type 0} {pk : Row → ℕ} (ix : MultiIndex Row pk) (quantity : Row → ℕ) where
  -- What a key adds to the sum.
  abbrev pub share : Option Row → ℕ
  share none = 0
  share (some r) = quantity r

  -- The rows whose keys are below `n`.
  unfoldable pub total : ix.Table → ℕ → ℕ
  total t zero = 0
  total t (suc n) = total t n + share (ix.get t n)

  -- The tables differ at the key `k` alone, where the second has the row `x`.
  abbrev pub DiffersAt : ix.Table → ix.Table → ℕ → Option Row → Type 0
  DiffersAt t t' k x = (j : ℕ) → ix.get t' j ≡ (if k == j then x else ix.get t j)

  total_below :
      (t t' : ix.Table) (k n : ℕ) (x : Option Row)
      → DiffersAt t t' k x
      → n ≤ k
      → total t' n ≡ total t n
  unfolding total
  total_below t t' k zero x differs h = refl
  total_below t t' k (suc n) x differs h = ground (arith, differs n, total_below t t' k n x differs)

  pub total-change :
      (t t' : ix.Table) (k n : ℕ) (x : Option Row)
      → DiffersAt t t' k x
      → k < n
      → total t' n + share (ix.get t k) ≡ total t n + share x
  unfolding total
  total-change t t' k zero x differs h = absurd (ground arith)
  total-change t t' k (suc n) x differs h = elim (Bool-cases (k == n)) [
    | inl e ↦ ground (arith, differs n, total_below t t' k n x differs)
    | inr e ↦ ground (arith, differs n, total-change t t' k n x differs)
  ]

  pub total-zero :
      (t : ix.Table)
      → ((k : ℕ) (r : Row) → ix.get t k ≡ some r → quantity r ≡ 0)
      → (n : ℕ) → total t n ≡ 0
  unfolding total
  total-zero t all zero = refl
  total-zero t all (suc n) = elim (Option-cases (ix.get t n)) [
    | inl e ↦ ground (arith, total-zero t all n)
    | inr (r, e) ↦ ground (arith, total-zero t all n, all n r)
  ]
