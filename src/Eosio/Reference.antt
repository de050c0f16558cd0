-- ===== src/Eosio/Reference.antt =====
-- Concrete tables and assets that meet the laws: a table is the list of its rows.
use gxmis_plugin.Common.{
  ℕ, suc, ◌≤◌, ◌≡◌, ◌≢◌, refl, Bool, true, false, List, [], ◌∷◌, Option, none, some, Bytes,
  bytes_eq, bytes_eq_iff, arith, ◌==◌, leb, if◌then◌else◌, inl, inr, Bool-cases,
}

module _ {Row : Type 0} (pk : Row → ℕ) where
  unfoldable pub lookup : List Row → ℕ → Option Row
  lookup [] k = none
  lookup (r ∷ t) k = if pk r == k then some r else lookup t k

  unfoldable pub has_key : (Row → Bytes) → Bytes → Option Row → Bool
  has_key key c none = false
  has_key key c (some r) = bytes_eq (key r) c

  unfoldable pub find_in : (Row → Bytes) → List Row → List Row → Bytes → Option ℕ
  unfolding lookup has_key
  find_in key all [] c = none
  find_in key all (r ∷ t) c =
      if has_key key c (lookup all (pk r)) then some (pk r) else find_in key all t c

  unfoldable pub next_key : List Row → ℕ
  next_key [] = 0
  next_key (r ∷ t) = let n = next_key t in if leb n (pk r) then suc (pk r) else n

  -- The first row with the key is the row of the table; the others are out of reach.
  unfoldable pub update : List Row → ℕ → (Row → Row) → List Row
  update [] k f = []
  update (r ∷ t) k f = if pk r == k then f r ∷ t else r ∷ update t k f

  unfoldable pub remove : List Row → ℕ → List Row
  remove [] k = []
  remove (r ∷ t) k = let rest = remove t k in if pk r == k then rest else r ∷ rest

  pub lookup_key : (t : List Row) (k : ℕ) (r : Row) → lookup t k ≡ some r → pk r ≡ k
  unfolding lookup
  lookup_key [] k r h = cc
  lookup_key (x ∷ t) k r h = ground (arith, lookup_key t k r)

  pub lookup_above : (t : List Row) (k : ℕ) → next_key t ≤ k → lookup t k ≡ none
  unfolding lookup next_key
  lookup_above [] k h = refl
  lookup_above (x ∷ t) k h = ground (arith, lookup_above t k)

  pub lookup-update :
      (t : List Row) (k : ℕ) (f : Row → Row) (r : Row) (j : ℕ)
      → lookup t k ≡ some r
      → pk (f r) ≡ k
      → lookup (update t k f) j ≡ (if k == j then some (f r) else lookup t j)
  unfolding lookup update
  lookup-update [] k f r j h e = cc
  lookup-update (x ∷ t) k f r j h e = ground (arith, lookup-update t k f r j)

  pub lookup-remove :
      (t : List Row) (k j : ℕ) → lookup (remove t k) j ≡ (if k == j then none else lookup t j)
  unfolding lookup remove
  lookup-remove [] k j = ground arith
  lookup-remove (x ∷ t) k j = ground (arith, lookup-remove t k j)

  find_in_sound :
      (key : Row → Bytes) (all t : List Row) (c : Bytes) (k : ℕ)
      → find_in key all t c ≡ some k
      → has_key key c (lookup all k) ≡ true
  unfolding find_in
  find_in_sound key all [] c k h = cc
  find_in_sound key all (x ∷ t) c k h = elim (Bool-cases (has_key key c (lookup all (pk x)))) [
    | inl hit ↦ ground arith
    | inr miss ↦ ground (arith, find_in_sound key all t c k)
  ]

  has_key-row :
      (key : Row → Bytes) (c : Bytes) (o : Option Row)
      → has_key key c o ≡ true
      → (r : Row) × (o ≡ some r) × (key r ≡ c)
  unfolding has_key
  has_key-row key c none h = cc
  has_key-row key c (some r) h = (r, refl, (bytes_eq_iff (key r) c).0 h)

  pub find_key_sound :
      (key : Row → Bytes) (t : List Row) (c : Bytes) (k : ℕ)
      → find_in key t t c ≡ some k
      → (r : Row) × (lookup t k ≡ some r) × (key r ≡ c)
  find_key_sound key t c k h = has_key-row key c (lookup t k) (find_in_sound key t t c k h)

  find_in_complete :
      (key : Row → Bytes) (all t : List Row) (c : Bytes) (k : ℕ) (r : Row)
      → find_in key all t c ≡ none
      → lookup t k ≡ some r
      → lookup all k ≡ some r
      → key r ≢ c
  unfolding find_in lookup has_key
  find_in_complete key all [] c k r h e g = cc
  find_in_complete key all (x ∷ t) c k r h e g =
      ground (arith, find_in_complete key all t c k r, bytes_eq_iff (key r) c)

  pub find_key_complete :
      (key : Row → Bytes) (t : List Row) (c : Bytes) (k : ℕ) (r : Row)
      → find_in key t t c ≡ none
      → lookup t k ≡ some r
      → key r ≢ c
  find_key_complete key t c k r h e = find_in_complete key t t c k r h e e

  pub lookup-cons :
      (t : List Row) (r : Row) (j : ℕ)
      → lookup (r ∷ t) j ≡ (if pk r == j then some r else lookup t j)
  unfolding lookup
  lookup-cons t r j = refl
