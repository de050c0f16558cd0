-- ===== src/Utils/Base58/Alphabet.antt =====
-- The alphabet of the base58 decoder and its table.
use gxmis_plugin.Common.{
  ℕ, ◌<◌, Bool, true, false, Option, none, some, get_elem?, get_elem?_bound, subst, ◌==◌, ◌≡◌, ◌↔◌,
  refl, arith, ==_iff,
}
use gxmis_plugin.Common.Table.{holds_upto, by_table}
use gxmis_plugin.Utils.Base58.{psz_base58, map_base58}

-- `o` is `some n`.
abbrev is_number : Option ℕ → ℕ → Bool
is_number none n = false
is_number (some m) n = m == n

is_number_lem : (o : Option ℕ) (n : ℕ) → is_number o n ≡ true → o ≡ some n
is_number_lem none n h = cc
is_number_lem (some m) n h = ground (arith, ==_iff m n)

-- A character with a digit stands at the digit's place of the alphabet.
abbrev at_place : ℕ → Bool
at_place c = elim (map_base58 c) [ none ↦ true | some k ↦ is_number (get_elem? psz_base58 k) c ]

abbrev has_digit : ℕ → Bool
has_digit k = elim (get_elem? psz_base58 k) [ none ↦ false | some c ↦ is_number (map_base58 c) k ]

place_table : holds_upto at_place 123 ≡ true
unfolding holds_upto map_base58
place_table = refl

digit_table : holds_upto has_digit 58 ≡ true
unfolding holds_upto map_base58
digit_table = refl

pub map_base58_bound : (c k : ℕ) → map_base58 c ≡ some k → (c < 123) × (k < 58) × (0 < c)
unfolding map_base58
map_base58_bound c k h = ground arith

place_of : (c k : ℕ) → map_base58 c ≡ some k → get_elem? psz_base58 k ≡ some c
place_of c k h =
    let test : at_place c ≡ true =
      by_table at_place 123 c ((map_base58_bound c k h).0) place_table in
    is_number_lem (get_elem? psz_base58 k) c (
      subst
        (λ (o : Option ℕ).
          (elim o [ none ↦ true | some j ↦ is_number (get_elem? psz_base58 j) c ]) ≡ true)
        h test)

digit_of : (c k : ℕ) → get_elem? psz_base58 k ≡ some c → map_base58 c ≡ some k
digit_of c k h =
    let test : has_digit k ≡ true =
      by_table has_digit 58 k (get_elem?_bound psz_base58 k c h) digit_table in
    is_number_lem (map_base58 c) k (
      subst
        (λ (o : Option ℕ). (elim o [ none ↦ false | some d ↦ is_number (map_base58 d) k ]) ≡ true) h
        test)

-- The table and the alphabet agree: a character has the digit k exactly when it stands at place k of
-- the alphabet.
pub map_base58_lem : (c k : ℕ) → (map_base58 c ≡ some k) ↔ (get_elem? psz_base58 k ≡ some c)
map_base58_lem c k = (place_of c k, digit_of c k)
