-- ===== src/Utils/Hex/RoundTrip.antt =====
-- Printing and reading back, both ways.
use Prim.Native.Nat.{bit_or}
use gxmis_plugin.Common.{
  IsByte, ℕ, zero, suc, ◌+◌, ◌*◌, ◌/◌, ◌%◌, ◌<◌, ◌≤◌, ◌≡◌, refl, Bool, true, false, ◌&&◌, [], ◌∷◌,
  map, Bytes, Result, ok, err, arith, leb, ltb, ◌==◌, ==_iff, if◌then◌else◌, length, All,
  Result-cases, inl, inr, ◌∙◌, ap, ap₂, subst, subst₂,
}
use gxmis_plugin.Common.Table.{holds_upto, by_table}
use gxmis_plugin.Utils.Hex.{
  HexError, from_hex_char, from_hex, hex_digit, to_hex, sha256_to_hex, sha1_to_hex, hex_to_sha256,
  hex_to_sha1,
}

is_value : ℕ → Result HexError ℕ → Bool
is_value n (ok m) = m == n
is_value n (err e) = false

is_value_eq : (n : ℕ) (r : Result HexError ℕ) → is_value n r ≡ true → r ≡ ok n
unfolding is_value
is_value_eq n (ok m) h = ground arith
is_value_eq n (err e) h = cc

digit_table : holds_upto (λ n. is_value n (from_hex_char (hex_digit n))) 16 ≡ true
unfolding holds_upto is_value from_hex_char hex_digit
digit_table = refl

-- A digit is read back as its value.
from_hex_char-hex_digit : (n : ℕ) → n < 16 → from_hex_char (hex_digit n) ≡ ok n
from_hex_char-hex_digit n h =
    is_value_eq n _ (by_table (λ m. is_value m (from_hex_char (hex_digit m))) 16 n h digit_table)

byte_table : holds_upto (λ b. bit_or ((b / 16 * 16) % 256) (b % 16) == b) 256 ≡ true
unfolding holds_upto
byte_table = refl

join_nibbles : (b : ℕ) → b < 256 → bit_or ((b / 16 * 16) % 256) (b % 16) ≡ b
join_nibbles b h =
    (==_iff _ b).0 (by_table (λ b. bit_or ((b / 16 * 16) % 256) (b % 16) == b) 256 b h byte_table)

pub length-to_hex : (d : Bytes) → length (to_hex d) ≡ 2 * length d
unfolding to_hex
length-to_hex [] = refl
length-to_hex (b ∷ d) = omega (arith, length-to_hex d)

-- Bytes printed in hexadecimal are read back, if the buffer has room for them.
pub from_hex-to_hex :
    (d : Bytes) (n : ℕ) → All IsByte d → length d ≤ n → from_hex (to_hex d) n ≡ ok d
unfolding to_hex from_hex
from_hex-to_hex [] n h room = refl
from_hex-to_hex (b ∷ d) zero h room = absurd (omega arith)
from_hex-to_hex (b ∷ d) (suc n) h room = rw (
  from_hex_char-hex_digit (b / 16) (omega arith),
  from_hex_char-hex_digit (b % 16) (omega arith),
  from_hex-to_hex d n h.1 (omega arith),
  join_nibbles b h.0,
)

-- A checksum of 32 bytes is read back from its print.
pub hex_to_sha256-sha256_to_hex :
    (d : Bytes) → All IsByte d → length d ≡ 32 → hex_to_sha256 (sha256_to_hex d) ≡ ok d
unfolding hex_to_sha256 sha256_to_hex
hex_to_sha256-sha256_to_hex d h e = rw (length-to_hex d, e) (from_hex-to_hex d 32 h (omega arith))

-- A checksum of 20 bytes is read back from its print.
pub hex_to_sha1-sha1_to_hex :
    (d : Bytes) → All IsByte d → length d ≡ 20 → hex_to_sha1 (sha1_to_hex d) ≡ ok d
unfolding hex_to_sha1 sha1_to_hex
hex_to_sha1-sha1_to_hex d h e = rw (length-to_hex d, e) (from_hex-to_hex d 20 h (omega arith))

-- The lower-case form of a digit.
abbrev pub lower : ℕ → ℕ
lower c = if leb b'A' c && leb c b'F' then c + 32 else c

letter_table : holds_upto (λ v. hex_digit v == (if ltb v 10 then v + b'0' else v + 87)) 16 ≡ true
unfolding holds_upto hex_digit
letter_table = refl

hex_digit_lem : (v : ℕ) → v < 16 → hex_digit v ≡ (if ltb v 10 then v + b'0' else v + 87)
hex_digit_lem v h =
    (==_iff _ _).0
      (by_table (λ v. hex_digit v == (if ltb v 10 then v + b'0' else v + 87)) 16 v h letter_table)

value_bound : (c v : ℕ) → from_hex_char c ≡ ok v → v < 16
unfolding from_hex_char
value_bound c v h = ground arith

value_letter :
    (c v : ℕ) → from_hex_char c ≡ ok v → (if ltb v 10 then v + b'0' else v + 87) ≡ lower c
unfolding from_hex_char
value_letter c v h = ground arith

hex_digit-from_hex_char : (c v : ℕ) → from_hex_char c ≡ ok v → hex_digit v ≡ lower c
hex_digit-from_hex_char c v h = hex_digit_lem v (value_bound c v h) ∙ value_letter c v h

join_values : (h l : ℕ) → h < 16 → l < 16 → bit_or ((h * 16) % 256) l ≡ h * 16 + l
join_values h l p q =
    let high : (h * 16 + l) / 16 ≡ h = omega arith in
    let low : (h * 16 + l) % 16 ≡ l = omega arith in
    subst₂ (λ x y. bit_or ((x * 16) % 256) y ≡ h * 16 + l) high low
      (join_nibbles (h * 16 + l) (omega arith))

to_hex_cons :
    (h l : ℕ) (d : Bytes)
    → h < 16
    → l < 16
    → to_hex ((h * 16 + l) ∷ d) ≡ hex_digit h ∷ hex_digit l ∷ to_hex d
unfolding to_hex
to_hex_cons h l d p q =
    let high : (h * 16 + l) / 16 ≡ h = omega arith in
    let low : (h * 16 + l) % 16 ≡ l = omega arith in rw (high, low)

-- Text that is read without an error is, in lower case, the print of the bytes read.
pub to_hex-from_hex :
    (s : Bytes) (n : ℕ) (d : Bytes)
    → length s ≡ 2 * n
    → from_hex s n ≡ ok d
    → (to_hex d ≡ map lower s) × (length d ≡ n) × All IsByte d
unfolding to_hex from_hex
to_hex-from_hex [] zero d e h = ground arith
to_hex-from_hex [] (suc n) d e h = absurd (omega arith)
to_hex-from_hex (a ∷ []) zero d e h = absurd (omega arith)
to_hex-from_hex (a ∷ []) (suc n) d e h = absurd (omega arith)
to_hex-from_hex (a ∷ b ∷ s) zero d e h = absurd (omega arith)
to_hex-from_hex (a ∷ b ∷ s) (suc n) d e h = elim (Result-cases (from_hex_char a)) [
  | inr (er, pa) ↦ absurd (ground arith)
  | inl (va, pa) ↦ elim (Result-cases (from_hex_char b)) [
    | inr (er, pb) ↦ absurd (ground arith)
    | inl (vb, pb) ↦ elim (Result-cases (from_hex s n)) [
      | inr (er, pr) ↦ absurd (ground arith)
      | inl (rest, pr) ↦
          let ih = to_hex-from_hex s n rest (omega arith) pr in
          let ba = value_bound a va pa in
          let bb = value_bound b vb pb in
          let whole : (va * 16 + vb) ∷ rest ≡ d = ground (arith, join_values va vb ba bb) in
          subst
            (λ d. (to_hex d ≡ lower a ∷ lower b ∷ map lower s) × (length d ≡ suc n) × All IsByte d)
            whole
            (
              to_hex_cons va vb rest ba bb
                  ∙ ap₂ ◌∷◌ (hex_digit-from_hex_char a va pa)
                      (ap₂ ◌∷◌ (hex_digit-from_hex_char b vb pb) ih.0),
              ap suc ih.1,
              (omega arith, ih.2),
            )
    ]
  ]
]

-- Text that is read as a checksum is, in lower case, the print of that checksum of 32 bytes.
sha256_to_hex-hex_to_sha256 :
    (s d : Bytes)
    → hex_to_sha256 s ≡ ok d
    → (sha256_to_hex d ≡ map lower s) × (length d ≡ 32) × All IsByte d
unfolding hex_to_sha256 sha256_to_hex
sha256_to_hex-hex_to_sha256 s d h = to_hex-from_hex s 32 d (ground arith) (ground arith)
