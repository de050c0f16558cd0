-- ===== src/Utils/Base58/Decode.antt =====
-- What the base58 decoder computes.
use native.Mathlib.Nat.{pow-zero, pow-succ', mul-le-mul, mul_assoc}
use gxmis_plugin.Common.{
  IsByte, ℕ, zero, suc, ◌+◌, ◌-◌, ◌*◌, ◌^◌, ◌<◌, ◌≤◌, ◌≡◌, refl, true, false, Bytes, [], ◌∷◌, ◌++◌,
  length, drop, All, none, some, Bool-cases, Option-cases, inl, inr, ◌≢◌, ok, err, arith, ap, sym,
  ◌∙◌, subst,
}
use gxmis_plugin.Utils.Base58.{carry_left, map_base58, is_space, add_digit, decode_loop}
use gxmis_plugin.Utils.Base58.Alphabet.{map_base58_bound}
use gxmis_plugin.Utils.Base58.Digits.{little, capacity, Multiplied, add_digit-Multiplied}

-- The character has a digit.
abbrev pub IsBase58 : ℕ → Type 0
IsBase58 a = (k : ℕ) × (map_base58 a ≡ some k)

-- The digit of a character.
unfoldable pub digit58 : ℕ → ℕ
digit58 a = elim (map_base58 a) [ none ↦ 0 | some k ↦ k ]

-- The number that a text of digits spells, from the number before it.
unfoldable pub value58 : ℕ → Bytes → ℕ
value58 n [] = n
value58 n (a ∷ s) = value58 (58 * n + digit58 a) s

-- A text that is empty or begins with a space.
abbrev pub Ends : Bytes → Type 0
Ends [] = Unit
Ends (a ∷ s) = is_space a ≡ true

-- The buffer holds the number `n` in its first `len` bytes.
pub record Holds (n len : ℕ) (b256 : Bytes) : Type 0 where
  pub value : little b256 ≡ n
  pub bytes : All IsByte b256
  pub unused : little (drop len b256) ≡ 0
  pub in_buffer : len ≤ length b256

pow_pos : (n : ℕ) → 1 ≤ 58 ^ n
pow_pos zero = omega (arith, pow-zero 58)
pow_pos (suc n) = omega (arith, pow-succ' 58 n, pow_pos n)

no_carry : (c carry t : ℕ) → c * carry ≤ t → t < c → carry ≡ 0
no_carry c zero t le lt = refl
no_carry c (suc carry) t le lt = absurd (omega arith)

room_left :
    (n k room c : ℕ) → k < 58 → (n + 1) * 58 ^ suc room ≤ c → (58 * n + k + 1) * 58 ^ room ≤ c
room_left n k room c small fits =
    let more : (58 * n + k + 1) * 58 ^ room ≤ (n + 1) * 58 * 58 ^ room =
      mul-le-mul (omega arith) (omega arith) in
    omega (
      arith,
      more,
      fits,
      mul_assoc (n + 1) 58 (58 ^ room),
      ap (λ z. (n + 1) * z) (pow-succ' 58 room),
    )

lt_of_room : (t room c : ℕ) → (t + 1) * 58 ^ room ≤ c → t < c
lt_of_room t room c h =
    let more : (t + 1) * 1 ≤ (t + 1) * 58 ^ room = mul-le-mul (omega arith) (pow_pos room) in
    omega (arith, more, h)

-- One digit: no carry is left, and the buffer holds the new number.
digit_step :
    (n len k room : ℕ) (b256 : Bytes)
    → Holds n len b256
    → k < 58
    → (n + 1) * 58 ^ suc room ≤ capacity b256
    → ((add_digit k 0 len b256).0 ≡ 0)
      × Holds (58 * n + k) ((add_digit k 0 len b256).1) ((add_digit k 0 len b256).2)
      × ((58 * n + k + 1) * 58 ^ room ≤ capacity ((add_digit k 0 len b256).2))
digit_step n len k room b256 h small fits =
    let r = add_digit k 0 len b256 in
    let at : len - 0 ≡ len = omega arith in
    let m : Multiplied k 0 b256 r =
      add_digit-Multiplied len k 0 b256 h.bytes (ap (λ j. little (drop j b256)) at ∙ h.unused) in
    let roomy : (58 * n + k + 1) * 58 ^ room ≤ capacity b256 =
      room_left n k room (capacity b256) small fits in
    let below : 58 * n + k < capacity b256 = lt_of_room (58 * n + k) room (capacity b256) roomy in
    let none_left : r.0 ≡ 0 =
      no_carry (capacity b256) (r.0) (58 * n + k) (omega (arith, m.sum, h.value)) below in
    let lost : capacity b256 * r.0 ≡ 0 = ap (λ c. capacity b256 * c) none_left ∙ omega arith in
    let from_start : r.1 - 0 ≡ r.1 = omega arith in
    (
      none_left,
      record {
        value = omega (arith, m.sum, h.value, lost);
        bytes = m.bytes;
        unused = ap (λ j. little (drop j (r.2))) (sym from_start) ∙ m.unused;
        in_buffer = omega (arith, m.index, m.same_length);
      },
      omega (arith, roomy, m.same_capacity),
    )

digit58_of : (a k : ℕ) → map_base58 a ≡ some k → digit58 a ≡ k
unfolding digit58
digit58_of a k e = ground (arith, e)

pub space_of : (a k : ℕ) → map_base58 a ≡ some k → is_space a ≡ false
unfolding map_base58 is_space
space_of a k e = ground arith

pub decode_loop_digits :
    (digits post : Bytes) (n len : ℕ) (b256 : Bytes)
    → All IsBase58 digits
    → Ends post
    → Holds n len b256
    → (n + 1) * 58 ^ length (digits ++ post) ≤ capacity b256
    → (len' : ℕ) × (b256' : Bytes) × (decode_loop (digits ++ post) len b256
        ≡ ok (post, len', b256'))
      × Holds (value58 n digits) len' b256'
unfolding decode_loop value58
decode_loop_digits [] [] n len b256 digits ends h fits = (len, b256, refl, h)
decode_loop_digits [] (p ∷ post) n len b256 digits ends h fits =
    (len, b256, ground (arith, ends), h)
decode_loop_digits (a ∷ s) post n len b256 ((k, e), digits) ends h fits =
    let r = add_digit k 0 len b256 in
    let (clear, held, room) =
      digit_step n len k (length (s ++ post)) b256 h ((map_base58_bound a k e).1) fits in
    let same : 58 * n + digit58 a ≡ 58 * n + k = omega (arith, digit58_of a k e) in
    let (len', b', run, out) =
      decode_loop_digits s post (58 * n + k) (r.1) (r.2) digits ends held room in
    (
      len',
      b',
      ground (arith, e, clear, space_of a k e, run),
      subst (λ m. Holds (value58 m s) len' b') (sym same) out,
    )

pub no_carry_left :
    (s : Bytes) (n len : ℕ) (b256 : Bytes)
    → Holds n len b256
    → (n + 1) * 58 ^ length s ≤ capacity b256
    → decode_loop s len b256 ≢ err carry_left
unfolding decode_loop
no_carry_left [] n len b256 h fits = λ e. cc e
no_carry_left (a ∷ s) n len b256 h fits = elim (Bool-cases (is_space a)) [
  | inl space ↦ λ e. ground (arith, e)
  | inr other ↦ elim (Option-cases (map_base58 a)) [
    | inl unknown ↦ λ e. ground (arith, e)
    | inr (k, known) ↦
        let (clear, held, room) =
          digit_step n len k (length s) b256 h ((map_base58_bound a k known).1) fits in
        let rest =
          no_carry_left s (58 * n + k) ((add_digit k 0 len b256).1) ((add_digit k 0 len b256).2)
            held room in
        λ e. rest (ground (arith, clear, e))
  ]
]
