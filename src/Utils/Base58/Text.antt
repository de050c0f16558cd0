-- ===== src/Utils/Base58/Text.antt =====
-- The base58 decoder on whole texts.
use native.Mathlib.Nat.{pow-zero, pow-succ'}
use gxmis_plugin.Common.{
  IsByte, ℕ, zero, suc, ◌+◌, ◌*◌, ◌<◌, ◌^◌, ◌≤◌, ◌≡◌, ◌≢◌, refl, Bytes, [], ◌∷◌, ◌++◌, length, take,
  drop, replicate, All, All-append, Stops, Passes, Result-cases, inl, inr, ok, err, ◌==◌, arith, ap,
  sym, ◌∙◌, subst, append-nil,
}
use gxmis_plugin.Utils.Base58.{
  carry_left, is_space, c_str, skip_spaces, skip_ones, decode_loop, skip_zeroes, reversed,
  buffer_size, decode_base58,
}
use gxmis_plugin.Utils.Base58.Alphabet.{map_base58_bound}
use gxmis_plugin.Utils.Base58.Size.{pow-le-buffer_size}
use gxmis_plugin.Utils.Base58.Digits.{little, capacity}
use gxmis_plugin.Utils.Base58.Decode.{
  IsBase58, value58, Ends, Holds, space_of, decode_loop_digits, no_carry_left,
}

-- The number that bytes spell, the highest first, from the number before them.
unfoldable pub big : ℕ → Bytes → ℕ
big n [] = n
big n (b ∷ bs) = big (256 * n + b) bs

big-append : (n b : ℕ) (bs : Bytes) → big n (bs ++ (b ∷ [])) ≡ 256 * big n bs + b
unfolding big
big-append n b [] = refl
big-append n b (c ∷ bs) = big-append (256 * n + c) b bs

big-reversed : (ds : Bytes) → big 0 (reversed ds) ≡ little ds
unfolding reversed little big
big-reversed [] = refl
big-reversed (d ∷ ds) = omega (arith, big-append 0 d (reversed ds), big-reversed ds)

skip_zeroes_done : (b : ℕ) (bs : Bytes) → skip_zeroes (suc b ∷ bs) ≡ suc b ∷ bs
unfolding skip_zeroes
skip_zeroes_done b bs = ground arith

big-skip_zeroes : (bs : Bytes) → big 0 (skip_zeroes bs) ≡ big 0 bs
unfolding skip_zeroes big
big-skip_zeroes [] = refl
big-skip_zeroes (zero ∷ bs) = big-skip_zeroes bs ∙ ap (λ n. big n bs) (omega arith)
big-skip_zeroes (suc b ∷ bs) = ap (big 0) (skip_zeroes_done b bs)

little-take : (n : ℕ) (ds : Bytes) → little (drop n ds) ≡ 0 → little (take n ds) ≡ little ds
unfolding little
little-take zero ds h = sym h
little-take (suc n) [] h = refl
little-take (suc n) (d ∷ ds) h = omega (arith, little-take n ds h)

capacity-replicate : (n : ℕ) → capacity (replicate n 0) ≡ 256 ^ n
unfolding capacity
capacity-replicate zero = omega (arith, pow-zero 256)
capacity-replicate (suc n) = omega (arith, pow-succ' 256 n, capacity-replicate n)

little-replicate : (n : ℕ) → little (replicate n 0) ≡ 0
unfolding little
little-replicate zero = refl
little-replicate (suc n) = omega (arith, little-replicate n)

replicate-IsByte : (n : ℕ) → All IsByte (replicate n 0)
replicate-IsByte zero = tt
replicate-IsByte (suc n) = (omega arith, replicate-IsByte n)

take-IsByte : (n : ℕ) (ds : Bytes) → All IsByte ds → All IsByte (take n ds)
take-IsByte zero ds h = tt
take-IsByte (suc n) [] h = tt
take-IsByte (suc n) (d ∷ ds) h = (h.0, take-IsByte n ds (h.1))

reversed-IsByte : (ds : Bytes) → All IsByte ds → All IsByte (reversed ds)
unfolding reversed
reversed-IsByte [] h = tt
reversed-IsByte (d ∷ ds) h =
    All-append IsByte (reversed ds) (d ∷ []) (reversed-IsByte ds (h.1)) (h.0, tt)

skip_zeroes-IsByte : (ds : Bytes) → All IsByte ds → All IsByte (skip_zeroes ds)
unfolding skip_zeroes
skip_zeroes-IsByte [] h = tt
skip_zeroes-IsByte (zero ∷ ds) h = skip_zeroes-IsByte ds (h.1)
skip_zeroes-IsByte (suc d ∷ ds) h = subst (All IsByte) (sym (skip_zeroes_done d ds)) h

skip_zeroes-Stops : (ds : Bytes) → Stops (λ b. b == 0) (skip_zeroes ds)
unfolding skip_zeroes
skip_zeroes-Stops [] = tt
skip_zeroes-Stops (zero ∷ ds) = skip_zeroes-Stops ds
skip_zeroes-Stops (suc d ∷ ds) =
    subst (Stops (λ b. b == 0)) (sym (skip_zeroes_done d ds)) (ground arith)

c_str_lem : (s : Bytes) → All (λ a. 0 < a) s → c_str s ≡ s
unfolding c_str
c_str_lem [] h = refl
c_str_lem (a ∷ s) h = ground (arith, h.0, c_str_lem s (h.1))

skip_spaces-append :
    (pre rest : Bytes)
    → Passes is_space pre
    → Stops is_space rest
    → skip_spaces (pre ++ rest) ≡ rest
unfolding skip_spaces
skip_spaces-append [] [] h stop = refl
skip_spaces-append [] (a ∷ rest) h stop = ground (arith, stop)
skip_spaces-append (a ∷ pre) rest h stop =
    ground (arith, h.0, skip_spaces-append pre rest (h.1) stop)

skip_ones-append :
    (z : ℕ) (rest : Bytes)
    → Stops (λ a. a == b'1') rest
    → skip_ones (replicate z b'1' ++ rest) ≡ (z, rest)
unfolding skip_ones
skip_ones-append zero [] stop = refl
skip_ones-append zero (a ∷ rest) stop = ground (arith, stop)
skip_ones-append (suc z) rest stop = ground (arith, skip_ones-append z rest stop)

Ends-of_spaces : (post : Bytes) → Passes is_space post → Ends post
Ends-of_spaces [] h = tt
Ends-of_spaces (a ∷ post) h = h.0

Stops-ones :
    (z : ℕ) (digits post : Bytes)
    → All IsBase58 digits
    → 0 < z + length digits
    → Stops is_space (replicate z b'1' ++ (digits ++ post))
unfolding is_space
Stops-ones zero [] post known some_text = absurd (omega arith)
Stops-ones zero (a ∷ digits) post known some_text = space_of a (known.0.0) (known.0.1)
Stops-ones (suc z) digits post known some_text = refl

Stops-digits :
    (digits post : Bytes)
    → Stops (λ a. a == b'1') digits
    → Passes is_space post
    → Stops (λ a. a == b'1') (digits ++ post)
unfolding is_space
Stops-digits [] [] stop spaces = tt
Stops-digits [] (a ∷ post) stop spaces = ground (arith, spaces.0)
Stops-digits (a ∷ digits) post stop spaces = stop

abbrev IsPositive : ℕ → Type 0
IsPositive a = 0 < a

spaces-IsPositive : (s : Bytes) → Passes is_space s → All IsPositive s
unfolding is_space
spaces-IsPositive [] h = tt
spaces-IsPositive (a ∷ s) h = (ground (arith, h.0), spaces-IsPositive s (h.1))

digits-IsPositive : (s : Bytes) → All IsBase58 s → All IsPositive s
digits-IsPositive [] h = tt
digits-IsPositive (a ∷ s) h = ((map_base58_bound a (h.0.0) (h.0.1)).2, digits-IsPositive s (h.1))

ones-IsPositive : (z : ℕ) → All IsPositive (replicate z b'1')
ones-IsPositive zero = tt
ones-IsPositive (suc z) = (omega arith, ones-IsPositive z)

empty-Holds : (size : ℕ) → Holds 0 0 (replicate size 0)
empty-Holds size = record {
  value = little-replicate size;
  bytes = replicate-IsByte size;
  unused = little-replicate size;
  in_buffer = omega arith;
}

empty_room : (n : ℕ) → n * 733 < 2 ^ 32 → (0 + 1) * 58 ^ n ≤ capacity (replicate (buffer_size n) 0)
empty_room n short = omega (arith, pow-le-buffer_size n short, capacity-replicate (buffer_size n))

length-c_str : (s : Bytes) → length (c_str s) ≤ length s
unfolding c_str
length-c_str [] = omega arith
length-c_str (a ∷ s) = ground (arith, length-c_str s)

length-skip_spaces : (s : Bytes) → length (skip_spaces s) ≤ length s
unfolding skip_spaces
length-skip_spaces [] = omega arith
length-skip_spaces (a ∷ s) = ground (arith, length-skip_spaces s)

length-skip_ones : (s : Bytes) → length ((skip_ones s).1) ≤ length s
unfolding skip_ones
length-skip_ones [] = omega arith
length-skip_ones (a ∷ s) = ground (arith, length-skip_ones s)

-- The assertion `carry == 0` of the decoder fails for no text whose length times 733 is below 2^32,
-- so that the size of the buffer does not wrap around: the buffer has room for every number that
-- fits such a text.
pub decode_base58-ne-carry_left :
    (str : Bytes) → length str * 733 < 2 ^ 32 → decode_base58 str ≢ err carry_left
unfolding decode_base58
decode_base58-ne-carry_left str few =
    let psz = (skip_ones (skip_spaces (c_str str))).1 in
    let size = buffer_size (length psz) in
    let short : length psz * 733 < 2 ^ 32 = omega (
      arith,
      few,
      length-c_str str,
      length-skip_spaces (c_str str),
      length-skip_ones (skip_spaces (c_str str)),
    ) in
    let never =
      no_carry_left psz 0 0 (replicate size 0) (empty-Holds size) (empty_room (length psz) short) in
    λ e. elim (Result-cases (decode_loop psz 0 (replicate size 0))) [
      | inr (error, run) ↦ never (ground (arith, run, e))
      | inl (left, run) ↦ ground (arith, run, e)
    ]

-- A text of digits in the middle of spaces, with `z` characters 1 in front, for which the size of the
-- buffer does not wrap around.
module _ (pre digits post : Bytes) (z : ℕ) (spaces_before : Passes is_space pre)
    (spaces_after : Passes is_space post) (known : All IsBase58 digits)
    (no_one : Stops (λ a. a == b'1') digits) (something : 0 < z + length digits)
    (short : length (digits ++ post) * 733 < 2 ^ 32) where
  abbrev body : Bytes
  body = replicate z b'1' ++ (digits ++ post)

  text_kept : c_str (pre ++ body) ≡ pre ++ body
  text_kept = c_str_lem (pre ++ body) (
      All-append IsPositive pre body (spaces-IsPositive pre spaces_before) (
        All-append IsPositive (replicate z b'1') (digits ++ post) (ones-IsPositive z) (
          All-append IsPositive digits post (digits-IsPositive digits known)
            (spaces-IsPositive post spaces_after))))

  -- The decoder succeeds on digits with spaces around, whose number, from the first that is not `1`
  -- to the end of the text, is below 2^32 when multiplied by 733. Each `1` in front becomes a zero
  -- byte; the other bytes spell, to the base 256 and with no zero in front, the number that the
  -- digits spell to the base 58.
  pub decode_base58_digits :
      (bytes : Bytes) × (decode_base58 (pre ++ body) ≡ ok (replicate z 0 ++ bytes))
      × (big 0 bytes ≡ value58 0 digits)
      × All IsByte bytes
      × Stops (λ b. b == 0) bytes
  unfolding decode_base58
  decode_base58_digits =
      let size = buffer_size (length (digits ++ post)) in
      let (len, b256, run, held) =
        decode_loop_digits digits post 0 0 (replicate size 0) known
          (Ends-of_spaces post spaces_after) (empty-Holds size)
          (empty_room (length (digits ++ post)) short) in
      let bytes = skip_zeroes (reversed (take len b256)) in
      let spaces_end : skip_spaces post ≡ [] =
        ap skip_spaces (sym (append-nil post)) ∙ skip_spaces-append post [] spaces_after tt in
      (
        bytes,
        ground (
          arith,
          text_kept,
          skip_spaces-append pre body spaces_before (Stops-ones z digits post known something),
          skip_ones-append z (digits ++ post) (Stops-digits digits post no_one spaces_after),
          run,
          spaces_end,
        ),
        big-skip_zeroes (reversed (take len b256))
            ∙ big-reversed (take len b256)
            ∙ little-take len b256 held.unused
            ∙ held.value,
        skip_zeroes-IsByte (reversed (take len b256))
            (reversed-IsByte (take len b256) (take-IsByte len b256 held.bytes)),
        skip_zeroes-Stops (reversed (take len b256)),
      )
