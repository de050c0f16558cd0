-- ===== src/Utils/Base58.antt =====
-- The base58 decoder of contracts/exchange/src/utils.cpp.
pub mod Alphabet
pub mod Size
pub mod Digits
pub mod Decode
pub mod Text
mod Tests
use gxmis_plugin.Common.{
  ℕ, zero, suc, ◌+◌, ◌-◌, ◌*◌, ◌/◌, ◌%◌, ◌^◌, Bool, true, false, not, ◌&&◌, ◌||◌, Bytes, codes,
  List, [], ◌∷◌, ◌++◌, length, take, replicate, is_empty, Option, none, some, ltb, leb, ◌==◌,
  if◌then◌else◌, Result, ok, err, ◌>>=◌, ◌>>◌, guard, or_fail,
}

-- Where the decoder returns false, and its failing assertion.
pub data Base58Error : Type 0 where
  invalid_character trailing_text carry_left : Base58Error

-- `pszBase58`
abbrev pub psz_base58 : Bytes
psz_base58 = codes "123456789ABCDEFGHJKLMNPQRSTUVWXYZabcdefghijkmnopqrstuvwxyz"

abbrev within : ℕ → ℕ → ℕ → Bool
within low high c = leb low c && leb c high

-- The table `mapBase58`, by its runs of consecutive entries; none is -1.
unfoldable pub map_base58 : ℕ → Option ℕ
map_base58 c =
    if within 49 57 c
    then some (c - 49)
    else if within 65 72 c
    then some (c - 65 + 9)
    else if within 74 78 c
    then some (c - 74 + 17)
    else if within 80 90 c
    then some (c - 80 + 22)
    else if within 97 107 c
    then some (c - 97 + 33)
    else if within 109 122 c
    then some (c - 109 + 44)
    else none

-- `isspace` in the "C" locale.
unfoldable pub is_space : ℕ → Bool
is_space c = c == 32 || (leb 9 c && leb c 13)

-- `str.c_str()` up to the byte that ends it.
unfoldable pub c_str : Bytes → Bytes
c_str [] = []
c_str (a ∷ s) = let rest = c_str s in if a == 0 then [] else a ∷ rest

unfoldable pub skip_spaces : Bytes → Bytes
skip_spaces [] = []
skip_spaces (a ∷ s) = let rest = skip_spaces s in if is_space a then rest else a ∷ s

-- The number of characters `1` in front, and the rest.
unfoldable pub skip_ones : Bytes → ℕ × Bytes
skip_ones [] = (0, [])
skip_ones (a ∷ s) =
    let (zeroes, rest) = skip_ones s in if a == b'1' then (suc zeroes, rest) else (0, a ∷ s)

-- The loop over the buffer, which stands here with its last byte first: the carry that is left, the
-- index reached, and the buffer.
unfoldable pub add_digit : ℕ → ℕ → ℕ → Bytes → ℕ × ℕ × Bytes
add_digit carry i len [] = (carry, i, [])
add_digit carry i len (d ∷ ds) =
    let total = carry + 58 * d in
    let (carry', i', ds') = add_digit (total / 256) (suc i) len ds in
    if carry == 0 && not (ltb i len) then (carry, i, d ∷ ds) else (carry', i', (total % 256) ∷ ds')

-- The loop over the characters: the text that is left, the length used and the buffer.
unfoldable pub decode_loop : Bytes → ℕ → Bytes → Result Base58Error (Bytes × ℕ × Bytes)
decode_loop [] len b256 = ok ([], len, b256)
decode_loop (a ∷ psz) len b256 = elim (is_space a) [
  | true ↦ ok (a ∷ psz, len, b256)
  | false ↦ do
    carry ← or_fail (map_base58 a) invalid_character
    let (left, i, b256') = add_digit carry 0 len b256
    guard (left == 0) carry_left
    decode_loop psz i b256'
]

unfoldable pub skip_zeroes : Bytes → Bytes
skip_zeroes [] = []
skip_zeroes (a ∷ s) = let rest = skip_zeroes s in if a == 0 then rest else a ∷ s

unfoldable pub reversed : Bytes → Bytes
reversed [] = []
reversed (a ∷ s) = reversed s ++ (a ∷ [])

-- `strlen(psz) * 733 / 1000 + 1`: the contract is WebAssembly, whose `size_t` has 32 bits, and the
-- quotient fits an `int`.
abbrev pub buffer_size : ℕ → ℕ
buffer_size n = n * 733 % 2 ^ 32 / 1000 + 1

unfoldable pub decode_base58 : Bytes → Result Base58Error Bytes
decode_base58 str =
    let (zeroes, psz) = skip_ones (skip_spaces (c_str str)) in
    do
      (rest, len, b256) ← decode_loop psz 0 (replicate (buffer_size (length psz)) 0)
      guard (is_empty (skip_spaces rest)) trailing_text
      ok (replicate zeroes 0 ++ skip_zeroes (reversed (take len b256)))
