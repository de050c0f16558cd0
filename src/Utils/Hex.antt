-- ===== src/Utils/Hex.antt =====
-- The hexadecimal and decimal conversions of contracts/exchange/src/utils.cpp. A byte is a number
-- below 256; a failing `eosio_assert` is an error.
pub mod RoundTrip
pub mod Decimal
use Prim.Native.Nat.{bit_or}
use gxmis_plugin.Common.{
  ℕ, zero, suc, ◌+◌, ◌-◌, ◌*◌, ◌/◌, ◌%◌, ◌<◌, ◌^◌, ◌≡◌, refl, Bool, true, false, ◌&&◌, List, [],
  ◌∷◌, ◌++◌, Bytes, codes, Result, ok, err, ◌>>=◌, ◌>>◌, guard, arith, leb, ltb, ◌==◌,
  if◌then◌else◌, length, get_or,
}

pub data HexError : Type 0 where
  invalid_character invalid_sha256 invalid_sha1 : HexError

-- The `do` loop with fuel: a round writes the last digit, and goes on while a quotient is left.
unfoldable pub uint64_string_loop : ℕ → ℕ → Bytes → Bytes
uint64_string_loop zero input result = result
uint64_string_loop (suc fuel) input result =
    let c = input % 10 in
    let digit = if ltb c 10 then c + b'0' else c + (b'A' - 10) in
    let rest = uint64_string_loop fuel (input / 10) (digit ∷ result) in
    if input / 10 == 0 then digit ∷ result else rest

-- A 64-bit number has at most 20 digits.
unfoldable pub uint64_string : ℕ → Bytes
unfolding uint64_string_loop
uint64_string input = uint64_string_loop 20 input []

-- `from_hex(char)`
unfoldable pub from_hex_char : ℕ → Result HexError ℕ
from_hex_char c =
    if leb b'0' c && leb c b'9'
    then ok (c - b'0')
    else if leb b'a' c && leb c b'f'
    then ok (c - b'a' + 10)
    else if leb b'A' c && leb c b'F'
    then ok (c - b'A' + 10)
    else err invalid_character

-- `from_hex(string, buffer, length)`: the bytes that it writes, as many as it returns.
unfoldable pub from_hex : Bytes → ℕ → Result HexError Bytes
from_hex [] n = ok []
from_hex (a ∷ s) zero = ok []
from_hex (a ∷ []) (suc n) = do high ← from_hex_char a; ok ((high * 16) % 256 ∷ [])
from_hex (a ∷ b ∷ s) (suc n) = do
  high ← from_hex_char a
  low ← from_hex_char b
  rest ← from_hex s n
  ok (bit_or ((high * 16) % 256) low ∷ rest)

unfoldable pub hex_digit : ℕ → ℕ
hex_digit n = get_or (codes "0123456789abcdef") n 0

-- `to_hex` over the whole of a buffer.
unfoldable pub to_hex : Bytes → Bytes
to_hex [] = []
to_hex (b ∷ d) = hex_digit (b / 16) ∷ hex_digit (b % 16) ∷ to_hex d

-- `sha256_to_hex` and `sha1_to_hex`: a checksum is a buffer of 32 or of 20 bytes.
unfoldable pub sha256_to_hex : Bytes → Bytes
sha256_to_hex sha256 = to_hex sha256

unfoldable pub sha1_to_hex : Bytes → Bytes
sha1_to_hex sha1 = to_hex sha1

unfoldable pub hex_to_sha256 : Bytes → Result HexError Bytes
hex_to_sha256 hex_str = do guard (length hex_str == 64) invalid_sha256; from_hex hex_str 32

unfoldable pub hex_to_sha1 : Bytes → Result HexError Bytes
hex_to_sha1 hex_str = do guard (length hex_str == 40) invalid_sha1; from_hex hex_str 20
