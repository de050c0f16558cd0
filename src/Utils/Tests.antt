-- ===== src/Utils/Tests.antt =====
-- Runs of the conversions, and the theorems at those runs.
use gxmis_plugin.Common.{◌≡◌, ◌^◌, ◌-◌, refl, ok, Bytes, replicate, All, arith, codes}
use gxmis_plugin.Utils.Hex.{hex_to_sha256, sha256_to_hex, from_hex, from_hex_char, uint64_string}
use gxmis_plugin.Utils.Hex.RoundTrip.{hex_to_sha256-sha256_to_hex}
use gxmis_plugin.Utils.Hex.Decimal.{value, IsDigit, value-uint64_string}

abbrev checksum : Bytes
checksum = replicate 32 0xa7

hex_to_sha256-sha256_to_hex_example : hex_to_sha256 (sha256_to_hex checksum) ≡ ok checksum
hex_to_sha256-sha256_to_hex_example = hex_to_sha256-sha256_to_hex checksum (omega arith) refl

abbrev upper_case : Bytes
upper_case = replicate 64 b'B'

abbrev lower_bytes : Bytes
lower_bytes = replicate 32 0xbb

read_upper_case : hex_to_sha256 upper_case ≡ ok lower_bytes
unfolding hex_to_sha256 from_hex from_hex_char
read_upper_case = refl

largest : uint64_string (2 ^ 64 - 1) ≡ codes "18446744073709551615"
unfolding uint64_string
largest = refl

value-uint64_string_example :
    (value 0 (uint64_string 9040) ≡ 9040) × All IsDigit (uint64_string 9040)
value-uint64_string_example = value-uint64_string 9040 (omega arith)
