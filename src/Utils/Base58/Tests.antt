-- ===== src/Utils/Base58/Tests.antt =====
-- Witnesses of the theorems on base58 and keys.
use gxmis_plugin.Common.{
  IsByte, ◌≡◌, refl, true, false, Bytes, codes, [], ◌∷◌, ◌++◌, replicate, ok, err, ◌≢◌, All, Stops,
  arith, ◌==◌,
}
use gxmis_plugin.Utils.Base58.{
  carry_left, map_base58, decode_base58, c_str, skip_spaces, is_space, skip_ones, decode_loop,
  add_digit, skip_zeroes, reversed,
}
use gxmis_plugin.Utils.Base58.Decode.{IsBase58, value58}
use gxmis_plugin.Utils.Base58.Text.{big, decode_base58_digits, decode_base58-ne-carry_left}
use gxmis_plugin.Utils.Keys.{str_to_sig, str_to_pub}
use gxmis_plugin.Utils.Keys.Signature.{checked, signature_text, str_to_sig_text}
use gxmis_plugin.Utils.Keys.PublicKey.{str_to_pub_text}

-- "1" and "2z" with a space on both sides.
known_2z : All IsBase58 (codes "2z")
unfolding map_base58
known_2z = ((1, refl), ((57, refl), tt))

space_passes : is_space 32 ≡ true
unfolding is_space
space_passes = refl

decode_base58_digits_example :
    (bytes : Bytes) × (decode_base58 (codes " " ++ (replicate 1 b'1' ++ (codes "2z" ++ codes " ")))
      ≡ ok (replicate 1 0 ++ bytes))
    × (big 0 bytes ≡ value58 0 (codes "2z"))
    × All IsByte bytes
    × Stops (λ b. b == 0) bytes
decode_base58_digits_example =
    decode_base58_digits (codes " ") (codes "2z") (codes " ") 1 (space_passes, tt)
      (space_passes, tt) known_2z refl (omega arith) (omega arith)

decode_base58-ne-carry_left_example : decode_base58 (codes "zz!") ≢ err carry_left
decode_base58-ne-carry_left_example = decode_base58-ne-carry_left (codes "zz!") (omega arith)

-- A stand-in for the hash.
abbrev constant_hash : Bytes → Bytes
constant_hash s = 1 ∷ 2 ∷ 3 ∷ 4 ∷ replicate 16 0

abbrev key_bytes : Bytes
key_bytes = 2 ∷ replicate 32 7

abbrev key_text : Bytes
key_text = codes "4warrnW18Vosf1nQapWhjwakKRCS3HkqBLUSjQa5zGa6VAbTUX"

key_decodes : decode_base58 key_text ≡ ok (checked constant_hash key_bytes [])
unfolding decode_base58 c_str skip_spaces is_space skip_ones decode_loop map_base58 add_digit
    skip_zeroes reversed
key_decodes = refl

str_to_pub_text_example :
    str_to_pub constant_hash (codes "FOO" ++ key_text) true ≡ ok (0 ∷ key_bytes)
str_to_pub_text_example =
    str_to_pub_text constant_hash (codes "FOO") key_bytes key_text refl refl refl key_decodes

abbrev sig_bytes : Bytes
sig_bytes = 31 ∷ replicate 64 9

abbrev sig_text : Bytes
sig_text =
    codes
      "JvSLUpNxqqMiuH8EbGmHhAhbVR8q4UmRADHpH5TmpxFiDkvKVpmD3qsCNkDMAuTfvTsnkWfdQjqNGNvb2J3rtWHeMu6tvF"

sig_decodes : decode_base58 sig_text ≡ ok (checked constant_hash sig_bytes (codes "R1"))
unfolding decode_base58 c_str skip_spaces is_space skip_ones decode_loop map_base58 add_digit
    skip_zeroes reversed
sig_decodes = refl

str_to_sig_text_example :
    str_to_sig constant_hash (signature_text false sig_text) true ≡ ok (1 ∷ sig_bytes)
str_to_sig_text_example =
    str_to_sig_text constant_hash false sig_bytes sig_text refl refl refl sig_decodes
