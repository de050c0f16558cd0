-- ===== src/Utils/Keys.antt =====
-- Keys and signatures from text, and the hashes, in contracts/exchange/src/utils.cpp. The function
-- `ripemd160` and `std::hash` are parameters.
pub mod Signature
pub mod PublicKey
use Prim.Native.Nat.{bit_xor}
use gxmis_plugin.Common.{
  ℕ, zero, suc, ◌+◌, ◌-◌, ◌*◌, ◌/◌, ◌%◌, ◌^◌, Bool, true, false, not, ◌||◌, Bytes, bytes_eq, codes,
  List, [], ◌∷◌, ◌++◌, length, take, drop, is_empty, Option, none, some, leb, ◌==◌, if◌then◌else◌,
  Result, ok, err, ◌>>=◌, ◌>>◌, guard, or_fail,
}
use gxmis_plugin.Common.Find.{find, find_from}
use gxmis_plugin.Utils.Base58.{decode_base58}
use gxmis_plugin.Utils.Hex.{sha256_to_hex}

-- The messages of `eosio_assert`, and the exception of `substr`.
pub data KeyError : Type 0 where
  invalid_first_pos parse_memo_error : KeyError
  no_delimiter invalid_prefix no_curve incorrect_curve no_data : KeyError
  decode_failed invalid_size checksum_mismatch out_of_range : KeyError

-- `s.substr(pos, n)` with `pos` in range.
abbrev pub slice : Bytes → ℕ → ℕ → Bytes
slice s position n = take n (drop position s)

-- The position returned (none is npos), and what is written to `output`, if anything is.
unfoldable pub sub2sep : Bytes → ℕ → Option ℕ → Bool → Result KeyError (Option ℕ × Option Bytes)
sub2sep input separator none required = err invalid_first_pos
sub2sep input separator (some first) required = elim (find_from separator input first) [
  | none ↦ do guard (not required) parse_memo_error; ok (none, none)
  | some position ↦ ok (some position, some (slice input first (position - first)))
]

-- `decode_base58`, with false as an error.
abbrev pub decoded : Bytes → Result KeyError Bytes
decoded s = elim (decode_base58 s) [ ok vch ↦ ok vch | err e ↦ err decode_failed ]

module _ (ripemd160 : Bytes → Bytes) where
  -- The last four bytes after `size` bytes of data are the checksum of these and a suffix.
  unfoldable pub check_sum : Bytes → ℕ → Bytes → Result KeyError (Unit {0})
  unfolding bytes_eq
  check_sum vch size suffix =
      guard (bytes_eq (take 4 (ripemd160 (take size vch ++ suffix))) (drop size vch))
        checksum_mismatch

  unfoldable pub str_to_sig : Bytes → Bool → Result KeyError Bytes
  unfolding bytes_eq
  str_to_sig sig checksumming = do
    pivot ← or_fail (find b'_' sig) no_delimiter
    guard (bytes_eq (take pivot sig) (codes "SIG")) invalid_prefix
    next_pivot ← or_fail (find_from b'_' sig (suc pivot)) no_curve
    let curve = slice sig (suc pivot) (next_pivot - pivot - 1)
    guard (bytes_eq curve (codes "K1") || bytes_eq curve (codes "R1")) incorrect_curve
    let k1 = bytes_eq curve (codes "K1")
    let data_str = drop (suc next_pivot) sig
    guard (not (is_empty data_str)) no_data
    vch ← decoded data_str
    guard (length vch == 69) invalid_size
    let suffix = (if k1 then b'K' else b'R') ∷ b'1' ∷ []
    if checksumming then check_sum vch 65 suffix else ok tt
    ok ((if k1 then 0 else 1) ∷ take 65 vch)

  unfoldable pub str_to_pub : Bytes → Bool → Result KeyError Bytes
  str_to_pub pubkey checksumming = do
    guard (leb 3 (length pubkey)) out_of_range
    vch ← decoded (drop 3 pubkey)
    guard (length vch == 37) invalid_size
    if checksumming then check_sum vch 33 [] else ok tt
    ok (0 ∷ take 33 vch)

-- The new seed of `hash_combine`, on the 32-bit size_t of WebAssembly; `hashed` is `std::hash` of the value.
unfoldable pub hash_combine : ℕ → ℕ → ℕ
hash_combine seed hashed =
    bit_xor seed ((hashed + 0x9e3779b9 + seed * 64 % 2 ^ 32 + seed / 4) % 2 ^ 32)

module _ (std_hash : Bytes → ℕ) where
  unfoldable pub uint64_hash : Bytes → ℕ
  uint64_hash hash = std_hash hash

  unfoldable pub uint64_hash_checksum : Bytes → ℕ
  uint64_hash_checksum hash = uint64_hash (sha256_to_hex hash)
