-- ===== src/Utils/Keys/Signature.antt =====
-- Signatures that are read from text.
use gxmis_plugin.Common.{
  ℕ, ◌≡◌, Bool, true, false, Bytes, codes, bytes_eq, bytes_eq_refl, ◌∷◌, ◌++◌, length, take,
  is_empty, ok, if◌then◌else◌, arith, take_left, drop_left, subst,
}
use gxmis_plugin.Utils.Base58.{decode_base58}
use gxmis_plugin.Common.Find.{find, find_from}
use gxmis_plugin.Utils.Keys.{check_sum, str_to_sig}

-- The name of a curve.
abbrev pub curve_name : Bool → Bytes
curve_name k1 = if k1 then codes "K1" else codes "R1"

abbrev pub signature_text : Bool → Bytes → Bytes
signature_text true data_str = codes "SIG_K1_" ++ data_str
signature_text false data_str = codes "SIG_R1_" ++ data_str

module _ (ripemd160 : Bytes → Bytes) where
  -- The bytes and the first four bytes of the checksum of these and the curve's name.
  abbrev pub checked : Bytes → Bytes → Bytes
  checked payload suffix = payload ++ take 4 (ripemd160 (payload ++ suffix))

  pub check_sum-checked :
      (payload suffix : Bytes)
      → check_sum ripemd160 (checked payload suffix) (length payload) suffix ≡ ok tt
  unfolding check_sum
  check_sum-checked payload suffix =
      let sum = take 4 (ripemd160 (payload ++ suffix)) in
      ground (arith, take_left payload sum, drop_left payload sum, bytes_eq_refl sum)

  pub checksum_holds :
      (n : ℕ) (payload suffix : Bytes)
      → length payload ≡ n
      → (check_sum ripemd160 (checked payload suffix) n suffix ≡ ok tt)
        × (take n (checked payload suffix) ≡ payload)
  checksum_holds n payload suffix size =
      subst
        (λ n.
          (check_sum ripemd160 (checked payload suffix) n suffix ≡ ok tt)
          × (take n (checked payload suffix) ≡ payload))
        size
        (
          check_sum-checked payload suffix,
          take_left payload (take 4 (ripemd160 (payload ++ suffix))),
        )

  -- A signature printed as prefix, curve and base58 data, whose data decodes to 65 bytes and their
  -- checksum, is read back: the type of the curve, and the 65 bytes.
  pub str_to_sig_text :
      (k1 : Bool) (payload data_str : Bytes)
      → length payload ≡ 65
      → length (checked payload (curve_name k1)) ≡ 69
      → is_empty data_str ≡ false
      → decode_base58 data_str ≡ ok (checked payload (curve_name k1))
      → str_to_sig ripemd160 (signature_text k1 data_str) true
        ≡ ok ((if k1 then 0 else 1) ∷ payload)
  unfolding str_to_sig find find_from bytes_eq
  str_to_sig_text true payload data_str size all filled decodes =
      let holds = checksum_holds 65 payload (curve_name true) size in
      ground (arith, decodes, all, filled, holds)
  str_to_sig_text false payload data_str size all filled decodes =
      let holds = checksum_holds 65 payload (curve_name false) size in
      ground (arith, decodes, all, filled, holds)
