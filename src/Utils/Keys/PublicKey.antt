-- ===== src/Utils/Keys/PublicKey.antt =====
-- Public keys that are read from text.
use gxmis_plugin.Common.{
  ◌≡◌, true, Bytes, [], ◌∷◌, ◌++◌, length, drop, leb, drop_left, length-append, ok, arith, ap, sym,
  ◌∙◌,
}
use gxmis_plugin.Utils.Base58.{decode_base58}
use gxmis_plugin.Utils.Keys.{str_to_pub}
use gxmis_plugin.Utils.Keys.Signature.{checked, checksum_holds}

module _ (ripemd160 : Bytes → Bytes) where
  -- A public key printed as three characters and base58 data, whose data decodes to 33 bytes and their
  -- checksum, is read back as the type 0 and the 33 bytes, whatever the three characters are.
  pub str_to_pub_text :
      (prefix payload data_str : Bytes)
      → length prefix ≡ 3
      → length payload ≡ 33
      → length (checked ripemd160 payload []) ≡ 37
      → decode_base58 data_str ≡ ok (checked ripemd160 payload [])
      → str_to_pub ripemd160 (prefix ++ data_str) true ≡ ok (0 ∷ payload)
  unfolding str_to_pub
  str_to_pub_text prefix payload data_str three size all decodes =
      let holds = checksum_holds ripemd160 33 payload [] size in
      let rest : drop 3 (prefix ++ data_str) ≡ data_str =
        ap (λ n. drop n (prefix ++ data_str)) (sym three) ∙ drop_left prefix data_str in
      let long : leb 3 (length (prefix ++ data_str)) ≡ true =
        ground (arith, length-append prefix data_str, three) in
      ground (arith, decodes, all, holds, rest, long)
