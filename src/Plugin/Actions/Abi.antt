-- ===== src/Plugin/Actions/Abi.antt =====
-- The cache of `abi_serializer_resolver`, over all the calls that a node makes while it runs.
use gxmis_plugin.Common.{
  Bytes, bytes_eq_refl, bytes_eq_iff, List, [], ◌∷◌, Option, some, ◌≡◌, arith,
}
use gxmis_plugin.Plugin.Actions.{Library, AbiCache, cached, abi_serializer_resolver}

module _ (lib : Library) where
  open lib use {Abi}

  -- One call: what the chain would answer at that time, and the account.
  abbrev pub Lookup : Type 0
  Lookup = (Bytes → Option Abi) × Bytes

  -- The cache after some calls.
  unfoldable pub after_lookups : List Lookup → AbiCache lib → AbiCache lib
  after_lookups [] cache = cache
  after_lookups ((get_abi, account) ∷ more) cache =
      after_lookups more ((abi_serializer_resolver lib get_abi account cache).0)

  resolver-cached :
      (get_abi : Bytes → Option Abi) (account : Bytes) (cache : AbiCache lib)
      → let (cache', abis) = abi_serializer_resolver lib get_abi account cache in
        cached cache' account ≡ some abis
  unfolding abi_serializer_resolver cached
  resolver-cached get_abi account cache = ground (arith, bytes_eq_refl account)

  resolver_keeps :
      (get_abi : Bytes → Option Abi) (asked account : Bytes) (cache : AbiCache lib)
      (abis : Option Abi)
      → cached cache account ≡ some abis
      → cached ((abi_serializer_resolver lib get_abi asked cache).0) account ≡ some abis
  unfolding abi_serializer_resolver cached
  resolver_keeps get_abi asked account cache abis h = ground (arith, bytes_eq_iff asked account)

  after_lookups-keeps :
      (lookups : List Lookup) (account : Bytes) (cache : AbiCache lib) (abis : Option Abi)
      → cached cache account ≡ some abis
      → cached (after_lookups lookups cache) account ≡ some abis
  unfolding after_lookups
  after_lookups-keeps [] account cache abis h = h
  after_lookups-keeps ((get_abi, asked) ∷ more) account cache abis h =
      after_lookups-keeps more account ((abi_serializer_resolver lib get_abi asked cache).0) abis
        (resolver_keeps get_abi asked account cache abis h)

  resolver_of_cached :
      (get_abi : Bytes → Option Abi) (account : Bytes) (cache : AbiCache lib) (abis : Option Abi)
      → cached cache account ≡ some abis
      → (abi_serializer_resolver lib get_abi account cache).1 ≡ abis
  unfolding abi_serializer_resolver
  resolver_of_cached get_abi account cache abis h = ground arith

  -- The answer for an account never changes: whatever calls come in between, and whatever the chain
  -- would answer now, it is the first one again.
  pub abi_serializer_resolver-same :
      (get_abi get_abi' : Bytes → Option Abi) (account : Bytes) (cache : AbiCache lib)
      (lookups : List Lookup)
      → let (cache', abis) = abi_serializer_resolver lib get_abi account cache in
        (abi_serializer_resolver lib get_abi' account (after_lookups lookups cache')).1 ≡ abis
  abi_serializer_resolver-same get_abi get_abi' account cache lookups =
      let (cache', abis) = abi_serializer_resolver lib get_abi account cache in
      resolver_of_cached get_abi' account (after_lookups lookups cache') abis
        (after_lookups-keeps lookups account cache' abis (resolver-cached get_abi account cache))
