-- ===== src/Plugin/Actions.antt =====
-- The actions that the plugin builds, in plugins/data_exchange_plugin/data_exchange_plugin.cpp: the
-- permissions, the cache of ABIs and the packing of an action. A `name` is its text here.
pub mod Permissions
pub mod Abi
pub mod Args
pub mod Create
pub mod Transaction
pub mod Push
pub mod Tests
use gxmis_plugin.Common.{
  ℕ, suc, Bool, Bytes, bytes_eq, codes, is_empty, List, [], ◌∷◌, Option, none, some, take, drop,
  if◌then◌else◌, Result, ok, err, ◌≡◌,
}
use gxmis_plugin.Common.Find.{find}

pub data ActionError : Type 0 where
  bad_name no_abi unknown_action bad_payload bad_asset bad_json bad_cipher_text : ActionError
  bad_level bad_public_key no_head_info bad_transaction : ActionError

-- `chain::permission_level`
pub record PermissionLevel : Type 0 where
  pub actor : Bytes
  pub permission : Bytes

-- `chain::action`
pub record Action : Type 0 where
  pub authorization : List PermissionLevel
  pub account : Bytes
  pub name : Bytes
  pub bytes : Bytes

-- What the plugin uses of the chain's library. `to_name` is the constructor of a name from a text,
-- with the name's text as its value; a failing call is none.
pub record Library : Type 1 where
  pub Abi : Type 0
  pub Json : Type 0
  pub to_name : Bytes → Option Bytes
  pub get_action_type : Abi → Bytes → Bytes
  pub variant_to_binary : Abi → Bytes → Json → Option Bytes
  pub text : Bytes → Json
  pub flag : Bool → Json
  pub object : List (Bytes × Json) → Json
  pub from_string : Bytes → Option Json
  pub is_regular_file : Bytes → Bool
  pub from_file : Bytes → Option Json
  pub split : ℕ → Bytes → List Bytes
  pub trim : Bytes → Bytes

-- An optional ABI for each account that was asked for.
abbrev pub AbiCache : Library → Type 0
AbiCache lib = List (Bytes × Option lib.Abi)

-- A piece of code that may fill the cache and may fail.
abbrev pub Packing : Type 0 → Type 0 → Type 0
Packing Cache A = Cache → Cache × Result ActionError A

infixl 5 ◌>>=◌
abbrev pub ◌>>=◌ : {C A B : Type 0} → Packing C A → (A → Packing C B) → Packing C B
◌>>=◌ m f cache =
    let (cache', result) = m cache in elim result [ ok a ↦ f a cache' | err e ↦ (cache', err e) ]

-- A step that only may fail, and a value.
abbrev pub attempt : {C A : Type 0} → Option A → ActionError → Packing C A
attempt none e cache = (cache, err e)
attempt (some a) e cache = (cache, ok a)

abbrev pub give : {C A : Type 0} → A → Packing C A
give a cache = (cache, ok a)

-- `abi_cache.find(account)`
unfoldable pub cached : {V : Type 0} → List (Bytes × V) → Bytes → Option V
cached [] account = none
cached ((key, abi) ∷ cache) account =
    if bytes_eq key account then some abi else cached cache account

module _ (lib : Library) where
  open lib use {Abi, Json, to_name, get_action_type, variant_to_binary}

  -- The chain's answer to `get_abi` is a parameter.
  unfoldable pub abi_serializer_resolver :
      (Bytes → Option Abi) → Bytes → AbiCache lib → AbiCache lib × Option Abi
  abi_serializer_resolver get_abi account cache = elim (cached cache account) [
    | none ↦ ((account, get_abi account) ∷ cache, get_abi account)
    | some abis ↦ (cache, abis)
  ]

  unfoldable pub variant_to_bin :
      (Bytes → Option Abi) → Bytes → Bytes → Json → Packing (AbiCache lib) Bytes
  variant_to_bin get_abi account action args cache =
      let (cache', found) = abi_serializer_resolver get_abi account cache in
      (
        cache',
        elim found [
          | none ↦ err no_abi
          | some abis ↦
              let action_type = get_action_type abis action in
              if is_empty action_type
              then err unknown_action
              else elim (variant_to_binary abis action_type args) [
                | none ↦ err bad_payload
                | some packed ↦ ok packed
              ]
        ],
      )

  unfoldable pub create_action :
      (Bytes → Option Abi)
      → List PermissionLevel
      → Bytes
      → Bytes
      → Json
      → Packing (AbiCache lib) Action
  create_action get_abi authorization code act args = do
    packed ← variant_to_bin get_abi code act args
    give (record { authorization = authorization; account = code; name = act; bytes = packed })
