-- ===== src/Plugin/Actions/Create.antt =====
-- `create_push_action` and the functions that create one action each.
use gxmis_plugin.Common.{
  ℕ, Bool, Bytes, bytes_eq, codes, is_empty, List, [], ◌∷◌, get_elem?, Option, none, some, false,
  if◌then◌else◌, ok, err,
}
use gxmis_plugin.Common.Find.{contains}
use gxmis_plugin.Plugin.Cipher.{encrypt_wltpwd}
use gxmis_plugin.Common.Int.{pos}
use gxmis_plugin.Plugin.AssetText.{combine_asset}
use gxmis_plugin.Plugin.Actions.{
  Library, AbiCache, Packing, ◌>>=◌, attempt, give, PermissionLevel, Action, create_action,
  bad_name, bad_asset, bad_json, bad_cipher_text, bad_level, bad_public_key,
}
use gxmis_plugin.Plugin.Actions.Permissions.{get_account_permissions, to_permission_level}
use gxmis_plugin.Plugin.Actions.Args.{combine_action_args, json_from_file_or_string}

-- `push_action_params`
pub record PushActionParams : Type 0 where
  pub wltpwd : Bytes
  pub account : Bytes
  pub action_name : Bytes
  pub action_args : Bytes
  pub permissions : List Bytes

-- `auth_type`
pub data AuthType (Key : Type 0) : Type 0 where
  key : Key → AuthType Key
  level : PermissionLevel → AuthType Key

-- The chain's library for keys and assets: the name and the decimals of the core symbol, the asset
-- that a text spells, the printed form of an asset, and the packed form of a new account.
pub record SystemLibrary : Type 1 where
  pub Key : Type 0
  pub Asset : Type 0
  pub to_key : Bytes → Option Key
  pub core_name : Bytes
  pub core_decimals : ℕ
  pub asset_from_string : Bytes → Option Asset
  pub asset_text : Asset → Bytes
  pub pack_newaccount : Bytes → Bytes → AuthType Key → AuthType Key → Bytes

abbrev pub system_account_name : Bytes
system_account_name = codes "eosio"

module _ (lib : Library) (system : SystemLibrary) (get_abi : Bytes → Option lib.Abi) where
  open lib use {to_name, text, flag, object, split, trim}
  open system use {
    Key, Asset, to_key, core_name, core_decimals, asset_from_string, asset_text, pack_newaccount,
  }

  unfoldable pub create_newaccount :
      List PermissionLevel → Bytes → Bytes → AuthType Key → AuthType Key → Action
  create_newaccount permission creator newaccount owner active = record {
    authorization = permission;
    account = system_account_name;
    name = codes "newaccount";
    bytes = pack_newaccount creator newaccount owner active;
  }

  unfoldable pub create_buyram :
      List PermissionLevel → Bytes → Bytes → Asset → Packing (AbiCache lib) Action
  create_buyram permission creator newaccount quantity =
      create_action lib get_abi permission system_account_name (codes "buyram") (
        object (
          (codes "payer", text creator)
          ∷ ((codes "receiver", text newaccount)
              ∷ ((codes "quant", text (asset_text quantity)) ∷ []))))

  unfoldable pub create_delegate :
      List PermissionLevel → Bytes → Bytes → Asset → Asset → Bool → Packing (AbiCache lib) Action
  create_delegate permission from receiver net cpu transfer =
      create_action lib get_abi permission system_account_name (codes "delegatebw") (
        object (
          (codes "from", text from)
          ∷ ((codes "receiver", text receiver)
              ∷ ((codes "stake_net_quantity", text (asset_text net))
                  ∷ ((codes "stake_cpu_quantity", text (asset_text cpu))
                      ∷ ((codes "transfer", flag transfer) ∷ []))))))

  unfoldable pub create_transfer :
      List Bytes → Bytes → Bytes → Asset → Bytes → Packing (AbiCache lib) Action
  create_transfer permission from to quantity memo = do
    levels ← attempt (get_account_permissions lib permission) bad_name
    create_action lib get_abi levels (codes "eosio.token") (codes "transfer") (
        object (
          (codes "from", text from)
          ∷ ((codes "to", text to)
              ∷ ((codes "quantity", text (asset_text quantity))
                  ∷ ((codes "memo", text memo) ∷ [])))))

  -- The hashes as their texts.
  unfoldable pub create_mlmto : List Bytes → Bytes → Bytes → Bytes → Packing (AbiCache lib) Action
  create_mlmto permission buyer_oid seller_oid commodity = do
    levels ← attempt (get_account_permissions lib permission) bad_name
    create_action lib get_abi levels (codes "mis.exchange") (codes "mlmto") (
        object (
          (codes "buyer_oid", text buyer_oid)
          ∷ ((codes "seller_oid", text seller_oid) ∷ ((codes "commodity", text commodity) ∷ []))))

  -- A key, or the permission of another account.
  unfoldable pub auth_of : Bytes → Packing (AbiCache lib) (AuthType Key)
  auth_of s =
      if contains s (codes "@")
      then (do l ← attempt (to_permission_level lib s) bad_level; give (level l))
      else (do k ← attempt (to_key s) bad_public_key; give (key k))

  -- The key of a position, or another text where the position is missing.
  unfoldable pub trimmed : List Bytes → ℕ → Bytes → Bytes
  trimmed pieces i other = elim (get_elem? pieces i) [ none ↦ other | some s ↦ trim s ]

  -- An amount of the core symbol, as `combine_asset` prints it.
  abbrev core_asset : ℕ → Option Asset
  core_asset n = asset_from_string (combine_asset core_name core_decimals (pos n))

  -- The branch for a new account.
  unfoldable pub newaccount_actions :
      List PermissionLevel → PushActionParams → Packing (AbiCache lib) (List Action)
  newaccount_actions levels params = do
    let vec_acct_key = split b',' params.action_args
    let owner_key_str = trimmed vec_acct_key 1 []
    let active_key_str = trimmed vec_acct_key 2 owner_key_str
    owner ← auth_of owner_key_str
    active ← (if is_empty active_key_str then give owner else auth_of active_key_str)
    creator ← attempt (to_name params.account) bad_name
    newaccount ← attempt (to_name (trimmed vec_acct_key 0 [])) bad_name
    let create = create_newaccount levels creator newaccount owner active
    ram ← attempt (core_asset 100000) bad_asset
    buyram ← create_buyram levels creator newaccount ram
    net ← attempt (core_asset 30000) bad_asset
    delegate ← create_delegate levels creator newaccount net net false
    give (create ∷ (buyram ∷ (delegate ∷ [])))

  -- The text of the arguments; a wallet's password is encrypted.
  unfoldable pub arguments_text : PushActionParams → Option Bytes
  unfolding bytes_eq
  arguments_text params =
      if bytes_eq (codes "swlt") params.action_name
      then elim (encrypt_wltpwd split params.action_args) [ ok s ↦ some s | err e ↦ none ]
      else some params.action_args

  -- The branch for every other action.
  unfoldable pub plain_action :
      List PermissionLevel → PushActionParams → Packing (AbiCache lib) (List Action)
  plain_action levels params = do
    str_action_args ← attempt (arguments_text params) bad_cipher_text
    act_payload ←
        attempt (json_from_file_or_string lib (combine_action_args str_action_args)) bad_json
    code ← attempt (to_name params.account) bad_name
    act ← attempt (to_name params.action_name) bad_name
    action ← create_action lib get_abi levels code act act_payload
    give (action ∷ [])

  unfoldable pub create_push_action : PushActionParams → Packing (AbiCache lib) (List Action)
  unfolding bytes_eq
  create_push_action params = if is_empty params.action_args then give [] else (do
    levels ← attempt (get_account_permissions lib params.permissions) bad_name
    if bytes_eq (codes "newaccount") params.action_name
        then newaccount_actions levels params
        else plain_action levels params)
