-- ===== src/Plugin/Actions/Permissions.antt =====
-- The permissions that sign an action, which are written `actor@permission`.
use gxmis_plugin.Common.{
  ℕ, suc, Bytes, codes, List, [], ◌∷◌, ◌++◌, length, take_left, map, All, Option, none, some, take,
  drop, Bool, ◌==◌, ◌≡◌, refl, arith, Passes, not,
}
use gxmis_plugin.Common.Find.{find}
use gxmis_plugin.Plugin.Actions.{Library, PermissionLevel}

module _ (lib : Library) where
  open lib use {to_name, split}

  -- The constructor of a permission level from two texts.
  abbrev pub level_of : Bytes → Bytes → Option PermissionLevel
  level_of actor permission = elim (to_name actor) [
    | none ↦ none
    | some a ↦ elim (to_name permission) [
      | none ↦ none
      | some p ↦ some (record { actor = a; permission = p })
    ]
  ]

  unfoldable pub to_permission_level : Bytes → Option PermissionLevel
  to_permission_level s = elim (find b'@' s) [
    | none ↦ level_of s s
    | some at_pos ↦ level_of (take at_pos s) (drop (suc at_pos) s)
  ]

  -- The function that `transformed` applies, on the pieces of one permission.
  unfoldable pub level_of_pieces : List Bytes → Option PermissionLevel
  level_of_pieces [] = none
  level_of_pieces (actor ∷ []) = level_of actor (codes "active")
  level_of_pieces (actor ∷ (permission ∷ more)) = level_of actor permission

  unfoldable pub get_account_permissions : List Bytes → Option (List PermissionLevel)
  get_account_permissions [] = some []
  get_account_permissions (p ∷ permissions) =
      let rest = get_account_permissions permissions in
      elim (level_of_pieces (split b'@' p)) [
        | none ↦ none
        | some level ↦ elim rest [ none ↦ none | some levels ↦ some (level ∷ levels) ]
      ]

  unfoldable pub permissions_or_default :
      List Bytes → PermissionLevel → Option (List PermissionLevel)
  permissions_or_default [] default_permission = some (default_permission ∷ [])
  permissions_or_default (p ∷ permissions) default_permission =
      get_account_permissions (p ∷ permissions)

  -- The text of a permission level.
  unfoldable pub shown : PermissionLevel → Bytes
  shown level = level.actor ++ (b'@' ∷ level.permission)

  abbrev no_at : ℕ → Bool
  no_at a = not (a == b'@')

  -- Both names are names, and have no `@`.
  abbrev pub IsLevel : PermissionLevel → Type 0
  IsLevel level =
      (to_name level.actor ≡ some level.actor)
      × (to_name level.permission ≡ some level.permission)
      × Passes no_at level.actor
      × Passes no_at level.permission

  -- What `boost::split` does at a character that stands once in the text.
  abbrev pub SplitsOnce : Type 0
  SplitsOnce =
      (sep : ℕ) (a b : Bytes)
      → Passes (λ d. not (d == sep)) a
      → Passes (λ d. not (d == sep)) b
      → split sep (a ++ (sep ∷ b)) ≡ a ∷ (b ∷ [])

  find_first : (a b : Bytes) → Passes no_at a → find b'@' (a ++ (b'@' ∷ b)) ≡ some (length a)
  unfolding find
  find_first [] b h = refl
  find_first (d ∷ a) b h = ground (arith, find_first a b (h.1))

  drop_after : (a b : Bytes) (c : ℕ) → drop (suc (length a)) (a ++ (c ∷ b)) ≡ b
  drop_after [] b c = refl
  drop_after (d ∷ a) b c = drop_after a b c

  to_permission_level-shown :
      (level : PermissionLevel) → IsLevel level → to_permission_level (shown level) ≡ some level
  unfolding to_permission_level shown
  to_permission_level-shown level (named, permitted, plain, rest) = ground (
    arith,
    find_first level.actor level.permission plain,
    take_left level.actor (b'@' ∷ level.permission),
    drop_after level.actor level.permission b'@',
  )

  level_of_pieces-shown :
      (level : PermissionLevel)
      → SplitsOnce
      → IsLevel level
      → level_of_pieces (split b'@' (shown level)) ≡ some level
  unfolding level_of_pieces shown
  level_of_pieces-shown level splits (named, permitted, plain, rest) =
      ground (arith, splits b'@' level.actor level.permission plain rest)

  -- Levels of valid names without `@` are read back from their texts, by both functions that read
  -- permissions.
  pub get_account_permissions-shown :
      (levels : List PermissionLevel)
      → SplitsOnce
      → All IsLevel levels
      → (get_account_permissions (map shown levels) ≡ some levels)
        × All (λ level. to_permission_level (shown level) ≡ some level) levels
  unfolding get_account_permissions
  get_account_permissions-shown [] splits fine = (refl, tt)
  get_account_permissions-shown (level ∷ levels) splits (first, fine) =
      let (read, each) = get_account_permissions-shown levels splits fine in
      (
        ground (arith, level_of_pieces-shown level splits first),
        (to_permission_level-shown level first, each),
      )
