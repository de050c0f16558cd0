-- ===== src/Plugin/Wallets/Guard.antt =====
-- What a guard leaves open.
use gxmis_plugin.Common.{
  Bool, true, false, ◌&&◌, Bytes, bytes_eq, bytes_eq_refl, List, [], ◌∷◌, ◌++◌, All, ◌≡◌, ◌≢◌, refl,
  sym, ap, ◌∙◌, arith, if◌then◌else◌, subst,
}
use gxmis_plugin.Plugin.Wallets.{
  WalletParams, WalletApi, Exit, done, raised, terminated, unlock_all, lock_all, destroyed,
  with_wallets,
}

-- What the wallet's documentation says of the calls: which wallets are unlocked after each. To open a
-- wallet changes no other one; it may lock the wallet itself.
pub record WalletLaws {World : Type 0} (api : WalletApi World) : Type 0 where
  pub is_open : World → Bytes → Bool
  pub after_open :
      (w : World) (n j : Bytes)
      → bytes_eq n j ≡ false
      → is_open ((api.wallet_open w n).0) j ≡ is_open w j
  pub after_unlock :
      (w : World) (n p j : Bytes)
      → is_open ((api.wallet_unlock w n p).0) j
        ≡ (if (api.wallet_unlock w n p).1 && bytes_eq n j then true else is_open w j)
  pub after_lock :
      (w : World) (n j : Bytes)
      → is_open ((api.wallet_lock w n).0) j
        ≡ (if (api.wallet_lock w n).1 && bytes_eq n j then false else is_open w j)

-- No entry has the name `j`.
abbrev pub NoName : Bytes → List WalletParams → Type 0
NoName j wps = All (λ q. bytes_eq q.name j ≡ false) wps

-- The names of the entries differ.
abbrev pub Distinct : List WalletParams → Type 0
Distinct [] = Unit
Distinct (wp ∷ wps) = NoName wp.name wps × Distinct wps

module _ {World : Type 0} (api : WalletApi World) (laws : WalletLaws api) where
  open laws use {is_open, after_open, after_unlock, after_lock}

  -- A wallet of the list, or one that was closed before, is closed once all are locked.
  closed_stays :
      (wps : List WalletParams) (w : World) (j : Bytes)
      → (lock_all api w wps).1 ≡ true
      → is_open w j ≡ false
      → is_open ((lock_all api w wps).0) j ≡ false
  unfolding lock_all
  closed_stays [] w j ready closed = closed
  closed_stays (wp ∷ wps) w j ready closed =
      ground (arith, closed_stays wps ((api.wallet_lock w wp.name).0) j, after_lock w wp.name j)

  lock_all-step :
      (wp : WalletParams) (wps : List WalletParams) (w : World)
      → (lock_all api w (wp ∷ wps)).1 ≡ true
      → ((api.wallet_lock w wp.name).1 ≡ true)
        × (lock_all api ((api.wallet_lock w wp.name).0) wps ≡ lock_all api w (wp ∷ wps))
  unfolding lock_all
  lock_all-step wp wps w ready = ground arith

  lock_all_closes :
      (wps : List WalletParams) (w : World)
      → (lock_all api w wps).1 ≡ true
      → All (λ wp. is_open ((lock_all api w wps).0) wp.name ≡ false) wps
  lock_all_closes [] w ready = tt
  lock_all_closes (wp ∷ wps) w ready =
      let (locked, same) = lock_all-step wp wps w ready in
      let w1 = (api.wallet_lock w wp.name).0 in
      let rest : (lock_all api w1 wps).1 ≡ true = rw (same) ready in
      subst (λ result. All (λ q. is_open (result.0) q.name ≡ false) (wp ∷ wps)) same
        (
          closed_stays wps w1 wp.name rest
              (ground (arith, after_lock w wp.name wp.name, bytes_eq_refl wp.name)),
          lock_all_closes wps w1 rest,
        )

  destroyed-locked :
      {A : Type 0} (w : World) (result : Exit A) (closing : World × Bool)
      → (destroyed api w result closing).1 ≢ terminated
      → (closing.1 ≡ true) × ((destroyed api w result closing).0 ≡ closing.0)
  unfolding destroyed
  destroyed-locked w terminated closing alive = absurd (alive refl)
  destroyed-locked w (done a) closing alive = ground arith
  destroyed-locked w raised closing alive = ground arith

  with_wallets-ready :
      {A : Type 0} (wps : List WalletParams) (body : World → World × Exit A) (w : World)
      → (unlock_all api w wps).1 ≡ true
      → let (w2, result) = body ((unlock_all api w wps).0) in
        with_wallets api wps body w ≡ destroyed api w2 result (lock_all api w2 wps)
  unfolding with_wallets
  with_wallets-ready wps body w ready = rw (ready)

  with_wallets-raised :
      {A : Type 0} (wps : List WalletParams) (body : World → World × Exit A) (w : World)
      → (unlock_all api w wps).1 ≡ false
      → with_wallets api wps body w ≡ ((unlock_all api w wps).0, raised)
  unfolding with_wallets
  with_wallets-raised wps body w failed = rw (failed)

  left_by_lock :
      {A : Type 0} (wps : List WalletParams) (body : World → World × Exit A) (w : World)
      → (unlock_all api w wps).1 ≡ true
      → (with_wallets api wps body w).1 ≢ terminated
      → let closing = lock_all api ((body ((unlock_all api w wps).0)).0) wps in
        (closing.1 ≡ true) × ((with_wallets api wps body w).0 ≡ closing.0)
  left_by_lock wps body w ready alive =
      let same = with_wallets-ready wps body w ready in
      let (w2, result) = body ((unlock_all api w wps).0) in
      let (locked, left) =
        destroyed-locked w2 result (lock_all api w2 wps) (λ h. alive (ap (λ r. r.1) same ∙ h)) in
      (locked, ap (λ r. r.0) same ∙ left)

  -- Where the wallets of a guard could all be unlocked, they are all closed when the protected block
  -- has been left by its end or by an exception, unless the process ended.
  pub with_wallets-Closed :
      {A : Type 0} (wps : List WalletParams) (body : World → World × Exit A) (w : World)
      → (unlock_all api w wps).1 ≡ true
      → (with_wallets api wps body w).1 ≢ terminated
      → All (λ wp. is_open ((with_wallets api wps body w).0) wp.name ≡ false) wps
  with_wallets-Closed {A} wps body w ready alive =
      let w2 = (body ((unlock_all api w wps).0)).0 in
      let (locked, left) = left_by_lock wps body w ready alive in
      subst (λ after. All (λ wp. is_open after wp.name ≡ false) wps) (sym left)
        (lock_all_closes wps w2 locked)

  open_stays :
      (wps : List WalletParams) (w : World) (j : Bytes)
      → NoName j wps
      → is_open w j ≡ true
      → is_open ((unlock_all api w wps).0) j ≡ true
  unfolding unlock_all
  open_stays [] w j others opened = opened
  open_stays (wp ∷ wps) w j (other, others) opened =
      let w1 = (api.wallet_open w wp.name).0 in
      let w2 = (api.wallet_unlock w1 wp.name wp.pwd).0 in
      ground (
        arith,
        open_stays wps w2 j others,
        after_open w wp.name j other,
        after_unlock w1 wp.name wp.pwd j,
      )

  unlock_all-step :
      (wp : WalletParams) (wps more : List WalletParams) (w : World)
      → (unlock_all api w (wp ∷ wps)).1 ≡ true
      → let w1 = (api.wallet_open w wp.name).0 in
        let w2 = (api.wallet_unlock w1 wp.name wp.pwd).0 in
        ((api.wallet_unlock w1 wp.name wp.pwd).1 ≡ true)
        × ((unlock_all api w2 wps).1 ≡ true)
        × (unlock_all api w2 (wps ++ more) ≡ unlock_all api w ((wp ∷ wps) ++ more))
  unfolding unlock_all
  unlock_all-step wp wps more w ready = ground arith

  unlock_all_opens :
      (wps more : List WalletParams) (w : World)
      → Distinct (wps ++ more)
      → (unlock_all api w wps).1 ≡ true
      → All (λ wp. is_open ((unlock_all api w (wps ++ more)).0) wp.name ≡ true) wps
  unlock_all_opens [] more w apart ready = tt
  unlock_all_opens (wp ∷ wps) more w (others, apart) ready =
      let (unlocked, rest, same) = unlock_all-step wp wps more w ready in
      let w1 = (api.wallet_open w wp.name).0 in
      let w2 = (api.wallet_unlock w1 wp.name wp.pwd).0 in
      subst (λ result. All (λ q. is_open (result.0) q.name ≡ true) (wp ∷ wps)) same
        (
          open_stays (wps ++ more) w2 wp.name others
              (ground (arith, after_unlock w1 wp.name wp.pwd wp.name, bytes_eq_refl wp.name)),
          unlock_all_opens wps more w2 apart rest,
        )

  unlock_all-append :
      (wps more : List WalletParams) (w : World)
      → (unlock_all api w wps).1 ≡ true
      → unlock_all api w (wps ++ more) ≡ unlock_all api ((unlock_all api w wps).0) more
  unfolding unlock_all
  unlock_all-append [] more w ready = refl
  unlock_all-append (wp ∷ wps) more w ready =
      let w1 = (api.wallet_open w wp.name).0 in
      let w2 = (api.wallet_unlock w1 wp.name wp.pwd).0 in
      ground (arith, unlock_all-append wps more w2)

  -- Where the wallets have different names, some of them could be unlocked and a call for one after
  -- them fails, the guard raises an exception, the block is not run, and the wallets before the
  -- failure stay open.
  pub with_wallets-Left :
      {A : Type 0} (wps more : List WalletParams) (body : World → World × Exit A) (w : World)
      → Distinct (wps ++ more)
      → (unlock_all api w wps).1 ≡ true
      → (unlock_all api ((unlock_all api w wps).0) more).1 ≡ false
      → let after = with_wallets api (wps ++ more) body w in
        (after.1 ≡ raised) × All (λ wp. is_open (after.0) wp.name ≡ true) wps
  with_wallets-Left wps more body w apart ready failed =
      let whole = unlock_all-append wps more w ready in
      let same = with_wallets-raised (wps ++ more) body w (ap (λ r. r.1) whole ∙ failed) in
      (
        ap (λ r. r.1) same,
        subst (λ after. All (λ wp. is_open after wp.name ≡ true) wps) (sym (ap (λ r. r.0) same))
            (unlock_all_opens wps more w apart ready),
      )
