-- ===== src/Exchange/Wallet/Laws.antt =====
-- What `surprise_wlt` leaves in the table of wallets.
use gxmis_plugin.Common.{
  ℕ, ◌≡◌, Option, none, some, Bytes, ◌∷◌, [], ◌++◌, ok, arith, inl, inr, is_empty, Option-cases,
  ◌==◌, if◌then◌else◌, append_assoc,
}
use gxmis_plugin.Common.Find.{contains, contains_tail, contains_self}
use gxmis_plugin.Eosio.{Chain, Context}
use gxmis_plugin.Eosio.Rows.{WalletPassword}
use gxmis_plugin.Exchange.{State}
use gxmis_plugin.Exchange.Wallet.{add_wallet, surprise_wlt}

-- A wallet that has been added is found, so adding it again changes nothing.
add_wallet_idem : (p : Bytes) (w : WalletPassword) → add_wallet p (add_wallet p w) ≡ add_wallet p w
unfolding add_wallet
add_wallet_idem p w =
    ground (arith, contains_tail (w.wltpwd ++ b',' ∷ []) p, append_assoc w.wltpwd (b',' ∷ []) p)

add_wallet_key : (p : Bytes) (w : WalletPassword) → (add_wallet p w).account ≡ w.account
unfolding add_wallet
add_wallet_key p w = ground arith

fresh_wallet :
    (account : ℕ) (p : Bytes)
    → add_wallet p (record { account = account; wltpwd = p })
      ≡ record { account = account; wltpwd = p }
unfolding add_wallet
fresh_wallet account p = ground (arith, contains_self p)

-- The row of an account after the action.
abbrev pub after_swlt : ℕ → Bytes → Option WalletPassword → Option WalletPassword
after_swlt account wltpwd o =
    if is_empty wltpwd
    then none
    else some (elim o [
      | none ↦ record { account = account; wltpwd = wltpwd }
      | some w ↦
          if contains w.wltpwd wltpwd then w else record w { wltpwd = w.wltpwd ++ (b',' ∷ wltpwd) }
    ])

module _ (c : Chain) (ctx : Context) (account : ℕ) (wltpwd : Bytes) where
  -- The empty text removes the account's row; another text becomes the row, or is added to it
  -- behind a comma unless it is there; no other account's row changes.
  pub get-surprise_wlt :
      (s s' : State c) (j : ℕ)
      → surprise_wlt c ctx s account wltpwd ≡ ok s'
      → c.wallets.get s'.wltpwd j ≡ (
          if account == j
          then after_swlt account wltpwd (c.wallets.get s.wltpwd account)
          else c.wallets.get s.wltpwd j)
  unfolding surprise_wlt add_wallet
  get-surprise_wlt s s' j h = elim (Option-cases (c.wallets.get s.wltpwd account)) [
    | inl e ↦
        ground
          (arith, c.wallets.get-emplace s.wltpwd (record { account = account; wltpwd = wltpwd }) j)
    | inr (w, e) ↦ ground (
      arith,
      c.wallets.get_key s.wltpwd account w e,
      c.wallets.get-erase s.wltpwd account w j,
      c.wallets.get-modify s.wltpwd account (add_wallet wltpwd) w j,
      add_wallet_key wltpwd w,
    )
  ]

  after_swlt_idem :
      (o : Option WalletPassword)
      → after_swlt account wltpwd (after_swlt account wltpwd o) ≡ after_swlt account wltpwd o
  unfolding add_wallet
  after_swlt_idem none = ground (arith, fresh_wallet account wltpwd)
  after_swlt_idem (some w) = ground (arith, add_wallet_idem wltpwd w)

  -- Giving the same text twice leaves every row as giving it once does.
  surprise_wlt_twice :
      (s t u : State c) (j : ℕ)
      → surprise_wlt c ctx s account wltpwd ≡ ok t
      → surprise_wlt c ctx t account wltpwd ≡ ok u
      → c.wallets.get u.wltpwd j ≡ c.wallets.get t.wltpwd j
  surprise_wlt_twice s t u j h k = ground (
    arith,
    get-surprise_wlt s t j h,
    get-surprise_wlt s t account h,
    get-surprise_wlt t u j k,
    after_swlt_idem (c.wallets.get s.wltpwd account),
  )
