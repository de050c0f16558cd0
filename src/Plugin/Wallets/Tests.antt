-- ===== src/Plugin/Wallets/Tests.antt =====
-- Witnesses of the theorems on the access to wallets.
use gxmis_plugin.Common.{
  Bool, true, false, Bytes, codes, bytes_eq, [], ◌∷◌, ◌++◌, All, Option, none, some, if◌then◌else◌,
  is_empty, ◌≡◌, refl, arith, ◌&&◌,
}
use gxmis_plugin.Plugin.Wallets.{
  WalletParams, WalletApi, Exit, wallet_pairs, done, raised, unlock_all, with_wallets, parse_wltpwd,
}
use gxmis_plugin.Plugin.Wallets.Guard.{WalletLaws, with_wallets-Left}

-- The wallets that are unlocked, by name. To open one locks it; every password but the empty one is right.
abbrev pub Wallets : Type 0
Wallets = Bytes → Bool

abbrev set_open : Wallets → Bytes → Bool → Wallets
set_open w n b j = if bytes_eq n j then b else w j

abbrev pub wallets : WalletApi Wallets
wallets = record {
  wallet_open = λ w n. (set_open w n false, true);
  wallet_unlock = λ w n p. if is_empty p then (w, false) else (set_open w n true, true);
  wallet_lock = λ w n. (set_open w n false, true);
}

pub unlock_law :
    (w : Wallets) (n p j : Bytes)
    → ((wallets.wallet_unlock w n p).0) j
      ≡ (if (wallets.wallet_unlock w n p).1 && bytes_eq n j then true else w j)
unlock_law w n [] j = refl
unlock_law w n (c ∷ p) j = refl

abbrev pub wallets-laws : WalletLaws wallets
wallets-laws = record {
  is_open = λ w n. w n;
  after_open = λ w n j other. ground (arith, other);
  after_unlock = unlock_law;
  after_lock = λ w n j. refl;
}

abbrev alice : WalletParams
alice = record { name = codes "alice"; pwd = codes "PW1" }

abbrev bob : WalletParams
bob = record { name = codes "bob"; pwd = [] }

abbrev pub all_locked : Wallets
all_locked n = false

abbrev sign_block : Wallets → Wallets × Exit Bool
sign_block w = (w, done (w (codes "alice")))

alice_ready : (unlock_all wallets all_locked (alice ∷ [])).1 ≡ true
unfolding unlock_all
alice_ready = refl

bob_fails :
    (unlock_all wallets ((unlock_all wallets all_locked (alice ∷ [])).0) (bob ∷ [])).1 ≡ false
unfolding unlock_all
bob_fails = refl

with_wallets-Left_example :
    ((with_wallets wallets ((alice ∷ []) ++ (bob ∷ [])) sign_block all_locked).1 ≡ raised)
    × All
        (λ wp.
          (with_wallets wallets ((alice ∷ []) ++ (bob ∷ [])) sign_block all_locked).0 wp.name
          ≡ true)
        (alice ∷ [])
unfolding bytes_eq
with_wallets-Left_example =
    with_wallets-Left wallets wallets-laws (alice ∷ []) (bob ∷ []) sign_block all_locked
      ((refl, tt), (tt, tt)) alice_ready bob_fails

abbrev table : Bytes → Option Bytes
table acct = if is_empty acct then none else some (codes "LEFyVt")

-- Two wallets, and an entry without a password at the end.
parse_wltpwd_three :
    parse_wltpwd (λ s. codes "w" ∷ (codes "p" ∷ (codes "x" ∷ []))) (λ s. s) (codes "w#p|x")
    ≡ record { name = codes "w"; pwd = codes "p" } ∷ []
unfolding parse_wltpwd wallet_pairs
parse_wltpwd_three = refl
