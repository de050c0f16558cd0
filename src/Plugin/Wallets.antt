-- ===== src/Plugin/Wallets.antt =====
-- Wallet access in plugins/data_exchange_plugin/data_exchange_plugin.cpp: `wallet_guard`, which opens
-- wallets for as long as it lives, and the collection of their passwords by `decrypt_wltpwd`.
pub mod Guard
pub mod Passwords
pub mod Tests
use gxmis_plugin.Common.{
  Bool, true, false, Bytes, codes, List, [], ◌∷◌, ◌++◌, Option, none, some, if◌then◌else◌, is_empty,
  Result, ok, err, ◌>>=◌,
}
use gxmis_plugin.Common.Find.{contains}
use gxmis_plugin.Plugin.Cipher.{decrypt_text}

-- `wallet_params`
pub record WalletParams : Type 0 where
  pub name : Bytes
  pub pwd : Bytes

-- The calls of the wallet that the guard makes, on the state of the world. A call returns the new
-- state and whether it succeeded; a call that fails raises an exception.
pub record WalletApi (World : Type 0) : Type 0 where
  pub wallet_open : World → Bytes → World × Bool
  pub wallet_unlock : World → Bytes → Bytes → World × Bool
  pub wallet_lock : World → Bytes → World × Bool

-- What leaves a block of code: its value, an exception, or the end of the process.
pub data Exit (A : Type 0) : Type 0 where
  done : A → Exit A
  raised : Exit A
  terminated : Exit A

-- Two entries at a time make a wallet's name and password; an odd entry at the end is left out.
unfoldable pub wallet_pairs : (Bytes → Bytes) → List Bytes → List WalletParams
wallet_pairs trim [] = []
wallet_pairs trim (n ∷ []) = []
wallet_pairs trim (n ∷ (p ∷ rest)) = record { name = trim n; pwd = trim p } ∷ wallet_pairs trim rest

-- `boost::split` at `#` and `|`, and `fc::trim`, are parameters.
unfoldable pub parse_wltpwd : (Bytes → List Bytes) → (Bytes → Bytes) → Bytes → List WalletParams
parse_wltpwd split trim wltpwd = wallet_pairs trim (split wltpwd)

module _ {World : Type 0} (api : WalletApi World) where
  open api use {wallet_open, wallet_unlock, wallet_lock}

  -- The loop of the constructor; true when every call succeeded.
  unfoldable pub unlock_all : World → List WalletParams → World × Bool
  unlock_all w [] = (w, true)
  unlock_all w (wp ∷ wps) =
      let (w1, opened) = wallet_open w wp.name in
      let (w2, unlocked) = wallet_unlock w1 wp.name wp.pwd in
      let rest = unlock_all w2 wps in
      if opened then (if unlocked then rest else (w2, false)) else (w1, false)

  -- The loop of the destructor.
  unfoldable pub lock_all : World → List WalletParams → World × Bool
  lock_all w [] = (w, true)
  lock_all w (wp ∷ wps) =
      let (w1, locked) = wallet_lock w wp.name in
      let rest = lock_all w1 wps in if locked then rest else (w1, false)

  -- The end of a block that a guard protects: the result of the block, and what the destructor
  -- would do.
  unfoldable pub destroyed : {A : Type 0} → World → Exit A → World × Bool → World × Exit A
  destroyed w terminated closing = (w, terminated)
  destroyed w (done a) closing = if closing.1 then (closing.0, done a) else (closing.0, terminated)
  destroyed w raised closing = if closing.1 then (closing.0, raised) else (closing.0, terminated)

  -- A block that a guard protects. The destructor runs only when the constructor has ended; an
  -- exception that leaves the destructor ends the process.
  unfoldable pub with_wallets :
      {A : Type 0} → List WalletParams → (World → World × Exit A) → World → World × Exit A
  with_wallets wps body w =
      let (w1, ready) = unlock_all w wps in
      let (w2, result) = body w1 in
      if ready then destroyed w2 result (lock_all w2 wps) else (w1, raised)

-- What `decrypt_wltpwd` adds to the text for one account; none where the account has no row.
unfoldable pub add_password : Bytes → Option Bytes → Bytes
add_password de_wltpwd none = de_wltpwd
add_password de_wltpwd (some encrypted_str) =
    let decrypted_str = decrypt_text encrypted_str in
    if is_empty de_wltpwd
    then decrypted_str
    else if contains de_wltpwd decrypted_str
    then de_wltpwd
    else de_wltpwd ++ (codes "|" ++ decrypted_str)

-- `decrypt_wltpwd` for one account after the other; the table is a parameter.
unfoldable pub decrypt_wltpwd : (Bytes → Option Bytes) → Bytes → List Bytes → Bytes
decrypt_wltpwd table de_wltpwd [] = de_wltpwd
decrypt_wltpwd table de_wltpwd (acct ∷ accts) =
    decrypt_wltpwd table (add_password de_wltpwd (table acct)) accts
