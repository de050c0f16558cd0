-- ===== src/Plugin/Wallets/Passwords.antt =====
-- The passwords that decrypt_wltpwd collects.
use gxmis_plugin.Common.{
  true, Bytes, List, [], ◌∷◌, ◌++◌, Option, none, some, All, codes, ◌≡◌, arith, append_assoc, sym,
}
use gxmis_plugin.Common.Find.{contains, contains_tail, contains_self, contains-append}
use gxmis_plugin.Plugin.Cipher.{decrypt_text}
use gxmis_plugin.Plugin.Wallets.{add_password, decrypt_wltpwd}

-- The text has the password of the row, where there is one.
abbrev pub HasPassword : Bytes → Option Bytes → Type 0
HasPassword text none = Unit
HasPassword text (some encrypted_str) = contains text (decrypt_text encrypted_str) ≡ true

contains_last : (s sep p : Bytes) → contains (s ++ (sep ++ p)) p ≡ true
contains_last s sep p = rw (sym (append_assoc s sep p)) (contains_tail (s ++ sep) p)

add_password-contains :
    (text p : Bytes) (row : Option Bytes)
    → contains text p ≡ true
    → contains (add_password text row) p ≡ true
unfolding add_password
add_password-contains text p none has = has
add_password-contains [] p (some row) has = contains-append [] p (decrypt_text row) has
add_password-contains (a ∷ s) p (some row) has =
    ground (arith, contains-append (a ∷ s) p (codes "|" ++ decrypt_text row) has)

add_password-HasPassword :
    (text : Bytes) (row : Option Bytes) → HasPassword (add_password text row) row
unfolding add_password
add_password-HasPassword text none = tt
add_password-HasPassword [] (some row) = contains_self (decrypt_text row)
add_password-HasPassword (a ∷ s) (some row) =
    ground (arith, contains_last (a ∷ s) (codes "|") (decrypt_text row))

decrypt_wltpwd-contains :
    (table : Bytes → Option Bytes) (accts : List Bytes) (text p : Bytes)
    → contains text p ≡ true
    → contains (decrypt_wltpwd table text accts) p ≡ true
unfolding decrypt_wltpwd
decrypt_wltpwd-contains table [] text p has = has
decrypt_wltpwd-contains table (acct ∷ accts) text p has =
    decrypt_wltpwd-contains table accts (add_password text (table acct)) p
      (add_password-contains text p (table acct) has)

decrypt_wltpwd-keeps :
    (table : Bytes → Option Bytes) (accts : List Bytes) (text : Bytes) (row : Option Bytes)
    → HasPassword text row
    → HasPassword (decrypt_wltpwd table text accts) row
decrypt_wltpwd-keeps table accts text none has = tt
decrypt_wltpwd-keeps table accts text (some row) has =
    decrypt_wltpwd-contains table accts text (decrypt_text row) has

-- The decrypted text of every account that has a row stands in the text that decrypt_wltpwd builds.
decrypt_wltpwd-HasPassword :
    (table : Bytes → Option Bytes) (accts : List Bytes) (text : Bytes)
    → All (λ acct. HasPassword (decrypt_wltpwd table text accts) (table acct)) accts
unfolding decrypt_wltpwd
decrypt_wltpwd-HasPassword table [] text = tt
decrypt_wltpwd-HasPassword table (acct ∷ accts) text = (
  decrypt_wltpwd-keeps table accts (add_password text (table acct)) (table acct)
      (add_password-HasPassword text (table acct)),
  decrypt_wltpwd-HasPassword table accts (add_password text (table acct)),
)
