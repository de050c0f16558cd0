-- ===== src/Plugin/Cipher/Tests.antt =====
-- Witnesses of the theorems on the cipher of wallet passwords.
use gxmis_plugin.Common.{ℕ, Bytes, codes, ◌≡◌, ok, arith}
use gxmis_plugin.Common.Int.{pos}
use gxmis_plugin.Plugin.Cipher.{gcd, encrypt_password, decrypt_text}
use gxmis_plugin.Plugin.Cipher.Divisor.{Greatest, gcd-Greatest}
use gxmis_plugin.Plugin.Cipher.Password.{decrypt_text-encrypt_password}

abbrev password : Bytes
password = codes "PW5KLS"

decrypt_text-encrypt_password_example :
    (text : Bytes) × (encrypt_password password ≡ ok text) × (decrypt_text text ≡ password)
decrypt_text-encrypt_password_example =
    decrypt_text-encrypt_password password
      (omega arith, (omega arith, (omega arith, (omega arith, (omega arith, (omega arith, tt))))))

gcd-Greatest_example : (g : ℕ) × (gcd (pos 12) (pos 18) ≡ ok (pos g)) × Greatest g 12 18
gcd-Greatest_example = gcd-Greatest 12 18 (omega arith)
