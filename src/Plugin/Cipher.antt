-- ===== src/Plugin/Cipher.antt =====
-- The cipher of wallet passwords in plugins/data_exchange_plugin/data_exchange_plugin.cpp:
-- `reverse_string`, `reverse_string_by_sequence_step` and the numbers that they depend on.
pub mod Reverse
pub mod Divisor
pub mod Password
pub mod Tests
use gxmis_plugin.Common.{
  ℕ, zero, suc, ◌+◌, ◌-◌, ◌*◌, ◌/◌, ◌%◌, Bytes, List, [], ◌∷◌, ◌++◌, length, take, drop, replicate,
  Bool, false, true, not, if◌then◌else◌, ◌==◌, Result, ok, err, ◌>>=◌, ◌>>◌, guard, or_fail,
  get_elem?, codes, ltb, leb, Option, none, some, ◌&&◌, is_empty,
}
use gxmis_plugin.Common.Int.{ℤ, pos, negsuc, pos_part, neg_part, sub_ℕ, eqb_ℤ, ◌*ℤ◌}

-- The undefined behaviour that the code can run into, and the fuel of the model.
pub data CipherError : Type 0 where
  out_of_fuel division_by_zero out_of_range : CipherError

-- `s.substr(pos, len)` with `pos` in range.
abbrev pub substr : Bytes → ℕ → ℕ → Bytes
substr s position len = take len (drop position s)

-- The loop of `reverse_string` from `i`, with `slices` rounds left.
unfoldable pub reverse_from : Bytes → ℕ → ℕ → ℕ → Bytes
reverse_from s len i zero = []
reverse_from s len i (suc slices) =
    substr s (length s - len * i) len ++ reverse_from s len (suc i) slices

unfoldable pub reverse_string : Bytes → ℕ → Bytes
reverse_string s len = reverse_from s len 1 (length s / len)

-- The loop of `reverse_string_by_sequence_step`.
unfoldable pub reverse_by_steps : Bytes → List ℕ → Bytes
reverse_by_steps s [] = s
reverse_by_steps s (step ∷ steps) = reverse_by_steps (reverse_string s step) steps

-- `std::reverse`
unfoldable pub reverse {ℓ} : {A : Type ℓ} → List A → List A
reverse [] = []
reverse (x ∷ xs) = reverse xs ++ (x ∷ [])

unfoldable pub reverse_string_by_sequence_step : Bytes → List ℕ → Bool → Bytes
reverse_string_by_sequence_step s steps reversed_steps =
    reverse_by_steps s (if reversed_steps then reverse steps else steps)

abbrev pub pwd_seq_nums : List ℕ
pwd_seq_nums = 1 ∷ 2 ∷ 3 ∷ 5 ∷ 6 ∷ []

-- The character `!`.
abbrev pub pwd_padding : ℕ
pwd_padding = 33

-- `std::regex_replace` of the padding by nothing.
unfoldable pub remove_padding : Bytes → Bytes
remove_padding [] = []
remove_padding (b ∷ s) = let rest = remove_padding s in if b == pwd_padding then rest else b ∷ rest

-- The size of a number, and its negation.
abbrev pub magnitude : ℤ → ℕ
magnitude x = pos_part x + neg_part x

abbrev pub negated : ℕ → ℤ
negated n = sub_ℕ 0 n

-- `x % y` and `x / y` on int: the quotient is cut towards zero, and the rest has the sign of `x`.
abbrev pub rest_of : ℤ → ℤ → ℤ
rest_of (pos x) y = pos (x % magnitude y)
rest_of (negsuc x) y = negated (suc x % magnitude y)

abbrev pub quotient_of : ℤ → ℤ → ℤ
quotient_of (pos x) (pos y) = pos (x / y)
quotient_of (pos x) (negsuc y) = negated (x / suc y)
quotient_of (negsuc x) (pos y) = negated (suc x / y)
quotient_of (negsuc x) (negsuc y) = pos (suc x / suc y)

-- The loop of `gcd`, which divides before it tests.
unfoldable pub gcd_loop : ℕ → ℤ → ℤ → Result CipherError ℤ
gcd_loop zero x y = err out_of_fuel
gcd_loop (suc fuel) x y =
    let r = rest_of x y in
    let rest = gcd_loop fuel y r in
    if eqb_ℤ y (pos 0) then err division_by_zero else (if eqb_ℤ r (pos 0) then ok y else rest)

-- The rest gets smaller in every round, so the size of `y` is enough rounds.
unfoldable pub gcd : ℤ → ℤ → Result CipherError ℤ
gcd x y = gcd_loop (suc (magnitude y)) x y

unfoldable pub hcd : ℤ → ℤ → Result CipherError ℤ
hcd x y = do g ← gcd x y; ok (quotient_of (x *ℤ y) g)

-- The loop of `n_hcd`, from the value `h`.
unfoldable pub n_hcd_from : ℤ → List ℕ → Result CipherError ℤ
n_hcd_from h [] = ok h
n_hcd_from h (o ∷ nums) = do h' ← hcd (pos o) h; n_hcd_from h' nums

unfoldable pub n_hcd : List ℕ → Result CipherError ℤ
n_hcd nums = n_hcd_from (pos 1) nums

-- Part of `encrypt_wltpwd`: the password with its padding, in the order of the steps.
unfoldable pub encrypt_password : Bytes → Result CipherError Bytes
encrypt_password password = do
  h ← n_hcd pwd_seq_nums
  ok (
      reverse_string_by_sequence_step
        (password ++ replicate (pos_part h - length password % pos_part h) pwd_padding) pwd_seq_nums
        false)

-- Part of `decrypt_wltpwd`: the steps in the opposite order, without the padding.
unfoldable pub decrypt_text : Bytes → Bytes
decrypt_text encrypted_str =
    remove_padding (reverse_string_by_sequence_step encrypted_str pwd_seq_nums true)

-- `boost::split` is a parameter.
module _ (split : ℕ → Bytes → List Bytes) where
  -- The wallet's name and its password, when the second field has both.
  unfoldable pub wallet_and_password : List Bytes → List Bytes
  wallet_and_password vec_acct_wp = elim (get_elem? vec_acct_wp 1) [
    | none ↦ []
    | some s ↦ split b':' s
  ]

  unfoldable pub encrypt_wltpwd : Bytes → Result CipherError Bytes
  encrypt_wltpwd src =
      let vec_acct_wp = split b',' src in
      let vec_wp = wallet_and_password vec_acct_wp in
      let two = length vec_wp == 2 in
      do
        padding ← or_fail (if two then get_elem? vec_wp 1 else get_elem? vec_acct_wp 1) out_of_range
        crypto_pwd_str ← encrypt_password padding
        acct ← or_fail (get_elem? vec_acct_wp 0) out_of_range
        wallet ← (if two then or_fail (get_elem? vec_wp 0) out_of_range else ok [])
        ok (
            acct
            ++ codes ","
            ++ (if two then wallet ++ codes ":" ++ crypto_pwd_str else crypto_pwd_str))
