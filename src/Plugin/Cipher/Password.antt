-- ===== src/Plugin/Cipher/Password.antt =====
-- The round trip of a password through the cipher of the wallets.
use gxmis_plugin.Common.{
  ℕ, zero, suc, ◌+◌, ◌-◌, ◌*◌, ◌/◌, ◌%◌, ◌<◌, Bytes, List, [], ◌∷◌, ◌++◌, length, replicate, ◌≡◌,
  ◌≢◌, refl, arith, length-append, length-replicate, ap, sym, ◌∙◌, All, ok, ◌>>=◌, subst, true,
  false,
}
use gxmis_plugin.Common.Int.{pos, pos_part, ◌*ℤ◌}
use gxmis_plugin.Plugin.Cipher.{
  reverse_string, reverse_by_steps, reverse, reverse_string_by_sequence_step, pwd_seq_nums,
  pwd_padding, remove_padding, gcd_loop, gcd, hcd, n_hcd_from, n_hcd, encrypt_password,
  decrypt_text,
}
use gxmis_plugin.Plugin.Cipher.Reverse.{reverse_string_twice}

-- The step cuts a text of this length into whole slices.
abbrev pub Cuts : ℕ → ℕ → Type 0
Cuts n step = (0 < step) × ((k : ℕ) × (n ≡ step * k))

reverse_by_steps_append :
    (s : Bytes) (xs ys : List ℕ)
    → reverse_by_steps s (xs ++ ys) ≡ reverse_by_steps (reverse_by_steps s xs) ys
unfolding reverse_by_steps
reverse_by_steps_append s [] ys = refl
reverse_by_steps_append s (x ∷ xs) ys = reverse_by_steps_append (reverse_string s x) xs ys

reverse_steps_back :
    (s : Bytes) (steps : List ℕ)
    → All (Cuts (length s)) steps
    → reverse_by_steps (reverse_by_steps s steps) (reverse steps) ≡ s
unfolding reverse_by_steps reverse
reverse_steps_back s [] h = refl
reverse_steps_back s (x ∷ xs) h =
    let t = reverse_string s x in
    let twice = reverse_string_twice x s (h.0.1.0) (h.0.0) (h.0.1.1) in
    reverse_by_steps_append (reverse_by_steps t xs) (reverse xs) (x ∷ [])
    ∙ ap (λ z. reverse_string z x)
        (reverse_steps_back t xs (subst (λ n. All (Cuts n) xs) (sym (twice.0)) (h.1)))
    ∙ twice.1

-- Reversing in the opposite order of the steps gives a text back, when its length is a multiple of
-- every step.
reverse_string_by_sequence_step_twice :
    (s : Bytes) (steps : List ℕ)
    → All (Cuts (length s)) steps
    → reverse_string_by_sequence_step (reverse_string_by_sequence_step s steps false) steps true ≡ s
unfolding reverse_string_by_sequence_step
reverse_string_by_sequence_step_twice s steps h = reverse_steps_back s steps h

n_hcd_seq_nums : n_hcd pwd_seq_nums ≡ ok (pos 30)
unfolding n_hcd n_hcd_from hcd gcd gcd_loop ◌*ℤ◌
n_hcd_seq_nums = refl

padding_removed :
    (s : Bytes) (n : ℕ)
    → All (λ b. b ≢ pwd_padding) s
    → remove_padding (s ++ replicate n pwd_padding) ≡ s
unfolding remove_padding
padding_removed [] zero h = refl
padding_removed [] (suc n) h = padding_removed [] n h
padding_removed (b ∷ s) n h = ground (arith, padding_removed s n (h.1), h.0)

-- Padding fills a text up to a multiple of 30, which every step cuts into whole slices.
padded-Cuts :
    (s : Bytes) → All (Cuts (length (s ++ replicate (30 - length s % 30) pwd_padding))) pwd_seq_nums
padded-Cuts s =
    let n = length s % 30 in
    let q = length s / 30 + 1 in
    let size : length (s ++ replicate (30 - length s % 30) pwd_padding) ≡ 30 * q = omega (
      arith,
      length-append s (replicate (30 - length s % 30) pwd_padding),
      length-replicate (30 - length s % 30) pwd_padding,
    ) in
    (
      (omega arith, (30 * q, omega (arith, size))),
      (
        (omega arith, (15 * q, omega (arith, size))),
        (
          (omega arith, (10 * q, omega (arith, size))),
          (
            (omega arith, (6 * q, omega (arith, size))),
            ((omega arith, (5 * q, omega (arith, size))), tt),
          ),
        ),
      ),
    )

-- A password without the padding character is decrypted from its encryption.
pub decrypt_text-encrypt_password :
    (password : Bytes)
    → All (λ b. b ≢ pwd_padding) password
    → (text : Bytes) × (encrypt_password password ≡ ok text) × (decrypt_text text ≡ password)
unfolding encrypt_password decrypt_text
decrypt_text-encrypt_password password h =
    let padded = password ++ replicate (30 - length password % 30) pwd_padding in
    (
      reverse_string_by_sequence_step padded pwd_seq_nums false,
      ap
          (λ r. r >>= λ h'. ok (
            reverse_string_by_sequence_step
              (password ++ replicate (pos_part h' - length password % pos_part h') pwd_padding)
              pwd_seq_nums false))
          n_hcd_seq_nums,
      ap remove_padding
            (reverse_string_by_sequence_step_twice padded pwd_seq_nums (padded-Cuts password))
          ∙ padding_removed password (30 - length password % 30) h,
    )
