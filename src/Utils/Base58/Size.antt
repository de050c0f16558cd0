-- ===== src/Utils/Base58/Size.antt =====
-- The buffer of the base58 decoder is large enough.
use native.Mathlib.Nat.{pow-zero, pow-succ', mul-le-mul, mul_assoc, one-mul, zero-add, suc-add}
use gxmis_plugin.Common.{
  ℕ, zero, suc, ◌+◌, ◌*◌, ◌/◌, ◌%◌, ◌^◌, ◌<◌, ◌≤◌, Bool, true, leb, ◌≡◌, refl, arith, subst, subst₂,
  sym, ap, ◌∙◌,
}
use gxmis_plugin.Common.Table.{holds_upto, by_table}
use gxmis_plugin.Utils.Base58.{buffer_size}

-- The size of the buffer where the product does not wrap around.
abbrev whole_size : ℕ → ℕ
whole_size n = n * 733 / 1000 + 1

pow-add : (b m n : ℕ) → b ^ (m + n) ≡ b ^ m * b ^ n
pow-add b zero n =
    ap (λ k. b ^ k) (zero-add n) ∙ sym (one-mul (b ^ n)) ∙ ap (λ k. k * b ^ n) (sym (pow-zero b))
pow-add b (suc m) n =
    ap (λ k. b ^ k) (suc-add m n)
    ∙ pow-succ' b (m + n)
    ∙ ap (λ k. b * k) (pow-add b m n)
    ∙ sym (mul_assoc b (b ^ m) (b ^ n))
    ∙ ap (λ k. k * b ^ n) (sym (pow-succ' b m))

-- For up to 999 digits, and for 1000 digits more.
abbrev fits : ℕ → Bool
fits r = leb (58 ^ r) (256 ^ whole_size r)

small_table : holds_upto fits 1000 ≡ true
unfolding holds_upto
small_table = refl

leb→le : (a b : ℕ) → leb a b ≡ true → a ≤ b
leb→le a b h = ground arith

thousand : leb (58 ^ 1000) (256 ^ 733) ≡ true
thousand = refl

more_digits : (q r : ℕ) → r < 1000 → 58 ^ (1000 * q + r) ≤ 256 ^ (733 * q + whole_size r)
more_digits zero r h =
    let small = leb→le (58 ^ r) (256 ^ whole_size r) (by_table fits 1000 r h small_table) in
    subst₂ (λ m n. 58 ^ m ≤ 256 ^ n) (omega arith) (omega arith) small
more_digits (suc q) r h =
    subst₂ ◌≤◌ (sym (pow-add 58 1000 (1000 * q + r)) ∙ ap (λ k. 58 ^ k) (omega arith))
      (sym (pow-add 256 733 (733 * q + whole_size r)) ∙ ap (λ k. 256 ^ k) (omega arith))
      (mul-le-mul (leb→le (58 ^ 1000) (256 ^ 733) thousand) (more_digits q r h))

pow-le-whole_size : (n : ℕ) → 58 ^ n ≤ 256 ^ whole_size n
pow-le-whole_size n =
    subst₂ (λ a b. 58 ^ a ≤ 256 ^ b) (omega arith) (omega arith)
      (more_digits (n / 1000) (n % 1000) (omega arith))

-- Every text of n base58 digits spells a number that fits the buffer, where its size does not wrap
-- around.
pub pow-le-buffer_size : (n : ℕ) → n * 733 < 2 ^ 32 → 58 ^ n ≤ 256 ^ buffer_size n
pow-le-buffer_size n short =
    subst (λ k. 58 ^ n ≤ 256 ^ k) (omega (arith, short)) (pow-le-whole_size n)
