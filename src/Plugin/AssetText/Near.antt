-- ===== src/Plugin/AssetText/Near.antt =====
-- How far the float of a number may be from the number.
use gxmis_plugin.Common.{
  ℕ, zero, suc, ◌+◌, ◌*◌, ◌/◌, ◌^◌, ◌≤◌, ◌<◌, ◌≡◌, ◌⊎◌, inl, inr, refl, arith, ap, ◌∙◌,
}
use native.Mathlib.Nat.{div-add-mod', mod-lt, pow-suc, suc-mul}
use gxmis_plugin.Plugin.AssetText.{exponent, float_of, nearest}

pow_pos : (e : ℕ) → 1 ≤ 2 ^ e
pow_pos zero = ground arith
pow_pos (suc e) = ground (arith, pow-suc 2 e, pow_pos e)

-- Digits are left out only where the number has more than 24.
exponent_low : (fuel n : ℕ) → (exponent fuel n ≡ 0) ⊎ (2 ^ 23 * 2 ^ exponent fuel n ≤ n)
unfolding exponent
exponent_low zero n = inl refl
exponent_low (suc fuel) n =
    ground (arith, exponent_low fuel (n / 2), pow-suc 2 (exponent fuel (n / 2)))

-- With enough fuel, the digits that are kept are at most 24.
exponent_enough : (fuel n : ℕ) → n < 2 ^ 24 * 2 ^ fuel → n < 2 ^ 24 * 2 ^ exponent fuel n
unfolding exponent
exponent_enough zero n h = h
exponent_enough (suc fuel) n h =
    ground (arith, exponent_enough fuel (n / 2), pow-suc 2 fuel, pow-suc 2 (exponent fuel (n / 2)))

-- The distance to the nearest multiple is at most half a unit.
nearest_near :
    (unit n : ℕ)
    → 1 ≤ unit
    → (2 * nearest unit n ≤ 2 * n + unit) × (2 * n ≤ 2 * nearest unit n + unit)
unfolding nearest
nearest_near unit n h =
    let q = n / unit in
    let split = div-add-mod' n unit in
    let small = mod-lt n h in ground (arith, h, split, small, suc-mul q unit)

exponent_small : (fuel n : ℕ) → n < 2 ^ 24 → exponent fuel n ≡ 0
unfolding exponent
exponent_small zero n h = refl
exponent_small (suc fuel) n h = ground (arith, h)

nearest_one : (n : ℕ) → nearest 1 n ≡ n
unfolding nearest
nearest_one n = ground arith

pub float_of_exact : (n : ℕ) → n < 2 ^ 24 → float_of n ≡ n
unfolding float_of
float_of_exact n h = ap (λ e. nearest (2 ^ e) n) (exponent_small 40 n h) ∙ nearest_one n

near_from :
    (n e m : ℕ)
    → (e ≡ 0) ⊎ (2 ^ 23 * 2 ^ e ≤ n)
    → (2 * m ≤ 2 * n + 2 ^ e) × (2 * n ≤ 2 * m + 2 ^ e)
    → (e ≡ 0 → m ≡ n)
    → (2 ^ 24 * m ≤ 2 ^ 24 * n + n) × (2 ^ 24 * n ≤ 2 ^ 24 * m + n)
near_from n e m (inl none_left) (above, below) exact = ground (arith, exact none_left)
near_from n e m (inr left) (above, below) exact = (omega (arith), omega (arith))

float_of_at : (n e : ℕ) → e ≡ 0 → nearest (2 ^ e) n ≡ n
float_of_at n e h = ap (λ k. nearest (2 ^ k) n) h ∙ nearest_one n

-- The float differs from the number by at most the number over 2^24.
pub float_of_near :
    (n : ℕ) → (2 ^ 24 * float_of n ≤ 2 ^ 24 * n + n) × (2 ^ 24 * n ≤ 2 ^ 24 * float_of n + n)
unfolding float_of
float_of_near n =
    let e = exponent 40 n in
    near_from n e (nearest (2 ^ e) n) (exponent_low 40 n) (nearest_near (2 ^ e) n (pow_pos e))
      (float_of_at n e)
