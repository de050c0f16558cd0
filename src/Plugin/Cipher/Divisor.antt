-- ===== src/Plugin/Cipher/Divisor.antt =====
-- `gcd` ends, and computes the greatest common divisor.
use native.Mathlib.Nat.{div-add-mod, mul-add, mul_assoc, mod-lt, mod_def, mul-sub}
use gxmis_plugin.Common.{
  ℕ, zero, suc, ◌+◌, ◌-◌, ◌*◌, ◌/◌, ◌%◌, ◌<◌, ◌≤◌, ◌≡◌, ◌==◌, Bool-cases, inl, inr, ok, arith, sym,
  ap, ap₂, ◌∙◌,
}
use gxmis_plugin.Common.Int.{pos}
use gxmis_plugin.Plugin.Cipher.{gcd_loop, gcd}

abbrev pub Divides : ℕ → ℕ → Type 0
Divides d n = (k : ℕ) × (n ≡ d * k)

-- A divisor of the second number and of the remainder divides the first number, and the other way.
Divides-first : (g x y : ℕ) → Divides g y → Divides g (x % y) → Divides g x
Divides-first g x y (a, ea) (b, eb) = (
  a * (x / y) + b,
  sym (div-add-mod x y)
      ∙ ap₂ ◌+◌ (ap (λ z. z * (x / y)) ea ∙ mul_assoc g a (x / y)) eb
      ∙ sym (mul-add g (a * (x / y)) b),
)

Divides-rest : (d x y : ℕ) → Divides d x → Divides d y → Divides d (x % y)
Divides-rest d x y (a, ea) (b, eb) = (
  a - b * (x / y),
  mod_def x y
      ∙ ap₂ ◌-◌ ea (ap (λ z. z * (x / y)) eb ∙ mul_assoc d b (x / y))
      ∙ sym (mul-sub d a (b * (x / y))),
)

abbrev pub Greatest : ℕ → ℕ → ℕ → Type 0
Greatest g x y = Divides g x × Divides g y × ((d : ℕ) → Divides d x → Divides d y → Divides d g)

gcd_loop-Greatest :
    (fuel x y : ℕ)
    → 0 < y
    → y ≤ fuel
    → (g : ℕ) × (gcd_loop fuel (pos x) (pos y) ≡ ok (pos g)) × Greatest g x y
unfolding gcd_loop
gcd_loop-Greatest zero x y some_y enough = absurd (omega arith)
gcd_loop-Greatest (suc fuel) x y some_y enough = elim (Bool-cases (x % y == 0)) [
  | inl nothing_left ↦
      (y, ground arith, ((x / y, ground (arith, div-add-mod x y)), (1, omega arith), λ d dx dy. dy))
  | inr more ↦
      let smaller : x % y < y = mod-lt x some_y in
      let (g, e, (dy, dr, greatest)) =
        gcd_loop-Greatest fuel y (x % y) (ground arith) (omega arith) in
      (
        g,
        ground (arith, e),
        (Divides-first g x y dy dr, dy, λ d hx hy. greatest d hy (Divides-rest d x y hx hy)),
      )
]

-- For numbers that are not negative and a second one that is not 0, `gcd` ends, and its result is the greatest common divisor.
pub gcd-Greatest : (x y : ℕ) → 0 < y → (g : ℕ) × (gcd (pos x) (pos y) ≡ ok (pos g)) × Greatest g x y
unfolding gcd
gcd-Greatest x y some_y =
    let (g, e, greatest) = gcd_loop-Greatest (suc y) x y some_y (omega arith) in
    (g, ap (λ n. gcd_loop (suc n) (pos x) (pos y)) (omega arith) ∙ e, greatest)
