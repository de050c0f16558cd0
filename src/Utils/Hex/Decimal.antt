-- ===== src/Utils/Hex/Decimal.antt =====
-- `uint64_string` prints a number in decimal.
use native.Mathlib.Nat.{pow-suc}
use mathlib.Core.List.{foldl}
use gxmis_plugin.Common.{
  ℕ, zero, suc, ◌+◌, ◌-◌, ◌*◌, ◌/◌, ◌%◌, ◌<◌, ◌≤◌, ◌^◌, ◌≡◌, Bytes, [], ◌∷◌, arith, All,
}
use gxmis_plugin.Utils.Hex.{uint64_string, uint64_string_loop}

-- The number that digits spell behind `n`.
abbrev pub value : ℕ → Bytes → ℕ
value = foldl (λ n c. n * 10 + (c - b'0'))

abbrev pub IsDigit : ℕ → Type 0
IsDigit c = (b'0' ≤ c) × (c ≤ b'9')

value-loop :
    (fuel n : ℕ) (out : Bytes)
    → n < 10 ^ fuel
    → value 0 (uint64_string_loop fuel n out) ≡ value n out
unfolding uint64_string_loop
value-loop zero n out h = ground arith
value-loop (suc fuel) n out h =
    let small : n / 10 < 10 ^ fuel = omega (arith, pow-suc 10 fuel) in
    ground (arith, value-loop fuel (n / 10) ((n % 10 + b'0') ∷ out) small)

loop-IsDigit :
    (fuel n : ℕ) (out : Bytes) → All IsDigit out → All IsDigit (uint64_string_loop fuel n out)
unfolding uint64_string_loop
loop-IsDigit zero n out h = h
loop-IsDigit (suc fuel) n out h = ground (arith, loop-IsDigit fuel (n / 10) ((n % 10 + b'0') ∷ out))

-- The text of a 64-bit number is made of digits, and they spell the number.
pub value-uint64_string :
    (n : ℕ) → n < 2 ^ 64 → (value 0 (uint64_string n) ≡ n) × All IsDigit (uint64_string n)
unfolding uint64_string
value-uint64_string n h = (value-loop 20 n [] (omega arith), loop-IsDigit 20 n [] tt)
