-- ===== src/Plugin/AssetText.antt =====
-- `combine_asset` of plugins/data_exchange_plugin/data_exchange_plugin.cpp: the text of an asset. The
-- amount goes through a `float`, which has 24 bits for the digits.
pub mod Near
pub mod Text
pub mod Tests
use gxmis_plugin.Common.{
  ℕ, zero, suc, ◌+◌, ◌*◌, ◌/◌, ◌%◌, ◌^◌, Bool, ◌&&◌, ◌||◌, not, Bytes, codes, [], ◌∷◌, ◌++◌, take,
  replicate, ltb, ◌==◌, if◌then◌else◌,
}
use gxmis_plugin.Common.Int.{ℤ, pos, negsuc}
use gxmis_plugin.Common.Decimal.{decimal}
use gxmis_plugin.Common.Find.{span}

-- How many binary digits of a number the 24 digits of a float leave out; at most the first argument.
unfoldable pub exponent : ℕ → ℕ → ℕ
exponent zero n = 0
exponent (suc fuel) n = let e = exponent fuel (n / 2) in if ltb n (2 ^ 24) then 0 else suc e

-- The multiple of `unit` that is nearest; of two, the even one.
unfoldable pub nearest : ℕ → ℕ → ℕ
nearest unit n =
    let q = n / unit in
    let r = n % unit in
    if ltb unit (2 * r) || (2 * r == unit && q % 2 == 1) then suc q * unit else q * unit

-- The float for a whole number below 2^64, which is again a whole number.
unfoldable pub float_of : ℕ → ℕ
float_of n = nearest (2 ^ exponent 40 n) n

abbrev pub float_of_int64 : ℤ → ℤ
float_of_int64 (pos n) = pos (float_of n)
float_of_int64 (negsuc n) = elim (float_of (suc n)) [ zero ↦ pos 0 | suc m ↦ negsuc m ]

-- The point and the zeros that `%.<decimals>f` prints behind a whole number.
abbrev pub fraction : ℕ → Bytes
fraction zero = []
fraction (suc d) = b'.' ∷ replicate (suc d) b'0'

-- `c_str()` as `%s` prints it: up to the first zero.
abbrev pub c_str : Bytes → Bytes
c_str s = (span (λ a. not (a == 0)) s).0

-- `token_asset_str` has room for 69 characters and the zero.
unfoldable pub combine_asset : Bytes → ℕ → ℤ → Bytes
combine_asset symbol_name decimals amount =
    take 69 (decimal (float_of_int64 amount) ++ fraction decimals ++ codes " " ++ c_str symbol_name)
