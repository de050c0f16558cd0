-- ===== src/Common/Decimal.antt =====
-- `%lld` of the C library: a 64-bit number in decimal, which has at most 20 digits.
use gxmis_plugin.Common.{
  ℕ, zero, suc, ◌+◌, ◌/◌, ◌%◌, ◌≡◌, refl, [], ◌∷◌, Bytes, codes, ltb, if◌then◌else◌,
}
use gxmis_plugin.Common.Int.{ℤ, pos, negsuc}

-- The digits of a number, in front of the text that follows.
unfoldable pub digits_before : ℕ → Bytes → ℕ → Bytes
digits_before zero text n = text
digits_before (suc places) text n =
    let text' = (n % 10 + b'0') ∷ text in
    let more = digits_before places text' (n / 10) in if ltb n 10 then text' else more

unfoldable pub decimal : ℤ → Bytes
unfolding digits_before
decimal (pos n) = digits_before 20 [] n
decimal (negsuc n) = b'-' ∷ digits_before 20 [] (suc n)

decimal-samples : decimal (negsuc 1204) ≡ codes "-1205"
unfolding decimal
decimal-samples = refl
