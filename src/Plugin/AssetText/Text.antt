-- ===== src/Plugin/AssetText/Text.antt =====
-- The text of an asset, read again.
use native.Mathlib.Nat.{pow-suc}
use gxmis_plugin.Common.{
  ℕ, zero, suc, ◌+◌, ◌*◌, ◌/◌, ◌%◌, ◌^◌, ◌≤◌, ◌<◌, ◌≡◌, refl, arith, ap, sym, ◌∙◌, Bytes, codes, [],
  ◌∷◌, ◌++◌, length, take, Passes, not, ◌==◌, append-nil, length-append, length-replicate,
}
use gxmis_plugin.Common.Int.{pos}
use gxmis_plugin.Common.Decimal.{decimal, digits_before}
use gxmis_plugin.Common.Find.{span, span-append}
use gxmis_plugin.Utils.Hex.Decimal.{value}
use gxmis_plugin.Plugin.AssetText.{c_str, combine_asset, float_of, fraction}
use gxmis_plugin.Plugin.AssetText.Near.{float_of_exact, float_of_near}

value-digits_before :
    (places : ℕ) (text : Bytes) (n : ℕ)
    → n < 10 ^ places
    → value 0 (digits_before places text n) ≡ value n text
unfolding digits_before
value-digits_before zero text n h = ground arith
value-digits_before (suc places) text n h =
    let small : n / 10 < 10 ^ places = omega (arith, pow-suc 10 places) in
    ground (arith, value-digits_before places ((n % 10 + b'0') ∷ text) (n / 10) small)

length-digits_before :
    (places : ℕ) (text : Bytes) (n : ℕ)
    → length (digits_before places text n) ≤ places + length text
unfolding digits_before
length-digits_before zero text n = ground arith
length-digits_before (suc places) text n =
    ground (arith, length-digits_before places ((n % 10 + b'0') ∷ text) (n / 10))

take_all : (n : ℕ) (s : Bytes) → length s ≤ n → take n s ≡ s
take_all zero [] h = refl
take_all (suc n) [] h = refl
take_all zero (a ∷ s) h = absurd (omega arith)
take_all (suc n) (a ∷ s) h = ap (◌∷◌ a) (take_all n s (omega arith))

length-fraction : (d : ℕ) → length (fraction d) ≤ suc d
length-fraction zero = ground arith
length-fraction (suc d) = ground (arith, length-replicate {A = ℕ} (suc d) b'0')

length-decimal : (n : ℕ) → length (decimal (pos n)) ≤ 20
unfolding decimal
length-decimal n = length-digits_before 20 [] n

value-decimal : (n : ℕ) → n < 10 ^ 20 → value 0 (decimal (pos n)) ≡ n
unfolding decimal
value-decimal n h = value-digits_before 20 [] n h

c_str_all : (s : Bytes) → Passes (λ a. not (a == 0)) s → c_str s ≡ s
c_str_all s h =
    ap (λ (front, back). front)
      (ap (span (λ a. not (a == 0))) (sym (append-nil s))
        ∙ span-append (λ a. not (a == 0)) s [] h tt)

room :
    (digits : Bytes) (decimals : ℕ) (symbol_name : Bytes)
    → length digits ≤ 20
    → decimals ≤ 18
    → length symbol_name ≤ 7
    → length (digits ++ fraction decimals ++ codes " " ++ symbol_name) ≤ 69
room digits decimals symbol_name h few short = omega (
  arith,
  length-append (digits ++ fraction decimals ++ codes " ") symbol_name,
  length-append (digits ++ fraction decimals) (codes " "),
  length-append digits (fraction decimals),
  length-fraction decimals,
)

-- `combine_asset` of an amount that is not negative, for a symbol of at most 7 characters with at
-- most 18 decimals, has room for the whole text: digits, the point with zeros, a space and the
-- symbol. What the digits spell differs from the amount by at most the amount over 2^24, and is the
-- amount where that is below 2^24.
pub combine_asset-near :
    (symbol_name : Bytes) (decimals n : ℕ)
    → n < 2 ^ 63
    → decimals ≤ 18
    → length symbol_name ≤ 7
    → Passes (λ a. not (a == 0)) symbol_name
    → (digits : Bytes) × (combine_asset symbol_name decimals (pos n)
        ≡ digits ++ fraction decimals ++ codes " " ++ symbol_name)
      × (2 ^ 24 * value 0 digits ≤ 2 ^ 24 * n + n)
      × (2 ^ 24 * n ≤ 2 ^ 24 * value 0 digits + n)
      × (n < 2 ^ 24 → value 0 digits ≡ n)
unfolding combine_asset
combine_asset-near symbol_name decimals n whole few short printed =
    let m = float_of n in
    let digits = decimal (pos m) in
    let (above, below) = float_of_near n in
    let spelt = value-decimal m (omega arith) in
    let text = λ (s : Bytes). digits ++ fraction decimals ++ codes " " ++ s in
    (
      digits,
      ap (λ s. take 69 (text s)) (c_str_all symbol_name printed)
          ∙ take_all 69 (text symbol_name)
              (room digits decimals symbol_name (length-decimal m) few short),
      ground (arith, spelt, above),
      ground (arith, spelt, below),
      λ small. spelt ∙ float_of_exact n small,
    )
