-- ===== src/Utils/Base58/Digits.antt =====
-- One character of the base58 decoder: the buffer is multiplied by 58, and the digit is added.
use native.Mathlib.Nat.{mul_assoc}
use gxmis_plugin.Common.{
  IsByte, ℕ, zero, suc, ◌+◌, ◌-◌, ◌*◌, ◌/◌, ◌%◌, ◌≤◌, ◌≡◌, refl, Bytes, [], ◌∷◌, length, drop, All,
  Bool-cases, inl, inr, not, ◌&&◌, ltb, ◌==◌, arith, ap, sym, ◌∙◌, subst, subst₂,
}
use gxmis_plugin.Utils.Base58.{add_digit}

-- The number in a buffer whose least byte stands first, and the bound of what it can hold.
unfoldable pub little : Bytes → ℕ
little [] = 0
little (d ∷ ds) = d + 256 * little ds

unfoldable pub capacity : Bytes → ℕ
capacity [] = 1
capacity (d ∷ ds) = 256 * capacity ds

-- What one run of the loop over the buffer does: the carry, the index reached, and the new buffer.
pub record Multiplied (carry i : ℕ) (ds : Bytes) (r : ℕ × ℕ × Bytes) : Type 0 where
  pub sum : little (r.2) + capacity ds * r.0 ≡ 58 * little ds + carry
  pub same_length : length (r.2) ≡ length ds
  pub same_capacity : capacity (r.2) ≡ capacity ds
  pub bytes : All IsByte (r.2)
  pub index : (i ≤ r.1) × (r.1 ≤ i + length ds)
  pub unused : little (drop (r.1 - i) (r.2)) ≡ 0

little-drop-nil : (n : ℕ) → little (drop n []) ≡ 0
unfolding little
little-drop-nil zero = refl
little-drop-nil (suc n) = refl

little-drop-tail :
    (n d : ℕ) (ds : Bytes) → little (drop n (d ∷ ds)) ≡ 0 → little (drop (n - 1) ds) ≡ 0
unfolding little
little-drop-tail zero d ds h =
    let at : zero - 1 ≡ zero = omega arith in
    let empty : little ds ≡ 0 = omega (arith, h) in ap (λ k. little (drop k ds)) at ∙ empty
little-drop-tail (suc n) d ds h =
    let at : suc n - 1 ≡ n = omega arith in ap (λ k. little (drop k ds)) at ∙ h

module _ (len : ℕ) where
  stopped :
      (i d : ℕ) (ds : Bytes)
      → All IsByte (d ∷ ds)
      → little (drop (len - i) (d ∷ ds)) ≡ 0
      → len ≤ i
      → Multiplied 0 i (d ∷ ds) (0, i, d ∷ ds)
  stopped i d ds bytes unused over =
      let at : len - i ≡ 0 = omega arith in
      let same : i - i ≡ len - i = omega arith in
      let empty : little (d ∷ ds) ≡ 0 = ap (λ n. little (drop n (d ∷ ds))) (sym at) ∙ unused in
      record {
        sum = omega (arith, empty);
        same_length = refl;
        same_capacity = refl;
        bytes = bytes;
        index = omega arith;
        unused = ap (λ n. little (drop n (d ∷ ds))) same ∙ unused;
      }

  continued :
      (carry i d : ℕ) (ds : Bytes) (r : ℕ × ℕ × Bytes)
      → Multiplied ((carry + 58 * d) / 256) (suc i) ds r
      → Multiplied carry i (d ∷ ds) (r.0, r.1, ((carry + 58 * d) % 256) ∷ r.2)
  unfolding little capacity
  continued carry i d ds r m =
      let next : r.1 - i ≡ suc (r.1 - suc i) = omega (arith, m.index) in
      record {
        sum = omega (arith, m.sum, mul_assoc 256 (capacity ds) (r.0));
        same_length = ap suc m.same_length;
        same_capacity = ap (λ c. 256 * c) m.same_capacity;
        bytes = (omega arith, m.bytes);
        index = omega (arith, m.index);
        unused = ap (λ n. little (drop n (((carry + 58 * d) % 256) ∷ r.2))) next ∙ m.unused;
      }

  pub add_digit-Multiplied :
      (carry i : ℕ) (ds : Bytes)
      → All IsByte ds
      → little (drop (len - i) ds) ≡ 0
      → Multiplied carry i ds (add_digit carry i len ds)
  unfolding add_digit
  add_digit-Multiplied carry i [] bytes unused = record {
    sum = unfold little capacity in omega arith;
    same_length = refl;
    same_capacity = refl;
    bytes = tt;
    index = omega arith;
    unused = little-drop-nil (i - i);
  }
  add_digit-Multiplied carry i (d ∷ ds) bytes unused =
      let total = carry + 58 * d in
      let r = add_digit (total / 256) (suc i) len ds in
      let rest : Multiplied (total / 256) (suc i) ds r =
        add_digit-Multiplied (total / 256) (suc i) ds (bytes.1)
          (ap (λ n. little (drop n ds)) (omega arith) ∙ little-drop-tail (len - i) d ds unused) in
      elim (Bool-cases (carry == 0 && not (ltb i len))) [
        | inl stop ↦
            let none_left : carry ≡ 0 = ground arith in
            let over : len ≤ i = ground arith in
            let e : add_digit carry i len (d ∷ ds) ≡ (0, i, d ∷ ds) = ground arith in
            subst₂ (λ c r. Multiplied c i (d ∷ ds) r) (sym none_left) (sym e)
              (stopped i d ds bytes unused over)
        | inr go ↦
            let e : add_digit carry i len (d ∷ ds) ≡ (r.0, r.1, (total % 256) ∷ r.2) =
              ground arith in
            subst (Multiplied carry i (d ∷ ds)) (sym e) (continued carry i d ds r rest)
      ]
