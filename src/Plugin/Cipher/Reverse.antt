-- ===== src/Plugin/Cipher/Reverse.antt =====
-- Reversing the slices of a text twice gives the text back.
use native.Mathlib.Nat.{mul-div_cancel_left}
use gxmis_plugin.Common.{
  ℕ, zero, suc, ◌+◌, ◌-◌, ◌*◌, ◌/◌, ◌≤◌, ◌<◌, Bytes, [], ◌∷◌, ◌++◌, length, take, drop, ◌≡◌, refl,
  arith, length-append, take_left, drop_left, append_assoc, append-nil, take-append-drop,
  length-take, length-drop, ap, ap₂, sym, ◌∙◌,
}
use gxmis_plugin.Plugin.Cipher.{substr, reverse_from, reverse_string}

drop_shift : (x y : Bytes) (p q : ℕ) → q ≡ length x + p → drop q (x ++ y) ≡ drop p y
drop_shift [] y p q h = ap (λ n. drop n y) (omega (arith, h))
drop_shift (a ∷ x) y p zero h = absurd (omega arith)
drop_shift (a ∷ x) y p (suc q) h = drop_shift x y p q (omega arith)

take_front : (n : ℕ) (y x : Bytes) → n ≤ length y → take n (y ++ x) ≡ take n y
take_front zero y x h = refl
take_front (suc n) [] x h = absurd (omega arith)
take_front (suc n) (a ∷ y) x h = ap (◌∷◌ a) (take_front n y x (omega arith))

substr_front : (p n : ℕ) (y x : Bytes) → p + n ≤ length y → substr (y ++ x) p n ≡ substr y p n
substr_front zero n y x h = take_front n y x (omega arith)
substr_front (suc p) n [] x h = absurd (omega arith)
substr_front (suc p) n (a ∷ y) x h = substr_front p n y x (omega arith)

take_all : (x : Bytes) → take (length x) x ≡ x
take_all [] = refl
take_all (a ∷ x) = ap (◌∷◌ a) (take_all x)

mul-suc : (n k : ℕ) → n * suc k ≡ n * k + n
mul-suc n k = omega arith

module _ (len : ℕ) where
  -- Text put in front does not change the slices that lie behind it.
  reverse_from_front :
      (x y : Bytes) (i k : ℕ)
      → len * i + len * k ≤ length y + len
      → reverse_from (x ++ y) len i k ≡ reverse_from y len i k
  unfolding reverse_from
  reverse_from_front x y i zero h = refl
  reverse_from_front x y i (suc k) h =
      ap₂ ◌++◌
        (ap (take len) (
          drop_shift x y (length y - len * i) (length (x ++ y) - len * i)
            (omega (arith, length-append x y, mul-suc len k))))
        (reverse_from_front x y (suc i) k (omega (arith, mul-suc len k, mul-suc len i)))

  -- Text put behind moves the slices by one.
  reverse_from_back :
      (y x : Bytes) (i k : ℕ)
      → length x ≡ len
      → len * suc i + len * k ≤ length y + len
      → reverse_from (y ++ x) len (suc (suc i)) k ≡ reverse_from y len (suc i) k
  unfolding reverse_from
  reverse_from_back y x i zero ex h = refl
  reverse_from_back y x i (suc k) ex h =
      ap₂ ◌++◌
        (ap (λ p. substr (y ++ x) p len) (omega (arith, length-append y x, mul-suc len (suc i)))
          ∙ substr_front (length y - len * suc i) len y x
              (omega (arith, mul-suc len i, mul-suc len k)))
        (reverse_from_back y x (suc i) k ex (omega (arith, mul-suc len k, mul-suc len (suc i))))

  reverse_from_last :
      (s : Bytes) (i k : ℕ)
      → reverse_from s len i (suc k)
        ≡ reverse_from s len i k ++ substr s (length s - len * (i + k)) len
  unfolding reverse_from
  reverse_from_last s i zero =
      append-nil _ ∙ ap (λ p. substr s (length s - len * p) len) (omega arith)
  reverse_from_last s i (suc k) =
      ap (λ z. substr s (length s - len * i) len ++ z)
        (reverse_from_last s (suc i) k
          ∙ ap (λ p. reverse_from s len (suc i) k ++ substr s (length s - len * p) len)
              (omega arith))
      ∙ sym (append_assoc (substr s (length s - len * i) len) (reverse_from s len (suc i) k) _)

  -- The first slice becomes the last one, and the last slice the first one.
  first_slice :
      (x y : Bytes) (k : ℕ)
      → length x ≡ len
      → length y ≡ len * k
      → reverse_from (x ++ y) len 1 (suc k) ≡ reverse_from y len 1 k ++ x
  first_slice x y k ex ey =
      let start : length (x ++ y) - len * (1 + k) ≡ 0 =
        omega (arith, length-append x y, mul-suc len k) in
      reverse_from_last (x ++ y) 1 k
      ∙ ap₂ ◌++◌ (reverse_from_front x y 1 k (omega arith)) (
          ap (λ p. substr (x ++ y) p len) start
          ∙ ap (λ n. take n (x ++ y)) (sym ex)
          ∙ take_left x y)

  last_slice :
      (y x : Bytes) (k : ℕ)
      → length x ≡ len
      → length y ≡ len * k
      → reverse_from (y ++ x) len 1 (suc k) ≡ x ++ reverse_from y len 1 k
  unfolding reverse_from
  last_slice y x k ex ey =
      ap₂ ◌++◌
        (ap (take len)
            (ap (λ p. drop p (y ++ x)) (omega (arith, length-append y x)) ∙ drop_left y x)
          ∙ ap (λ n. take n x) (sym ex)
          ∙ take_all x)
        (reverse_from_back y x 0 k ex (omega arith))

  -- Both at once, by induction on the number of slices.
  reverse_from_twice :
      (s : Bytes) (k : ℕ)
      → length s ≡ len * k
      → (length (reverse_from s len 1 k) ≡ len * k)
        × (reverse_from (reverse_from s len 1 k) len 1 k ≡ s)
  unfolding reverse_from
  reverse_from_twice [] zero h = (omega arith, refl)
  reverse_from_twice (a ∷ s) zero h = absurd (omega arith)
  reverse_from_twice s (suc k) h =
      let y = take (len * k) s in
      let x = drop (len * k) s in
      let ey : length y ≡ len * k = omega (arith, length-take (len * k) s, mul-suc len k) in
      let ex : length x ≡ len = omega (arith, length-drop (len * k) s, mul-suc len k) in
      let inner = reverse_from_twice y k ey in
      let outer : reverse_from s len 1 (suc k) ≡ x ++ reverse_from y len 1 k =
        ap (λ z. reverse_from z len 1 (suc k)) (sym (take-append-drop (len * k) s))
        ∙ last_slice y x k ex ey in
      (
        ap length outer
            ∙ omega (arith, length-append x (reverse_from y len 1 k), mul-suc len k, inner.0),
        ap (λ z. reverse_from z len 1 (suc k)) outer
            ∙ first_slice x (reverse_from y len 1 k) k ex (inner.0)
            ∙ ap (λ z. z ++ x) (inner.1)
            ∙ take-append-drop (len * k) s,
      )

  pub reverse_string_twice :
      (s : Bytes) (k : ℕ)
      → 0 < len
      → length s ≡ len * k
      → (length (reverse_string s len) ≡ length s) × (reverse_string (reverse_string s len) len ≡ s)
  unfolding reverse_string
  reverse_string_twice s k pos h =
      let slices : length s / len ≡ k = ap (λ n. n / len) h ∙ mul-div_cancel_left k pos in
      let twice = reverse_from_twice s k h in
      let once : reverse_string s len ≡ reverse_from s len 1 k = ap (reverse_from s len 1) slices in
      let size : length (reverse_from s len 1 k) ≡ length s = omega (arith, twice.0) in
      (
        ap length once ∙ size,
        ap (λ z. reverse_from z len 1 (length z / len)) once
            ∙ ap (λ n. reverse_from (reverse_from s len 1 k) len 1 (n / len)) size
            ∙ ap (reverse_from (reverse_from s len 1 k) len 1) slices
            ∙ twice.1,
      )
