-- ===== src/Common/Find.antt =====
-- Searching a text for a character or another text, as `std::string::find` does, and the longest run of
-- characters that pass a test.
use gxmis_plugin.Common.{
  Passes, Stops, ℕ, zero, suc, if◌then◌else◌, Option, none, some, Bool, true, false, ◌&&◌, ◌||◌, [],
  ◌∷◌, ◌++◌, Bytes, ◌==◌, leb, ◌≡◌, refl, arith, append-nil,
}

unfoldable pub starts_with : Bytes → Bytes → Bool
starts_with [] s = true
starts_with (p ∷ ps) [] = false
starts_with (p ∷ ps) (a ∷ s) = (p == a) && starts_with ps s

-- `s.find(p) != npos`
unfoldable pub contains : Bytes → Bytes → Bool
unfolding starts_with
contains [] p = starts_with p []
contains (a ∷ s) p = starts_with p (a ∷ s) || contains s p

-- `s.find(c)`; none is npos.
unfoldable pub find : ℕ → Bytes → Option ℕ
find c [] = none
find c (a ∷ s) =
    let rest = find c s in
    if a == c then some 0 else elim rest [ none ↦ none | some i ↦ some (suc i) ]

-- `s.find(c, first)`
unfoldable pub find_from : ℕ → Bytes → ℕ → Option ℕ
find_from c s zero = find c s
find_from c [] (suc first) = none
find_from c (a ∷ s) (suc first) = elim (find_from c s first) [ none ↦ none | some i ↦ some (suc i) ]

-- The longest start of a text whose characters pass the test, and the rest.
unfoldable pub span : (ℕ → Bool) → Bytes → Bytes × Bytes
span test [] = ([], [])
span test (a ∷ s) =
    let (front, back) = span test s in if test a then (a ∷ front, back) else ([], a ∷ s)

pub span-append :
    (test : ℕ → Bool) (front back : Bytes)
    → Passes test front
    → Stops test back
    → span test (front ++ back) ≡ (front, back)
unfolding span
span-append test [] [] h stop = refl
span-append test [] (a ∷ back) h stop = ground (arith, stop)
span-append test (a ∷ front) back h stop =
    ground (arith, h.0, span-append test front back (h.1) stop)

-- `\d`
abbrev pub is_digit : ℕ → Bool
is_digit a = leb b'0' a && leb a b'9'

starts_with_self : (p s : Bytes) → starts_with p (p ++ s) ≡ true
unfolding starts_with
starts_with_self [] s = refl
starts_with_self (a ∷ p) s = ground (arith, starts_with_self p s)

pub contains_tail : (s p : Bytes) → contains (s ++ p) p ≡ true
unfolding contains starts_with
contains_tail [] [] = refl
contains_tail [] (a ∷ p) = ground (arith, starts_with_self (a ∷ p) [], append-nil p)
contains_tail (a ∷ s) p = ground (arith, contains_tail s p)

pub contains_self : (p : Bytes) → contains p p ≡ true
contains_self p = contains_tail [] p

starts_with-append : (p s q : Bytes) → starts_with p s ≡ true → starts_with p (s ++ q) ≡ true
unfolding starts_with
starts_with-append [] s q h = refl
starts_with-append (a ∷ p) [] q h = cc
starts_with-append (a ∷ p) (b ∷ s) q h = ground (arith, starts_with-append p s q)

contains_nil : (q : Bytes) → contains q [] ≡ true
unfolding contains starts_with
contains_nil [] = refl
contains_nil (a ∷ q) = refl

pub contains-append : (s p q : Bytes) → contains s p ≡ true → contains (s ++ q) p ≡ true
unfolding contains starts_with
contains-append [] [] q h = contains_nil q
contains-append [] (a ∷ p) q h = absurd (ground arith)
contains-append (a ∷ s) p q h =
    ground (arith, contains-append s p q, starts_with-append p (a ∷ s) q)
