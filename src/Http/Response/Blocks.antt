-- ===== src/Http/Response/Blocks.antt =====
-- What `read_until` leaves, however the bytes arrive.
use gxmis_plugin.Common.{
  ℕ, zero, suc, ◌+◌, ◌-◌, ◌≤◌, Bool, false, not, Bytes, List, [], ◌∷◌, ◌++◌, length, take, drop,
  Passes, Option, none, some, ok, ◌==◌, leb, ◌≡◌, refl, sym, ap, ◌∙◌, arith, append_assoc,
  length-append, take-append-drop, if◌then◌else◌, All, is_empty,
}
use gxmis_plugin.Common.Find.{starts_with}
use gxmis_plugin.Http.Call.{crlf, header_lines}
use gxmis_plugin.Http.Response.{Stream, end_of, read_until}

abbrev pub no_cr : ℕ → Bool
no_cr a = not (a == 13)

take_beyond :
    (n : ℕ) (block rest : Bytes)
    → length block ≤ n
    → take n (block ++ rest) ≡ block ++ take (n - length block) rest
take_beyond n [] rest h = ap (λ k. take k rest) (omega arith)
take_beyond zero (a ∷ block) rest h = absurd (omega arith)
take_beyond (suc n) (a ∷ block) rest h = ground (arith, take_beyond n block rest (omega arith))

drop_beyond :
    (n : ℕ) (block rest : Bytes)
    → length block ≤ n
    → drop n (block ++ rest) ≡ drop (n - length block) rest
drop_beyond n [] rest h = ap (λ k. drop k rest) (omega arith)
drop_beyond zero (a ∷ block) rest h = absurd (omega arith)
drop_beyond (suc n) (a ∷ block) rest h = ground (arith, drop_beyond n block rest (omega arith))

-- A block that ends with the first delimiter is in the buffer afterwards, and the rest is split in
-- some way.
pub read_until_lem :
    (extra : ℕ) (delimiter block rest : Bytes) (s : Stream)
    → s.buffered ++ s.coming ≡ block ++ rest
    → end_of delimiter (block ++ rest) ≡ some (length block)
    → (x : Bytes) × (y : Bytes) × (read_until extra delimiter s
        ≡ ok (record { buffered = block ++ x; coming = y }))
      × (x ++ y ≡ rest)
unfolding read_until
read_until_lem extra delimiter block rest s text found =
    let here = length s.buffered in
    let n : ℕ = if leb (length block) here then here else length block + extra in
    let far : length block ≤ n = ground arith in
    (
      take (n - length block) rest,
      drop (n - length block) rest,
      ground (arith, text, found, take_beyond n block rest far, drop_beyond n block rest far),
      take-append-drop (n - length block) rest,
    )

skip_by : ℕ → Option ℕ → Option ℕ
skip_by n none = none
skip_by n (some p) = some (n + p)

skip_none : (p : Option ℕ) → skip_by 0 p ≡ p
unfolding skip_by
skip_none none = refl
skip_none (some p) = ground arith

end_of-skip :
    (d l s : Bytes)
    → Passes no_cr l
    → end_of (13 ∷ d) (l ++ s) ≡ skip_by (length l) (end_of (13 ∷ d) s)
unfolding end_of starts_with skip_by
end_of-skip d [] s h = sym (skip_none (end_of (13 ∷ d) s))
end_of-skip d (a ∷ l) s h = ground (arith, h.0, end_of-skip d l s (h.1))

pub end_of-line :
    (l t : Bytes) → Passes no_cr l → end_of crlf ((l ++ crlf) ++ t) ≡ some (length (l ++ crlf))
unfolding end_of starts_with skip_by
end_of-line l t h =
    ground
      (arith, append_assoc l crlf t, end_of-skip (10 ∷ []) l (crlf ++ t) h, length-append l crlf)

abbrev pub no_lf : ℕ → Bool
no_lf a = not (a == 10)

-- A header is not empty and on one line.
abbrev pub IsHeader : Bytes → Type 0
IsHeader h = (is_empty h ≡ false) × Passes no_cr h × Passes no_lf h

pub header_lines-append :
    (h : Bytes) (hs : List Bytes) (s : Bytes)
    → header_lines (h ∷ hs) ++ s ≡ h ++ (crlf ++ (header_lines hs ++ s))
unfolding header_lines
header_lines-append h hs s =
    append_assoc (h ++ crlf) (header_lines hs) s ∙ append_assoc h crlf (header_lines hs ++ s)

length-header_lines :
    (h : Bytes) (hs : List Bytes)
    → length (header_lines (h ∷ hs)) ≡ length h + 2 + length (header_lines hs)
unfolding header_lines
length-header_lines h hs =
    ground (arith, length-append (h ++ crlf) (header_lines hs), length-append h crlf)

end_of-headers_at :
    (h : Bytes) (hs : List Bytes) (t : Bytes)
    → IsHeader h
    → All IsHeader hs
    → end_of (crlf ++ crlf) (header_lines (h ∷ hs) ++ (crlf ++ t))
      ≡ some (length (header_lines (h ∷ hs)) + 2)
unfolding end_of starts_with skip_by header_lines
end_of-headers_at h [] t (some_text, one, line) m = ground (
  arith,
  header_lines-append h [] (crlf ++ t),
  end_of-skip (10 ∷ crlf) h (crlf ++ (crlf ++ t)) one,
  length-header_lines h [],
)
end_of-headers_at h ([] ∷ hs) t p (m, ms) = absurd (ground (arith, m.0))
end_of-headers_at h ((a ∷ h') ∷ hs) t (some_text, one, line) (m, ms) =
    let rest = header_lines ((a ∷ h') ∷ hs) in
    ground (
      arith,
      header_lines-append h ((a ∷ h') ∷ hs) (crlf ++ t),
      end_of-skip (10 ∷ crlf) h (crlf ++ (rest ++ (crlf ++ t))) one,
      length-header_lines h ((a ∷ h') ∷ hs),
      (m.1).0,
      end_of-headers_at (a ∷ h') hs t m ms,
    )

-- The first empty line is the one behind the last header.
pub end_of-headers :
    (h : Bytes) (hs : List Bytes) (t : Bytes)
    → IsHeader h
    → All IsHeader hs
    → end_of (crlf ++ crlf) ((header_lines (h ∷ hs) ++ crlf) ++ t)
      ≡ some (length (header_lines (h ∷ hs) ++ crlf))
end_of-headers h hs t p m = ground (
  arith,
  end_of-headers_at h hs t p m,
  append_assoc (header_lines (h ∷ hs)) crlf t,
  length-append (header_lines (h ∷ hs)) crlf,
)
