-- ===== src/Http/Response/Headers.antt =====
-- The loop over the headers of a reply.
use gxmis_plugin.Common.{
  ℕ, ◌<◌, ◌^◌, Bool, true, false, Bytes, bytes_eq, codes, List, [], ◌∷◌, ◌++◌, Passes, Option, none,
  some, ok, ◌>>=◌, ◌≡◌, refl, ◌∙◌, All-mono, All-append, arith, append_assoc, append-nil, All,
  is_empty,
}
use gxmis_plugin.Common.Find.{starts_with, span-append, is_digit}
use gxmis_plugin.Http.Call.{crlf, header_lines}
use gxmis_plugin.Http.Response.{is_space, content_length, header_loop, use_header, value_from}
use gxmis_plugin.Http.Response.Blocks.{IsHeader, header_lines-append, no_lf}

not_only_cr :
    (line : Bytes) → is_empty line ≡ false → bytes_eq (line ++ (13 ∷ [])) (13 ∷ []) ≡ false
unfolding bytes_eq
not_only_cr [] h = absurd (ground (arith, h))
not_only_cr (a ∷ []) h = ground arith
not_only_cr (a ∷ b ∷ line) h = ground arith

header_loop-line :
    (line : Bytes) (n : Option ℕ) (h s : Bytes)
    → Passes no_lf h
    → is_empty (line ++ h) ≡ false
    → header_loop line n (h ++ (crlf ++ s))
      ≡ (use_header n ((line ++ h) ++ (13 ∷ [])) >>= λ n'. header_loop [] n' s)
unfolding header_loop
header_loop-line line n [] s m some_text = ground (arith, append-nil line, not_only_cr line)
header_loop-line line n (a ∷ h) s (m, ms) some_text =
    ground (arith, m, append_assoc line (a ∷ []) h, header_loop-line (line ++ (a ∷ [])) n h s ms)

-- A header that says nothing of the length.
abbrev pub IsOther : Bytes → Type 0
IsOther h = IsHeader h × (content_length (h ++ (13 ∷ [])) ≡ none)

header_loop-others :
    (n : Option ℕ) (hs : List Bytes) (s : Bytes)
    → All IsOther hs
    → header_loop [] n (header_lines hs ++ s) ≡ header_loop [] n s
unfolding header_lines use_header
header_loop-others n [] s ms = refl
header_loop-others n (h ∷ hs) s (((some_text, one, line), other), ms) = ground (
  arith,
  header_lines-append h hs s,
  header_loop-line [] n h (header_lines hs ++ s) line some_text,
  other,
  header_loop-others n hs s ms,
)

abbrev pub length_header : Bytes → Bytes
length_header digits = codes "Content-Length: " ++ digits

content_length-header :
    (a : ℕ) (digits : Bytes)
    → Passes is_digit (a ∷ digits)
    → content_length (length_header (a ∷ digits) ++ (13 ∷ [])) ≡ some (a ∷ digits)
unfolding content_length starts_with
content_length-header a digits h = ground (
  arith,
  h.0,
  span-append is_space (32 ∷ []) (a ∷ digits ++ (13 ∷ [])) (refl, tt) (ground (arith, h.0)),
  span-append is_digit (a ∷ digits) (13 ∷ []) h refl,
)

header_lines-both :
    (xs ys : List Bytes) → header_lines (xs ++ ys) ≡ header_lines xs ++ header_lines ys
unfolding header_lines
header_lines-both [] ys = refl
header_lines-both (x ∷ xs) ys =
    ground
      (arith, header_lines-both xs ys, append_assoc (x ++ crlf) (header_lines xs) (header_lines ys))

-- The headers of a reply of `n` bytes, in any order.
abbrev pub headers_of : List Bytes → Bytes → List Bytes → List Bytes
headers_of before digits after = before ++ (length_header digits ∷ after)

Passes-length_header :
    {test : ℕ → Bool}
    → ((a : ℕ) → is_digit a ≡ true → test a ≡ true)
    → Passes test (codes "Content-Length: ")
    → (digits : Bytes) → Passes is_digit digits
    → Passes test (length_header digits)
Passes-length_header {test} one name digits h =
    All-append (λ a. test a ≡ true) (codes "Content-Length: ") digits name (All-mono digits one h)

pub length_header-IsHeader :
    (digits : Bytes) → Passes is_digit digits → IsHeader (length_header digits)
length_header-IsHeader digits h = (
  refl,
  Passes-length_header (λ a p. ground (arith, p))
      (
        refl,
        (
          refl,
          (
            refl,
            (
              refl,
              (
                refl,
                (
                  refl,
                  (
                    refl,
                    (refl, (refl, (refl, (refl, (refl, (refl, (refl, (refl, (refl, tt))))))))),
                  ),
                ),
              ),
            ),
          ),
        ),
      )
      digits h,
  Passes-length_header (λ a p. ground (arith, p))
      (
        refl,
        (
          refl,
          (
            refl,
            (
              refl,
              (
                refl,
                (
                  refl,
                  (
                    refl,
                    (refl, (refl, (refl, (refl, (refl, (refl, (refl, (refl, (refl, tt))))))))),
                  ),
                ),
              ),
            ),
          ),
        ),
      )
      digits h,
)

header_loop-length_header :
    (n : Option ℕ) (a : ℕ) (digits s : Bytes)
    → Passes is_digit (a ∷ digits)
    → value_from 0 (a ∷ digits) < 2 ^ 31
    → header_loop [] n (length_header (a ∷ digits) ++ (crlf ++ s))
      ≡ header_loop [] (some (value_from 0 (a ∷ digits))) s
unfolding use_header
header_loop-length_header n a digits s h small =
    header_loop-line [] n (length_header (a ∷ digits)) s ((length_header-IsHeader (a ∷ digits) h).2)
      refl
    ∙ ground (arith, small, content_length-header a digits h)

header_loop-end : (n : Option ℕ) (s : Bytes) → header_loop [] n (crlf ++ s) ≡ ok (n, s)
unfolding header_loop bytes_eq
header_loop-end n s = refl

-- The loop finds the length, and stops at the empty line.
pub header_loop-headers_of :
    (before : List Bytes) (a : ℕ) (digits : Bytes) (after : List Bytes) (x : Bytes)
    → All IsOther before
    → All IsOther after
    → Passes is_digit (a ∷ digits)
    → value_from 0 (a ∷ digits) < 2 ^ 31
    → header_loop [] none (header_lines (headers_of before (a ∷ digits) after) ++ (crlf ++ x))
      ≡ ok (some (value_from 0 (a ∷ digits)), x)
header_loop-headers_of before a digits after x hb ha hd small =
    let own = length_header (a ∷ digits) in
    let value = value_from 0 (a ∷ digits) in
    ground (
      arith,
      small,
      header_lines-both before (own ∷ after),
      append_assoc (header_lines before) (header_lines (own ∷ after)) (crlf ++ x),
      header_loop-others none before (header_lines (own ∷ after) ++ (crlf ++ x)) hb,
      header_lines-append own after (crlf ++ x),
      header_loop-length_header none a digits (header_lines after ++ (crlf ++ x)) hd small,
      header_loop-others (some value) after (crlf ++ x) ha,
      header_loop-end (some value) x,
    )
