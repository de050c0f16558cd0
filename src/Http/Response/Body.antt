-- ===== src/Http/Response/Body.antt =====
-- What `do_txrx` returns for a well-formed reply.
use gxmis_plugin.Common.{
  ℕ, ◌-◌, ◌<◌, ◌^◌, Bool, true, false, not, Bytes, codes, List, [], ◌∷◌, ◌++◌, length, take, Passes,
  Option, none, some, ok, ◌≡◌, refl, sym, ap, ◌∙◌, ◌≢◌, arith, append-nil, append_assoc,
  length-append, All, All-mono, All-append, take_left, is_empty,
}
use gxmis_plugin.Common.Find.{starts_with, span-append, is_digit}
use gxmis_plugin.Http.Call.{crlf, header_lines}
use gxmis_plugin.Http.Response.{
  Stream, do_txrx, end_of, get_line, header_loop, read_exactly, read_until, is_space, token,
  value_from,
}
use gxmis_plugin.Http.Response.Blocks.{
  IsHeader, end_of-headers, end_of-line, no_cr, no_lf, read_until_lem,
}
use gxmis_plugin.Http.Response.Headers.{
  IsOther, header_loop-headers_of, headers_of, length_header, length_header-IsHeader,
}

abbrev pub no_space : ℕ → Bool
no_space a = not (is_space a)

-- The parts of a reply; one of its headers, between others, tells the length in digits.
pub record Reply : Type 0 where
  pub version : Bytes
  pub status : Bytes
  pub message : Bytes
  pub before : List Bytes
  pub digits : Bytes
  pub after : List Bytes
  pub body : Bytes

-- `HTTP/`, the version, a space, the status, a space and the message.
abbrev pub status_line : Reply → Bytes
status_line r = (codes "HTTP/" ++ r.version) ++ (32 ∷ (r.status ++ (32 ∷ r.message)))

abbrev pub headers : Reply → Bytes
headers r = header_lines (headers_of r.before r.digits r.after)

abbrev pub reply_text : Reply → Bytes
reply_text r = (status_line r ++ crlf) ++ ((headers r ++ crlf) ++ r.body)

-- The parts are words and lines, and the digits spell the length of the body, an `int`.
pub record IsReply (r : Reply) : Type 0 where
  pub version_word : Passes no_space r.version
  pub status_word : Passes no_space r.status
  pub message_cr : Passes no_cr r.message
  pub message_lf : Passes no_lf r.message
  pub before_other : All IsOther r.before
  pub after_other : All IsOther r.after
  pub some_digits : is_empty r.digits ≡ false
  pub only_digits : Passes is_digit r.digits
  pub spells : value_from 0 r.digits ≡ length r.body
  pub small : length r.body < 2 ^ 31

end_of-headers_of :
    (before : List Bytes) (digits : Bytes) (after : List Bytes) (t : Bytes)
    → All IsOther before
    → All IsOther after
    → Passes is_digit digits
    → end_of (crlf ++ crlf) ((header_lines (headers_of before digits after) ++ crlf) ++ t)
      ≡ some (length (header_lines (headers_of before digits after) ++ crlf))
end_of-headers_of [] digits after t hb ha hd =
    end_of-headers (length_header digits) after t (length_header-IsHeader digits hd)
      (All-mono after (λ h o. o.0) ha)
end_of-headers_of (h ∷ before) digits after t hb ha hd =
    end_of-headers h (headers_of before digits after) t hb.0.0 (
      All-append IsHeader before (length_header digits ∷ after) (All-mono before (λ h' o. o.0) hb.1)
        (length_header-IsHeader digits hd, All-mono after (λ h' o. o.0) ha))

get_line-line : (line s : Bytes) → Passes no_lf line → get_line (line ++ (10 ∷ s)) ≡ (line, s)
unfolding get_line
get_line-line [] s h = refl
get_line-line (a ∷ line) s (h, hs) = ground (arith, h, get_line-line line s hs)

header_loop-digits :
    (before : List Bytes) (digits : Bytes) (after : List Bytes) (x : Bytes)
    → All IsOther before
    → All IsOther after
    → Passes is_digit digits
    → is_empty digits ≡ false
    → value_from 0 digits < 2 ^ 31
    → header_loop [] none (header_lines (headers_of before digits after) ++ (crlf ++ x))
      ≡ ok (some (value_from 0 digits), x)
header_loop-digits before [] after x hb ha hd some_digits small =
    absurd (ground (arith, some_digits))
header_loop-digits before (a ∷ digits) after x hb ha hd some_digits small =
    header_loop-headers_of before a digits after x hb ha hd small

header_loop-reply :
    (r : Reply) (x : Bytes)
    → IsReply r
    → header_loop [] none ((headers r ++ crlf) ++ x) ≡ ok (some (length r.body), x)
header_loop-reply r x h = ground (
  arith,
  append_assoc (headers r) crlf x,
  h.spells,
  header_loop-digits r.before r.digits r.after x h.before_other h.after_other h.only_digits
      h.some_digits (ground (arith, h.spells, h.small)),
)

word_cr : (a : ℕ) → no_space a ≡ true → no_cr a ≡ true
word_cr a h = ground (arith, h)

status_line-no_cr : (r : Reply) → IsReply r → Passes no_cr (status_line r)
status_line-no_cr r h =
    All-append (λ a. no_cr a ≡ true) (codes "HTTP/" ++ r.version)
      (32 ∷ (r.status ++ (32 ∷ r.message)))
      (refl, (refl, (refl, (refl, (refl, All-mono r.version word_cr h.version_word)))))
      (
        refl,
        All-append (λ a. no_cr a ≡ true) r.status (32 ∷ r.message)
            (All-mono r.status word_cr h.status_word) (refl, h.message_cr),
      )

token-status_line :
    (r : Reply) (t : Bytes)
    → IsReply r
    → token (status_line r ++ t)
      ≡ (codes "HTTP/" ++ r.version, 32 ∷ (r.status ++ (32 ∷ (r.message ++ t))))
unfolding token
token-status_line r t h =
    let word = codes "HTTP/" ++ r.version in
    let rest = 32 ∷ (r.status ++ (32 ∷ (r.message ++ t))) in
    ground (
      arith,
      append_assoc word (32 ∷ (r.status ++ (32 ∷ r.message))) t,
      append_assoc r.status (32 ∷ r.message) t,
      span-append is_space [] (word ++ rest) tt refl,
      span-append no_space word rest (refl, (refl, (refl, (refl, (refl, h.version_word))))) refl,
    )

get_line-message :
    (r : Reply) (x : Bytes)
    → IsReply r
    → get_line (32 ∷ (r.message ++ (crlf ++ x))) ≡ (32 ∷ (r.message ++ (13 ∷ [])), x)
get_line-message r x h =
    ap (λ s. get_line (32 ∷ s)) (sym (append_assoc r.message (13 ∷ []) (10 ∷ x)))
    ∙ get_line-line (32 ∷ (r.message ++ (13 ∷ []))) x
        (refl, All-append (λ a. no_lf a ≡ true) r.message (13 ∷ []) h.message_lf (refl, tt))

take-length : (x y s : Bytes) → x ++ y ≡ s → take (length s - length x) y ≡ take (length y) y
take-length x y s e = ap (λ n. take n y) (ground (arith, e, length-append x y))

take_rest : (x y s : Bytes) → x ++ y ≡ s → x ++ take (length s - length x) y ≡ s
take_rest x y s e =
    ground (arith, e, length-append x y, append-nil y, take_left y [], take-length x y s e)

do_txrx-steps :
    (number : Bytes → Option ℕ × Bytes) (extra extra' code : ℕ) (r : Reply) (socket : Stream)
    (x y x' y' : Bytes)
    → IsReply r
    → ((t : Bytes) → number (32 ∷ (r.status ++ (32 ∷ t))) ≡ (some code, 32 ∷ t))
    → code ≢ 400
    → read_until extra crlf socket
      ≡ ok (record { buffered = (status_line r ++ crlf) ++ x; coming = y })
    → read_until extra' (crlf ++ crlf) (record { buffered = x; coming = y })
      ≡ ok (record { buffered = (headers r ++ crlf) ++ x'; coming = y' })
    → x' ++ y' ≡ r.body
    → do_txrx number extra extra' socket ≡ ok (code, r.body)
unfolding do_txrx read_exactly starts_with
do_txrx-steps number extra extra' code r socket x y x' y' h numbered fine first second rest =
    let t = r.message ++ (crlf ++ x) in
    ground (
      arith,
      first,
      append_assoc (status_line r) crlf x,
      token-status_line r (crlf ++ x) h,
      numbered t,
      get_line-message r x h,
      second,
      header_loop-reply r x' h,
      rest,
      length-append x' y',
      take_rest x' y' r.body rest,
    )

-- A well-formed reply, one of whose headers tells the length of its body, is read the same way
-- however its bytes arrive: with the number of its status, which is not 400, `do_txrx` returns that
-- number and the whole body.
pub do_txrx-reply :
    (number : Bytes → Option ℕ × Bytes) (extra extra' code : ℕ) (r : Reply) (socket : Stream)
    → IsReply r
    → ((t : Bytes) → number (32 ∷ (r.status ++ (32 ∷ t))) ≡ (some code, 32 ∷ t))
    → code ≢ 400
    → socket.buffered ++ socket.coming ≡ reply_text r
    → do_txrx number extra extra' socket ≡ ok (code, r.body)
do_txrx-reply number extra extra' code r socket h numbered fine arrives =
    let (x, y, first, rest) =
      read_until_lem extra crlf (status_line r ++ crlf) ((headers r ++ crlf) ++ r.body) socket
        arrives
        (end_of-line (status_line r) ((headers r ++ crlf) ++ r.body) (status_line-no_cr r h)) in
    let (x', y', second, rest') =
      read_until_lem extra' (crlf ++ crlf) (headers r ++ crlf) r.body
        (record { buffered = x; coming = y }) rest
        (end_of-headers_of r.before r.digits r.after r.body h.before_other h.after_other
          h.only_digits) in
    do_txrx-steps number extra extra' code r socket x y x' y' h numbered fine first second rest'
