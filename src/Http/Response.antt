-- ===== src/Http/Response.antt =====
-- `do_txrx`: the status and the body of a reply, whose bytes arrive in pieces.
pub mod Blocks
pub mod Headers
pub mod Body
pub mod Tests
use gxmis_plugin.Common.{
  ℕ, zero, suc, ◌+◌, ◌-◌, ◌*◌, ◌^◌, Bool, true, false, ◌&&◌, ◌||◌, not, Bytes, bytes_eq, codes,
  is_empty, List, [], ◌∷◌, ◌++◌, length, take, drop, map, leb, ltb, ◌==◌, if◌then◌else◌, Option,
  none, some, Result, ok, err, ◌>>=◌, ◌>>◌, guard, or_fail,
}
use gxmis_plugin.Common.Find.{span, is_digit, starts_with}
use gxmis_plugin.Http.{
  HttpError, system_error, invalid_http_request, invalid_http_response, out_of_range,
}
use gxmis_plugin.Http.Call.{crlf}

-- What has arrived and was not read yet, and what is still to come.
pub record Stream : Type 0 where
  pub buffered : Bytes
  pub coming : Bytes

-- The place behind the first occurrence of a delimiter.
unfoldable pub end_of : Bytes → Bytes → Option ℕ
end_of delimiter [] = none
end_of delimiter (a ∷ s) =
    let rest = end_of delimiter s in
    if starts_with delimiter (a ∷ s)
    then some (length delimiter)
    else elim rest [ none ↦ none | some p ↦ some (suc p) ]

-- `boost::asio::read_until`: nothing is read where the delimiter has arrived already; otherwise
-- some bytes behind it, `extra` of them, may arrive with it.
unfoldable pub read_until : ℕ → Bytes → Stream → Result HttpError Stream
read_until extra delimiter s =
    let text = s.buffered ++ s.coming in
    let here = length s.buffered in
    elim (end_of delimiter text) [
      | none ↦ err system_error
      | some p ↦
          let n = if leb p here then here else p + extra in
          ok (record { buffered = take n text; coming = drop n text })
    ]

-- `boost::asio::read` of an exact number of bytes.
unfoldable pub read_exactly : ℕ → Stream → Result HttpError Bytes
read_exactly n s = do
  guard (leb n (length s.coming)) system_error
  ok (s.buffered ++ take n s.coming)

-- `isspace`
abbrev pub is_space : ℕ → Bool
is_space a = a == 32 || (leb 9 a && leb a 13)

-- `stream >> text`
unfoldable pub token : Bytes → Bytes × Bytes
token s = span (λ a. not (is_space a)) ((span is_space s).1)

-- `getline`, without the end of the line.
unfoldable pub get_line : Bytes → Bytes × Bytes
get_line [] = ([], [])
get_line (a ∷ s) = let (line, rest) = get_line s in if a == 10 then ([], s) else (a ∷ line, rest)

abbrev pub lower : ℕ → ℕ
lower a = if leb b'A' a && leb a b'Z' then a + 32 else a

-- `std::stoi` on digits, before its check of the range.
unfoldable pub value_from : ℕ → Bytes → ℕ
value_from n [] = n
value_from n (a ∷ s) = value_from (n * 10 + (a - b'0')) s

-- `^content-length:\s+(\d+)`, in upper or lower case: the digits.
unfoldable pub content_length : Bytes → Option Bytes
content_length line =
    let (blanks, after) = span is_space (drop 15 line) in
    let (digits, rest) = span is_digit after in
    if starts_with (codes "content-length:") (map lower line)
      && not (is_empty blanks)
      && not (is_empty digits)
    then some digits
    else none

-- What one header leaves in `response_content_length`; none is -1.
unfoldable pub use_header : Option ℕ → Bytes → Result HttpError (Option ℕ)
use_header n line = elim (content_length line) [
  | none ↦ ok n
  | some digits ↦
      if ltb (value_from 0 digits) (2 ^ 31)
      then ok (some (value_from 0 digits))
      else err out_of_range
]

-- The loop over the headers, to the line that has only a carriage return; `line` is what was read
-- of the present line.
unfoldable pub header_loop : Bytes → Option ℕ → Bytes → Result HttpError (Option ℕ × Bytes)
header_loop line n [] = do n' ← use_header n line; ok (n', [])
header_loop line n (a ∷ s) = elim (a == 10) [
  | true ↦ elim (bytes_eq line (13 ∷ [])) [
    | true ↦ ok (n, s)
    | false ↦ use_header n line >>= λ n'. header_loop [] n' s
  ]
  | false ↦ header_loop (line ++ (a ∷ [])) n s
]

-- `stream >> status_code` is a parameter: the number, none where it fails, and the rest.
-- `extra` is how many bytes arrive behind each of the two delimiters.
unfoldable pub do_txrx : (Bytes → Option ℕ × Bytes) → ℕ → ℕ → Stream → Result HttpError (ℕ × Bytes)
do_txrx number extra extra' socket = do
  s1 ← read_until extra crlf socket
  let (http_version, after_version) = token s1.buffered
  let (status, after_status) = number after_version
  let (status_message, rest) = get_line after_status
  guard (not (elim status [ none ↦ false | some code ↦ code == 400 ])) invalid_http_request
  status_code ← or_fail status invalid_http_response
  guard (not (is_empty after_status) && starts_with (codes "HTTP/") http_version)
      invalid_http_response
  s2 ← read_until extra' (crlf ++ crlf) (record s1 { buffered = rest })
  (length_found, body) ← header_loop [] none s2.buffered
  response_content_length ← or_fail length_found invalid_http_response
  guard (leb (length body) response_content_length) system_error
  re ← read_exactly (response_content_length - length body) (record s2 { buffered = body })
  ok (status_code, re)
