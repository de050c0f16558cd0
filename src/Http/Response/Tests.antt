-- ===== src/Http/Response/Tests.antt =====
-- A reply in two chunks, and replies that are refused.
use gxmis_plugin.Common.{
  ℕ, Bytes, codes, [], ◌∷◌, ◌++◌, Option, none, some, ok, err, ◌≡◌, refl, if◌then◌else◌, is_empty,
  take, drop, bytes_eq, arith,
}
use gxmis_plugin.Common.Find.{span, starts_with, is_digit}
use gxmis_plugin.Http.Call.{crlf, header_lines}
use gxmis_plugin.Http.{invalid_http_request, invalid_http_response, system_error}
use gxmis_plugin.Http.Response.{
  Stream, content_length, do_txrx, end_of, get_line, header_loop, read_until, token, use_header,
  is_space, value_from,
}
use gxmis_plugin.Http.Response.Body.{Reply, IsReply, reply_text, do_txrx-reply}

-- A reader of numbers: blanks, then digits.
unfoldable pub number : Bytes → Option ℕ × Bytes
number s =
    let (digits, rest) = span is_digit ((span is_space s).1) in
    if is_empty digits then (none, rest) else (some (value_from 0 digits), rest)

abbrev pub block : Reply
block = record {
  version = codes "1.1";
  status = codes "200";
  message = codes "OK";
  before = codes "X: y" ∷ [];
  digits = codes "2";
  after = [];
  body = codes "{}";
}

abbrev pub socket : Stream
socket = record { buffered = take 20 (reply_text block); coming = drop 20 (reply_text block) }

pub number_block : (t : Bytes) → number (32 ∷ (block.status ++ (32 ∷ t))) ≡ (some 200, 32 ∷ t)
unfolding number span value_from
number_block t = refl

pub block-IsReply : IsReply block
unfolding header_lines content_length starts_with span value_from
block-IsReply = record {
  version_word = (refl, (refl, (refl, tt)));
  status_word = (refl, (refl, (refl, tt)));
  message_cr = (refl, (refl, tt));
  message_lf = (refl, (refl, tt));
  before_other =
      (((refl, (refl, (refl, (refl, (refl, tt)))), (refl, (refl, (refl, (refl, tt))))), refl), tt);
  after_other = tt;
  some_digits = refl;
  only_digits = (refl, tt);
  spells = refl;
  small = ground arith;
}

do_txrx-reply_example : do_txrx number 3 1 socket ≡ ok (200, codes "{}")
unfolding header_lines
do_txrx-reply_example =
    do_txrx-reply number 3 1 200 block socket block-IsReply number_block (ground arith) refl

-- A status of 400 is an exception, whatever else is in the reply.
rejected :
    do_txrx number 0 0 (record { buffered = []; coming = codes "HTTP/1.1 400 Bad" ++ crlf })
    ≡ err invalid_http_request
unfolding do_txrx number span value_from token read_until end_of starts_with get_line
rejected = refl

-- The connection ends before the headers do.
cut_off :
    do_txrx number 0 0 (record { buffered = []; coming = codes "HTTP/1.1 200 OK" ++ crlf })
    ≡ err system_error
unfolding do_txrx number span value_from token read_until end_of starts_with get_line
cut_off = refl

-- No header tells the length.
no_length :
    do_txrx number 9 9 (record {
      buffered = [];
      coming = codes "HTTP/1.1 200 OK" ++ crlf ++ codes "A: b" ++ crlf ++ crlf;
    })
    ≡ err invalid_http_response
unfolding do_txrx number span value_from token read_until end_of starts_with get_line header_loop
    use_header content_length bytes_eq
no_length = refl
