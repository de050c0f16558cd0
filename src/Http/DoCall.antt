-- ===== src/Http/DoCall.antt =====
-- `do_http_call`: the request is sent, and the reply is read and judged by its status.
use gxmis_plugin.Common.{
  ℕ, Bytes, List, [], Option, none, some, Result, ok, ◌>>=◌, ◌>>◌, map, bytes_eq, codes,
  if◌then◌else◌,
}
use gxmis_plugin.Http.{HttpError, ResolvedUrl}
use gxmis_plugin.Http.Call.{request_text, check_status}
use gxmis_plugin.Http.Response.{Stream, do_txrx}

-- The sockets, on which a request is sent: what comes back. A local socket has a path, one of TCP the
-- endpoints that are tried, one of TLS the server's name, which is verified, too. The numbers of a
-- stream, and how its bytes arrive, are as in `do_txrx`. JSON is printed and read by the chain's
-- library.
pub record Transport (Json : Type 0) : Type 0 where
  pub unix_socket : Bytes → Bytes → Result HttpError Stream
  pub tcp_socket : List (Bytes × ℕ) → Bytes → Result HttpError Stream
  pub ssl_socket : List (Bytes × ℕ) → Bytes → Bytes → Result HttpError Stream
  pub number : Bytes → Option ℕ × Bytes
  pub extra : ℕ
  pub extra' : ℕ
  pub to_string : Json → Bytes
  pub from_string : Bytes → Result HttpError Json
  pub decimal : ℕ → Bytes

-- The endpoints that `do_connect` tries.
abbrev pub endpoints : ResolvedUrl → List (Bytes × ℕ)
endpoints url = map (λ addr. (addr, url.resolved_port)) url.resolved_addresses

-- The connection that the scheme asks for. An error of the shutdown of TLS is swallowed.
unfoldable pub send_request :
    {Json : Type 0} → Transport Json → ResolvedUrl → Bytes → Result HttpError Stream
send_request transport url request =
    if bytes_eq url.url.scheme (codes "unix")
    then transport.unix_socket url.url.server request
    else (if bytes_eq url.url.scheme (codes "http")
        then transport.tcp_socket (endpoints url) request
        else transport.ssl_socket (endpoints url) url.url.server request)

-- Nothing is posted for a null variant.
abbrev pub post_text : {Json : Type 0} → Transport Json → Option Json → Bytes
post_text transport none = []
post_text transport (some postdata) = transport.to_string postdata

unfoldable pub do_http_call :
    {Json : Type 0}
    → Transport Json
    → ResolvedUrl
    → List Bytes
    → Option Json
    → Result HttpError Json
do_http_call transport url headers postdata = do
  socket ←
      send_request transport url
        (request_text transport.decimal url headers (post_text transport postdata))
  (status_code, re) ← do_txrx transport.number transport.extra transport.extra' socket
  response_result ← transport.from_string re
  check_status status_code url.url.path
  ok response_result
