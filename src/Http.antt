-- ===== src/Http.antt =====
-- plugins/data_exchange_plugin/httpc.cpp: URLs, the request, the reading of a reply and the treatment
-- of the status. The sockets stay outside; regular expressions of the source are scanners here.
pub mod ParseUrl
pub mod Call
pub mod DoCall
pub mod Response
pub mod Tests
use gxmis_plugin.Common.{
  ℕ, zero, suc, ◌+◌, Bool, true, false, not, ◌&&◌, ◌||◌, Bytes, bytes_eq, codes, is_empty, List, [],
  ◌∷◌, ◌++◌, length, take, drop, leb, ◌==◌, if◌then◌else◌, Option, none, some, Result, ok, err,
  ◌>>=◌, ◌>>◌, guard,
}
use gxmis_plugin.Common.Find.{span, is_digit}

-- The exceptions of the client; `system_error` is that of the sockets, at the end of a stream too, and
-- `out_of_range` that of `std::stoi`.
pub data HttpError : Type 0 where
  unknown_scheme no_server multiple_ports no_address : HttpError
  missing_chain_api_plugin missing_wallet_api_plugin missing_history_api_plugin : HttpError
  missing_net_api_plugin server_error http_request_fail : HttpError
  invalid_http_request invalid_http_response out_of_range : HttpError
  system_error connection_exception : HttpError

pub record ParsedUrl : Type 0 where
  pub scheme : Bytes
  pub server : Bytes
  pub port : Bytes
  pub path : Bytes

-- `resolved_url`, with the port found.
pub record ResolvedUrl : Type 0 where
  pub url : ParsedUrl
  pub resolved_addresses : List Bytes
  pub resolved_port : ℕ
  pub is_loopback : Bool

-- `[^:/?#]` and `[^?#]`.
abbrev pub in_name : ℕ → Bool
in_name a = not (a == b':' || a == b'/' || a == b'?' || a == b'#')

abbrev pub in_path : ℕ → Bool
in_path a = not (a == b'?' || a == b'#')

-- `(([^:/?#]+):)?`, from the longest run of the characters of a name: the run is the scheme when it
-- is not empty and a colon follows.
unfoldable pub scheme_of : Bytes → Bytes × Bytes → Bytes × Bytes
scheme_of s (front, []) = ([], s)
scheme_of s (front, a ∷ back) = if not (is_empty front) && a == b':' then (front, back) else ([], s)

unfoldable pub scan_scheme : Bytes → Bytes × Bytes
scan_scheme s = scheme_of s (span in_name s)

-- `(:(\d+))?`
unfoldable pub scan_port : Bytes → Bytes × Bytes
scan_port [] = ([], [])
scan_port (a ∷ s) =
    let (digits, back) = span is_digit s in
    if a == b':' && not (is_empty digits) then (digits, back) else ([], a ∷ s)

-- `(//([^:/?#]*)(:(\d+))?)?`: the server, the port and the rest.
unfoldable pub scan_server : Bytes → Bytes × Bytes × Bytes
unfolding bytes_eq
scan_server s =
    let (server, after) = span in_name (drop 2 s) in
    let (port, back) = scan_port after in
    if bytes_eq (take 2 s) (codes "//") then (server, port, back) else ([], [], s)

-- `boost::trim_right_if(path, is_any_of("/"))`
unfoldable pub trim_right : Bytes → Bytes
trim_right [] = []
trim_right (a ∷ s) = let rest = trim_right s in if is_empty rest && a == b'/' then [] else a ∷ rest

abbrev pub default_port : Bytes → Bytes
default_port scheme = if bytes_eq scheme (codes "http") then codes "80" else codes "443"

unfoldable pub parse_url : Bytes → Result HttpError ParsedUrl
unfolding bytes_eq
parse_url server_url =
    if bytes_eq (take 7 server_url) (codes "unix://")
    then ok (record { scheme = codes "unix"; server = drop 7 server_url; port = []; path = [] })
    else (let (scheme, after_scheme) = scan_scheme server_url in
        let (server, port, after_server) = scan_server after_scheme in
        let path = (span in_path after_server).0 in
        do
          guard (bytes_eq scheme (codes "http") || bytes_eq scheme (codes "https")) unknown_scheme
          guard (not (is_empty server)) no_server
          ok (record {
            scheme = scheme;
            server = server;
            port = if is_empty port then default_port scheme else port;
            path = trim_right path;
          }))
