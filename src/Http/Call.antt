-- ===== src/Http/Call.antt =====
-- The request and the treatment of the status: `format_host_header`, `resolve_url` and
-- `do_http_call`.
use gxmis_plugin.Common.{
  ℕ, Bool, true, false, not, ◌&&◌, ◌||◌, Bytes, bytes_eq, codes, List, [], ◌∷◌, ◌++◌, length, take,
  ◌==◌, if◌then◌else◌, Option, none, some, Result, ok, err, ◌>>=◌, ◌>>◌, guard, ◌≡◌, arith, ◌⊎◌,
  All, refl, subst, inl, inr, Bool-cases, Option-cases, Result-cases,
}
use gxmis_plugin.Http.{
  HttpError, ParsedUrl, ResolvedUrl, multiple_ports, no_address, missing_chain_api_plugin,
  missing_wallet_api_plugin, missing_history_api_plugin, missing_net_api_plugin, server_error,
  http_request_fail,
}

-- An endpoint that the resolver returned.
pub record Endpoint : Type 0 where
  pub address : Bytes
  pub is_v6 : Bool
  pub address_is_loopback : Bool
  pub endpoint_port : ℕ

-- The variables of the loop of `resolve_url`.
pub record Resolved : Type 0 where
  pub addresses : List Bytes
  pub port : Option ℕ
  pub loopback : Bool

abbrev pub same_port : Option ℕ → ℕ → Bool
same_port none port = true
same_port (some p) port = p == port

unfoldable pub resolve_loop : Resolved → List Endpoint → Result HttpError Resolved
resolve_loop r [] = ok r
resolve_loop r (e ∷ es) = elim e.is_v6 [
  | true ↦ resolve_loop r es
  | false ↦ do
    guard (same_port r.port e.endpoint_port) multiple_ports
    resolve_loop
        (record {
          addresses = r.addresses ++ (e.address ∷ []);
          port = some e.endpoint_port;
          loopback = r.loopback && e.address_is_loopback;
        })
        es
]

-- The resolver is a parameter: its endpoints, or none for an error.
unfoldable pub resolve_url :
    (ParsedUrl → Result HttpError (List Endpoint)) → ParsedUrl → Result HttpError ResolvedUrl
unfolding bytes_eq
resolve_url resolver url =
    if bytes_eq url.scheme (codes "unix")
    then ok (record { url = url; resolved_addresses = []; resolved_port = 0; is_loopback = false })
    else (do
      result ← resolver url
      r ← resolve_loop (record { addresses = []; port = none; loopback = true }) result
      elim r.port [
        | none ↦ err no_address
        | some port ↦ ok (record {
          url = url;
          resolved_addresses = r.addresses;
          resolved_port = port;
          is_loopback = r.loopback;
        })
      ])

unfoldable pub format_host_header : ResolvedUrl → Bytes
unfolding bytes_eq
format_host_header r =
    if (bytes_eq r.url.scheme (codes "https") && r.resolved_port == 443)
      || (bytes_eq r.url.scheme (codes "http") && r.resolved_port == 80)
    then r.url.server
    else r.url.server ++ codes ":" ++ r.url.port

-- The end of a line.
abbrev pub crlf : Bytes
crlf = 13 ∷ 10 ∷ []

unfoldable pub header_lines : List Bytes → Bytes
header_lines [] = []
header_lines (h ∷ hs) = h ++ crlf ++ header_lines hs

-- The text of the request; `decimal` prints a number.
unfoldable pub request_text : (ℕ → Bytes) → ResolvedUrl → List Bytes → Bytes → Bytes
request_text decimal r headers postjson =
    header_lines (
      (codes "POST " ++ r.url.path ++ codes " HTTP/1.0")
      ∷ (codes "Host: " ++ format_host_header r)
      ∷ (codes "content-length: " ++ decimal (length postjson))
      ∷ codes "Accept: */*"
      ∷ codes "Connection: close"
      ∷ headers)
    ++ crlf
    ++ postjson

-- `path.compare(0, base.size(), base) == 0`
unfoldable pub starts_with : Bytes → Bytes → Bool
unfolding bytes_eq
starts_with base path = bytes_eq (take (length base) path) base

-- What a status leads to: the answer, or an exception.
unfoldable pub check_status : ℕ → Bytes → Result HttpError (Unit {0})
check_status status_code path =
    if status_code == 200 || status_code == 201 || status_code == 202
    then ok tt
    else (if status_code == 404
        then (do
          guard (not (starts_with (codes "/v1/chain") path)) missing_chain_api_plugin
          guard (not (starts_with (codes "/v1/wallet") path)) missing_wallet_api_plugin
          guard (not (starts_with (codes "/v1/history") path)) missing_history_api_plugin
          guard (not (starts_with (codes "/v1/net") path)) missing_net_api_plugin
          guard (status_code == 200) http_request_fail)
        else err server_error)

abbrev pub Agrees : Option ℕ → List Endpoint → Type 0
Agrees port es = All (λ e. (e.is_v6 ≡ true) ⊎ (port ≡ some e.endpoint_port)) es

resolve_loop_ports :
    (r r' : Resolved) (es : List Endpoint)
    → resolve_loop r es ≡ ok r'
    → Agrees r'.port es × ((p : ℕ) → r.port ≡ some p → r'.port ≡ some p)
unfolding resolve_loop
resolve_loop_ports r r' [] h = (tt, λ p e. ground arith)
resolve_loop_ports r r' (e ∷ es) h =
    let added : Resolved = record {
      addresses = r.addresses ++ (e.address ∷ []);
      port = some e.endpoint_port;
      loopback = r.loopback && e.address_is_loopback;
    } in
    elim (Bool-cases e.is_v6) [
      | inl v6 ↦ let rest = resolve_loop_ports r r' es (ground arith) in ((inl v6, rest.0), rest.1)
      | inr v4 ↦ elim (Bool-cases (same_port r.port e.endpoint_port)) [
        | inr differs ↦ absurd (ground arith)
        | inl same ↦
            let rest = resolve_loop_ports added r' es (ground arith) in
            let found = rest.1 e.endpoint_port refl in ((inr found, rest.0), λ p ep. ground arith)
      ]
    ]

-- When `resolve_url` succeeds for a URL that names no unix socket, all endpoints of version 4 that the
-- resolver returned have the port found.
resolve_url-Agrees :
    (resolver : ParsedUrl → Result HttpError (List Endpoint)) (url : ParsedUrl) (es : List Endpoint)
    (r : ResolvedUrl)
    → resolver url ≡ ok es
    → bytes_eq url.scheme (codes "unix") ≡ false
    → resolve_url resolver url ≡ ok r
    → Agrees (some r.resolved_port) es
unfolding resolve_url
resolve_url-Agrees resolver url es r resolved tcp h =
    let start : Resolved = record { addresses = []; port = none; loopback = true } in
    elim (Result-cases (resolve_loop start es)) [
      | inr (error, e) ↦ absurd (ground arith)
      | inl (d, e) ↦ elim (Option-cases d.port) [
        | inl missing ↦ absurd (ground arith)
        | inr (port, found) ↦
            let same : d.port ≡ some r.resolved_port = ground arith in
            subst (λ p. Agrees p es) same ((resolve_loop_ports start d es e).0)
      ]
    ]
