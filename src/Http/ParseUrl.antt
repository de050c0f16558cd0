-- ===== src/Http/ParseUrl.antt =====
-- `parse_url` reads back the parts of a URL.
use gxmis_plugin.Common.{
  Stops, Passes, false, Bytes, bytes_eq, codes, is_empty, [], ◌∷◌, ◌++◌, ok, ◌≡◌, refl, ap, sym,
  ◌∙◌, arith, ◌⊎◌, inl, inr, append-nil, subst,
}
use gxmis_plugin.Common.Find.{span, is_digit, span-append}
use gxmis_plugin.Http.{
  in_name, in_path, scan_scheme, scheme_of, scan_port, scan_server, trim_right, parse_url,
}

scan_port-append :
    (port path : Bytes)
    → Passes is_digit port
    → is_empty port ≡ false
    → Stops is_digit path
    → scan_port (b':' ∷ (port ++ path)) ≡ (port, path)
unfolding scan_port
scan_port-append port path digits filled stop =
    ground (arith, span-append is_digit port path digits stop)

scan_server-append :
    (server port path : Bytes)
    → Passes in_name server
    → Passes is_digit port
    → is_empty port ≡ false
    → Stops is_digit path
    → scan_server (codes "//" ++ (server ++ (b':' ∷ (port ++ path)))) ≡ (server, port, path)
unfolding scan_server
scan_server-append server port path named digits filled stop = ground (
  arith,
  span-append in_name server (b':' ∷ (port ++ path)) named refl,
  scan_port-append port path digits filled stop,
)

parse_http :
    (s server port path : Bytes)
    → scan_server s ≡ (server, port, path)
    → is_empty server ≡ false
    → is_empty port ≡ false
    → span in_path path ≡ (path, [])
    → trim_right path ≡ path
    → parse_url (codes "http:" ++ s)
      ≡ ok (record { scheme = codes "http"; server = server; port = port; path = path })
unfolding parse_url scan_scheme scheme_of span bytes_eq
parse_http s server port path scanned served filled clean trimmed = ground arith

parse_https :
    (s server port path : Bytes)
    → scan_server s ≡ (server, port, path)
    → is_empty server ≡ false
    → is_empty port ≡ false
    → span in_path path ≡ (path, [])
    → trim_right path ≡ path
    → parse_url (codes "https:" ++ s)
      ≡ ok (record { scheme = codes "https"; server = server; port = port; path = path })
unfolding parse_url scan_scheme scheme_of span bytes_eq
parse_https s server port path scanned served filled clean trimmed = ground arith

-- A URL of the scheme http or https whose server is not empty and has no character of `:/?#`, whose
-- port is made of digits, and whose path has no `?` or `#`, begins with no digit and ends with no
-- slash, is taken apart into these parts.
pub parse_url_parts :
    (scheme server port path : Bytes)
    → (scheme ≡ codes "http") ⊎ (scheme ≡ codes "https")
    → Passes in_name server
    → is_empty server ≡ false
    → Passes is_digit port
    → is_empty port ≡ false
    → Stops is_digit path
    → Passes in_path path
    → trim_right path ≡ path
    → parse_url (scheme ++ (codes "://" ++ (server ++ (b':' ∷ (port ++ path)))))
      ≡ ok (record { scheme = scheme; server = server; port = port; path = path })
parse_url_parts scheme server port path known named served digits filled stop clean trimmed =
    let scanned = scan_server-append server port path named digits filled stop in
    let whole : span in_path path ≡ (path, []) =
      ap (span in_path) (sym (append-nil path)) ∙ span-append in_path path [] clean tt in
    let s = codes "//" ++ (server ++ (b':' ∷ (port ++ path))) in
    elim known [
      | inl e ↦
          subst
            (λ z.
              parse_url (z ++ (b':' ∷ s))
              ≡ ok (record { scheme = z; server = server; port = port; path = path }))
            (sym e) (parse_http s server port path scanned served filled whole trimmed)
      | inr e ↦
          subst
            (λ z.
              parse_url (z ++ (b':' ∷ s))
              ≡ ok (record { scheme = z; server = server; port = port; path = path }))
            (sym e) (parse_https s server port path scanned served filled whole trimmed)
    ]
