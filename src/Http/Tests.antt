-- ===== src/Http/Tests.antt =====
-- Witnesses of the theorems on the HTTP client.
use gxmis_plugin.Common.{true, false, bytes_eq, codes, List, [], ◌∷◌, ◌≡◌, refl, ok, inl}
use gxmis_plugin.Http.{ParsedUrl, ResolvedUrl, parse_url, trim_right}
use gxmis_plugin.Http.ParseUrl.{parse_url_parts}
use gxmis_plugin.Http.Call.{Endpoint, resolve_loop, resolve_url}

trimmed_path : trim_right (codes "/a") ≡ codes "/a"
unfolding trim_right
trimmed_path = refl

parse_url_parts_example :
    parse_url (codes "http://ab:80/a")
    ≡ ok (record {
      scheme = codes "http";
      server = codes "ab";
      port = codes "80";
      path = codes "/a";
    })
parse_url_parts_example =
    parse_url_parts (codes "http") (codes "ab") (codes "80") (codes "/a") (inl refl)
      (refl, (refl, tt)) refl (refl, (refl, tt)) refl refl (refl, (refl, tt)) trimmed_path

abbrev two_endpoints : List Endpoint
two_endpoints =
    record { address = codes "::1"; is_v6 = true; address_is_loopback = true; endpoint_port = 81 }
    ∷ record {
      address = codes "127.0.0.1";
      is_v6 = false;
      address_is_loopback = true;
      endpoint_port = 80;
    }
    ∷ []

abbrev local_url : ParsedUrl
local_url = record { scheme = codes "http"; server = codes "ab"; port = codes "80"; path = [] }

abbrev local_resolved : ResolvedUrl
local_resolved = record {
  url = local_url;
  resolved_addresses = codes "127.0.0.1" ∷ [];
  resolved_port = 80;
  is_loopback = true;
}

local_run : resolve_url (λ u. ok two_endpoints) local_url ≡ ok local_resolved
unfolding resolve_url resolve_loop bytes_eq
local_run = refl

not_unix : bytes_eq local_url.scheme (codes "unix") ≡ false
unfolding bytes_eq
not_unix = refl
