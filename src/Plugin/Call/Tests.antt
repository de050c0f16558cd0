-- ===== src/Plugin/Call/Tests.antt =====
-- A call of the wallet whose reply arrives in two pieces.
use gxmis_plugin.Common.{
  Bytes, codes, List, [], ◌∷◌, true, false, none, Result, ok, err, ◌≡◌, refl, inl, bytes_eq,
}
use gxmis_plugin.Http.{
  ParsedUrl, ResolvedUrl, connection_exception, parse_url, scan_scheme, scheme_of, scan_server,
  scan_port, trim_right,
}
use gxmis_plugin.Common.Find.{span}
use gxmis_plugin.Http.Call.{Endpoint, resolve_loop, resolve_url, header_lines}
use gxmis_plugin.Http.DoCall.{Transport, send_request}
use gxmis_plugin.Http.Response.Tests.{block, block-IsReply, number, number_block, socket}
use gxmis_plugin.Plugin.Call.{call, with_path}
use gxmis_plugin.Plugin.Call.Answer.{call-reply}

abbrev wallet : Transport Bytes
wallet = record {
  unix_socket = λ path request. err connection_exception;
  tcp_socket = λ addresses request. ok socket;
  ssl_socket = λ addresses server request. err connection_exception;
  number = number;
  extra = 3;
  extra' = 1;
  to_string = λ v. v;
  from_string = λ s. ok s;
  decimal = λ n. codes "0";
}

abbrev wallet_parts : ParsedUrl
wallet_parts = record {
  scheme = codes "http";
  server = codes "ab";
  port = codes "80";
  path = codes "/a";
}

abbrev resolved : ResolvedUrl
resolved = record {
  url = with_path wallet_parts (codes "/v1/wallet/get_public_keys");
  resolved_addresses = codes "127.0.0.1" ∷ [];
  resolved_port = 80;
  is_loopback = true;
}

abbrev resolver : {E : Type 0} → ParsedUrl → Result E (List Endpoint)
resolver url = ok (
    record {
      address = codes "127.0.0.1";
      is_v6 = false;
      address_is_loopback = true;
      endpoint_port = 80;
    }
    ∷ [])

wallet_parsed : parse_url (codes "http://ab:80/a") ≡ ok wallet_parts
unfolding parse_url scan_scheme scheme_of scan_server scan_port trim_right span bytes_eq
wallet_parsed = refl

wallet_resolved :
    resolve_url resolver (with_path wallet_parts (codes "/v1/wallet/get_public_keys")) ≡ ok resolved
unfolding resolve_url resolve_loop bytes_eq
wallet_resolved = refl

call-reply_example :
    call wallet resolver (codes "http://ab:80/a") [] (codes "/v1/wallet/get_public_keys") none
    ≡ ok (codes "{}")
unfolding header_lines send_request bytes_eq
call-reply_example =
    call-reply wallet resolver (codes "http://ab:80/a") [] (codes "/v1/wallet/get_public_keys") none
      wallet_parts resolved socket 200 block (codes "{}") wallet_parsed wallet_resolved refl
      block-IsReply number_block (inl refl) refl refl
