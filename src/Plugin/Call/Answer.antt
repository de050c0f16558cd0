-- ===== src/Plugin/Call/Answer.antt =====
-- A well-formed reply of the wallet is the answer of the call.
use gxmis_plugin.Common.{
  ℕ, Bytes, List, ◌∷◌, ◌++◌, Option, some, Result, ok, err, ◌≡◌, ◌≢◌, ◌⊎◌, arith,
}
use gxmis_plugin.Http.{HttpError, ParsedUrl, ResolvedUrl, system_error, parse_url}
use gxmis_plugin.Http.Call.{Endpoint, check_status, request_text, resolve_url}
use gxmis_plugin.Http.DoCall.{Transport, do_http_call, post_text, send_request}
use gxmis_plugin.Http.Response.{Stream}
use gxmis_plugin.Http.Response.Body.{IsReply, Reply, do_txrx-reply, reply_text}
use gxmis_plugin.Plugin.Call.{call, catch_system_error, with_path}

-- The statuses that are answers.
abbrev pub IsSuccess : ℕ → Type 0
IsSuccess code = (code ≡ 200) ⊎ ((code ≡ 201) ⊎ (code ≡ 202))

success_status : (code : ℕ) (path : Bytes) → IsSuccess code → check_status code path ≡ ok tt
unfolding check_status
success_status code path h = ground (arith, h)

module _ {Json : Type 0} (transport : Transport Json) where
  do_http_call-reply :
      (url : ResolvedUrl) (headers : List Bytes) (v : Option Json) (socket : Stream) (code : ℕ)
      (r : Reply) (answer : Json)
      → send_request transport url
          (request_text transport.decimal url headers (post_text transport v))
        ≡ ok socket
      → IsReply r
      → ((t : Bytes) → transport.number (32 ∷ (r.status ++ (32 ∷ t))) ≡ (some code, 32 ∷ t))
      → IsSuccess code
      → socket.buffered ++ socket.coming ≡ reply_text r
      → transport.from_string r.body ≡ ok answer
      → do_http_call transport url headers v ≡ ok answer
  unfolding do_http_call
  do_http_call-reply url headers v socket code r answer sent h numbered success arrives understood =
      let not_400 : code ≢ 400 = ground (arith, success) in
      let received =
        do_txrx-reply transport.number transport.extra transport.extra' code r socket h numbered
          not_400 arrives in
      ground (arith, sent, received, success_status code url.url.path success, understood)

  -- Where the wallet's URL is read and resolved and the request is sent, and a well-formed reply with
  -- the status 200, 201 or 202 arrives, in pieces of any sizes, `call` returns the reply's body as the
  -- JSON that it spells.
  pub call-reply :
      (resolver : ParsedUrl → Result HttpError (List Endpoint)) (wallet_url : Bytes)
      (headers : List Bytes) (path : Bytes) (v : Option Json) (url : ParsedUrl)
      (resolved : ResolvedUrl) (socket : Stream) (code : ℕ) (r : Reply) (answer : Json)
      → parse_url wallet_url ≡ ok url
      → resolve_url resolver (with_path url path) ≡ ok resolved
      → send_request transport resolved
          (request_text transport.decimal resolved headers (post_text transport v))
        ≡ ok socket
      → IsReply r
      → ((t : Bytes) → transport.number (32 ∷ (r.status ++ (32 ∷ t))) ≡ (some code, 32 ∷ t))
      → IsSuccess code
      → socket.buffered ++ socket.coming ≡ reply_text r
      → transport.from_string r.body ≡ ok answer
      → call transport resolver wallet_url headers path v ≡ ok answer
  unfolding call catch_system_error
  call-reply resolver wallet_url headers path v url resolved socket code r answer parsed found sent
        h numbered success arrives understood =
      ground (
        arith,
        parsed,
        found,
        do_http_call-reply resolved headers v socket code r answer sent h numbered success arrives
            understood,
      )

module _ {A : Type 0} where
  catch_system_error-caught : (m : Result HttpError A) → catch_system_error m ≢ err system_error
  unfolding catch_system_error
  catch_system_error-caught (ok a) = ground arith
  catch_system_error-caught (err e) = ground arith
