-- ===== src/Plugin/Call.antt =====
-- `call` of plugins/data_exchange_plugin/data_exchange_plugin.cpp: one call of the wallet, from its
-- path and its argument to the answer.
pub mod Answer
pub mod Tests
use gxmis_plugin.Common.{Bytes, List, ◌++◌, Option, Result, ok, err, ◌>>=◌}
use gxmis_plugin.Http.{HttpError, ParsedUrl, system_error, connection_exception, parse_url}
use gxmis_plugin.Http.Call.{Endpoint, resolve_url}
use gxmis_plugin.Http.DoCall.{Transport, do_http_call}

-- `operator+` of `parsed_url`
abbrev pub with_path : ParsedUrl → Bytes → ParsedUrl
with_path url sub_path = record url { path = url.path ++ sub_path }

-- `catch (boost::system::system_error &e)`
unfoldable pub catch_system_error : {A : Type 0} → Result HttpError A → Result HttpError A
catch_system_error (ok a) = ok a
catch_system_error (err e) = err (elim e [ system_error ↦ connection_exception | e' ↦ e' ])

-- The resolver and the transport are parameters; a call without an argument passes a null variant.
unfoldable pub call :
    {Json : Type 0}
    → Transport Json
    → (ParsedUrl → Result HttpError (List Endpoint))
    → Bytes
    → List Bytes
    → Bytes
    → Option Json
    → Result HttpError Json
call transport resolver wallet_url headers path v = catch_system_error (do
  url ← parse_url wallet_url
  resolved ← resolve_url resolver (with_path url path)
  do_http_call transport resolved headers v)
