-- ===== src/Proxy.antt =====
-- The reverse proxy that routing.go makes for a backend: its director and its error handler. Package
-- httputil is a parameter: `inner` is the director of NewSingleHostReverseProxy.
pub mod Chain
mod Tests
use vxapigateway.Prelude.{Bool, List, [], Option, none, some, ◌&&◌, not, if◌then◌else◌}
use vxapigateway.Prelude.Bytes.{Bytes, codes, beq}
use vxapigateway.Recorder.{ClientEvent}
use vxapigateway.Client.{Request, set_header}
use vxapigateway.Gateway.{http_error}

abbrev pub forwarded_proto : Bytes
forwarded_proto = codes "X-Forwarded-Proto"

abbrev pub forwarded_host : Bytes
forwarded_host = codes "X-Forwarded-Host"

-- The variable `scheme`, behind both tests; `is_tls` says whether `req.TLS` is set.
abbrev pub client_scheme : Bool → Request → Bytes
unfolding beq
client_scheme is_tls r =
    if beq (r.headers forwarded_proto) []
    then if is_tls then codes "https" else codes "http"
    else r.headers forwarded_proto

-- The function that becomes `proxy.Director`.
unfoldable pub director : (Request → Request) → Bytes → Bool → Bool → Request → Request
unfolding beq
director inner target_host preserve_host is_tls r =
    let scheme = client_scheme is_tls r in
    let directed = inner r in
    let named =
      if beq (directed.headers forwarded_host) [] && not (beq r.host [])
      then set_header forwarded_host r.host directed
      else directed in
    record (set_header forwarded_proto scheme named) {
      host = if preserve_host then r.host else target_host;
    }

-- The function that becomes `proxy.ErrorHandler`: what it puts into the dispatcher's sink, if there is
-- one in the context, and what it sends to the client, the newest call first.
unfoldable pub error_handler : Bool → Bytes → Option Bytes × List ClientEvent
error_handler has_sink error =
    if has_sink then (some error, []) else (none, http_error 502 (codes "Bad Gateway"))
