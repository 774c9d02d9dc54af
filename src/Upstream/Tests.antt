-- ===== src/Upstream/Tests.antt =====
-- The theorems about upstreams with a small URL parser.
use vxapigateway.Prelude.{true, false, ◌++◌, [], ◌∷◌, Option, none, some}
use vxapigateway.Prelude.Bytes.{Bytes, codes, strip?}
use vxapigateway.Backend.{Url}
use vxapigateway.Pool.{ServicePool}
use vxapigateway.Upstream.{ServiceRoute}

-- Every text that begins with "http://" is the URL of the host behind it.
abbrev http_url : Option Bytes → Option Url
http_url none = none
http_url (some host) = some (record {
  text = codes "http://" ++ host;
  scheme = codes "http";
  host = host;
  hostname = host;
  port = [];
  path = [];
  raw_query = [];
})

abbrev parse : Bytes → Option Url
parse s = http_url (strip? (codes "http://") s)

abbrev url_a : Url
url_a = record {
  text = codes "http://a";
  scheme = codes "http";
  host = codes "a";
  hostname = codes "a";
  port = [];
  path = [];
  raw_query = [];
}

abbrev config : ServiceRoute
config = record {
  host = codes "a.b";
  prefix = codes "/api";
  target_url = codes " a ";
  targets = codes "http://a" ∷ codes "b" ∷ codes "ftp://c" ∷ [];
  strip_prefix = true;
  require_auth = false;
  weight = 0;
  weights = [];
  timeout_secs = 0;
  health_path = [];
  preserve_host = false;
  name = codes "api";
}

abbrev empty_pool : ServicePool
empty_pool = record { backends = []; current = 0; algo = codes "round-robin" }
