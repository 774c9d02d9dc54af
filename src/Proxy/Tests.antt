-- ===== src/Proxy/Tests.antt =====
-- The theorem about the reverse proxies at a concrete request.
use vxapigateway.Prelude.{◌≡◌, refl, true, false, []}
use vxapigateway.Prelude.Bytes.{codes, beq}
use vxapigateway.Client.{Request}
use vxapigateway.Proxy.{forwarded_host, forwarded_proto, director}
use vxapigateway.Proxy.Chain.{director-chain}

abbrev request : Request
request = record {
  method = codes "GET";
  host = codes "a.b";
  path = codes "/x";
  remote_addr = codes "10.0.0.7:90";
  headers = λ name. [];
}

-- A director that puts a path in front.
abbrev inner : Request → Request
inner r = record r { path = codes "/api/x" }

director-chain_example :
    let between = director inner (codes "u") true true request in
    let last = director inner (codes "v") true false between in
    (between.headers forwarded_host ≡ codes "a.b")
    × (between.headers forwarded_proto ≡ codes "https")
    × (last.headers forwarded_host ≡ codes "a.b")
    × (last.headers forwarded_proto ≡ codes "https")
    × (true ≡ true → true ≡ true → last.host ≡ codes "a.b")
unfolding beq
director-chain_example =
    director-chain inner inner (codes "u") (codes "v") true true true false (λ r. refl) (λ r. refl)
      request (λ e. absurd (cc e))
