-- ===== src/Server/Headers.antt =====
-- The headers that the middlewares set before the mux chooses a handler.
use vxapigateway.Prelude.{◌≡◌, ◌≢◌, refl, ◌∙◌, inl, inr, [], arith, Bool-cases, if◌then◌else◌}
use vxapigateway.Prelude.Bytes.{Bytes, codes, beq, update}
use vxapigateway.Prelude.BytesLaws.{beq_iff, beq_refl}
use vxapigateway.Client.{Request, set_header}
use vxapigateway.Gateway.{Services, Gateway}
use vxapigateway.Server.{
  Headers, request_id, security_headers, set_all, Visit, Served, endpoints, handle_found, serve_mux,
  security_headers_middleware, request_id_middleware, generate_request_id, serve,
}

-- The identifier of a request: the client's, or else a new one.
abbrev pub identifier : Visit → Request → Bytes
identifier v r =
    if beq (r.headers request_id) []
    then generate_request_id v.hex v.random v.unix_nano
    else r.headers request_id

-- The security headers of the README with their values; package http writes X-XSS-Protection as
-- X-Xss-Protection.
abbrev pub IsSecured : Headers → Type 0
IsSecured h =
    (h (codes "X-Content-Type-Options") ≡ codes "nosniff")
    × (h (codes "X-Frame-Options") ≡ codes "DENY")
    × (h (codes "Strict-Transport-Security") ≡ codes "max-age=63072000; includeSubDomains")
    × (h (codes "Content-Security-Policy") ≡ codes "default-src 'self'")
    × (h (codes "X-Xss-Protection") ≡ codes "1; mode=block")
    × (h (codes "Referrer-Policy") ≡ codes "strict-origin-when-cross-origin")

-- What `serve` has done before the mux: the headers, and the request that the mux sees.
pub record IsDressed (services : Services) (v : Visit) (r : Request) (g : Gateway services)
    (out : Served services) : Type 0 where
  pub identified : out.headers request_id ≡ identifier v r
  pub handed_on : out.request.headers request_id ≡ identifier v r
  pub secured : IsSecured out.headers
  pub unchanged :
      (out.request.method ≡ r.method)
      × (out.request.path ≡ r.path)
      × (out.request.host ≡ r.host)
      × (out.request.remote_addr ≡ r.remote_addr)
  pub other_headers : (name : Bytes) → name ≢ request_id → out.request.headers name ≡ r.headers name
  pub dispatched :
      (out.gateway, out.answer)
      ≡ handle_found services v (v.mux endpoints out.request) out.request g

-- The request and the headers that the middlewares hand on.
record IsPrepared (v : Visit) (r q : Request) (h : Headers) : Type 0 where
  named : h request_id ≡ identifier v r
  seen : q.headers request_id ≡ identifier v r
  secure : IsSecured h
  same :
      (q.method ≡ r.method)
      × (q.path ≡ r.path)
      × (q.host ≡ r.host)
      × (q.remote_addr ≡ r.remote_addr)
  same_headers : (name : Bytes) → name ≢ request_id → q.headers name ≡ r.headers name

module _ (services : Services) (v : Visit) where
  serve_mux-IsDressed :
      (r q : Request) (g : Gateway services) (h : Headers)
      → IsPrepared v r q h
      → IsDressed services v r g (serve_mux services v g q h)
  unfolding serve_mux
  serve_mux-IsDressed r q g h p = record {
    identified = p.named;
    handed_on = p.seen;
    secured = p.secure;
    unchanged = p.same;
    other_headers = p.same_headers;
    dispatched = refl;
  }

  set_all-secure :
      (id : Bytes) → IsSecured (update (set_all security_headers (λ name. [])) request_id id)
  unfolding set_all beq
  set_all-secure id = (refl, refl, refl, refl, refl, refl)

  update_self : (h : Bytes → Bytes) (id : Bytes) → update h request_id id request_id ≡ id
  update_self h id = rw (beq_refl request_id) refl

  update_other :
      (h : Bytes → Bytes) (id name : Bytes)
      → name ≢ request_id
      → update h request_id id name ≡ h name
  update_other h id name other = ground (arith, beq_iff request_id name)

  request_id_middleware-IsDressed :
      (r : Request) (g : Gateway services)
      → IsDressed services v r g (
          request_id_middleware
            (generate_request_id v.hex v.random v.unix_nano)
            (serve_mux services v g)
            r
            (set_all security_headers (λ name. [])))
  unfolding request_id_middleware
  request_id_middleware-IsDressed r g = elim (Bool-cases (beq (r.headers request_id) [])) [
    | inl e ↦
        let fresh = generate_request_id v.hex v.random v.unix_nano in
        let is_fresh : fresh ≡ identifier v r = rw e refl in
        rw (e, request_id_middleware)
          (serve_mux-IsDressed r (set_header request_id fresh r) g
            (update (set_all security_headers (λ name. [])) request_id fresh)
            (record {
              named = update_self (set_all security_headers (λ name. [])) fresh ∙ is_fresh;
              seen = update_self r.headers fresh ∙ is_fresh;
              secure = set_all-secure fresh;
              same = (refl, refl, refl, refl);
              same_headers = λ name other. update_other r.headers fresh name other;
            }))
    | inr e ↦
        let id = r.headers request_id in
        let is_own : id ≡ identifier v r = rw e refl in
        rw (e, request_id_middleware)
          (serve_mux-IsDressed r r g (update (set_all security_headers (λ name. [])) request_id id)
            (record {
              named = update_self (set_all security_headers (λ name. [])) id ∙ is_own;
              seen = is_own;
              secure = set_all-secure id;
              same = (refl, refl, refl, refl);
              same_headers = λ name other. refl;
            }))
  ]

  -- When the handler that the mux chooses starts, the headers of the response hold the six security
  -- headers with the values of `IsSecured`, DENY for X-Frame-Options among them, and the identifier of
  -- the request: that of the client, if it sent one, or else a new one. The handler gets the client's
  -- request with the same identifier, and otherwise unchanged, and what it answers is the result.
  pub serve-IsDressed :
      (r : Request) (g : Gateway services) → IsDressed services v r g (serve services v r g)
  unfolding serve security_headers_middleware
  serve-IsDressed r g = request_id_middleware-IsDressed r g
