-- ===== src/Proxy/Chain.antt =====
-- What an upstream learns of the client's request.
use vxapigateway.Prelude.{
  ◌≡◌, ◌≢◌, refl, sym, ap, ◌∙◌, subst, inl, inr, Bool, true, false, [], ◌∷◌, arith, Bool-cases,
  if◌then◌else◌,
}
use vxapigateway.Prelude.Bytes.{Bytes, codes, beq}
use vxapigateway.Prelude.BytesLaws.{beq_iff}
use vxapigateway.Client.{Request}
use vxapigateway.Proxy.{forwarded_proto, forwarded_host, client_scheme, director}

-- The director of package httputil leaves the header X-Forwarded-Host alone.
abbrev pub KeepsForwardedHost : (Request → Request) → Type 0
KeepsForwardedHost inner =
    (r : Request) → (inner r).headers forwarded_host ≡ r.headers forwarded_host

-- The host and the scheme of the URL that the client asked for, as a proxy in front has named them,
-- or else those of the request itself.
abbrev pub public_host : Request → Bytes
public_host r = if beq (r.headers forwarded_host) [] then r.host else r.headers forwarded_host

-- The scheme of that URL: the text of X-Forwarded-Proto, if the client has sent one, or else "https" on
-- a TLS connection and "http" on another.
abbrev pub public_scheme : Bool → Bytes → Bytes
public_scheme is_tls (c ∷ proto) = c ∷ proto
public_scheme true [] = codes "https"
public_scheme false [] = codes "http"

client_scheme_lem :
    (is_tls : Bool) (r : Request)
    → client_scheme is_tls r ≡ public_scheme is_tls (r.headers forwarded_proto)
unfolding client_scheme beq
client_scheme_lem is_tls r = cases is_tls (r.headers forwarded_proto)
  where
    cases :
        (b : Bool) (proto : Bytes)
        → (if beq proto [] then if b then codes "https" else codes "http" else proto)
          ≡ public_scheme b proto
    cases true [] = refl
    cases false [] = refl
    cases true (c ∷ proto) = refl
    cases false (c ∷ proto) = refl

module _ (inner : Request → Request) (target_host : Bytes) (preserve_host is_tls : Bool)
    (keeps : KeepsForwardedHost inner) where
  abbrev directed : Request → Request
  directed r = director inner target_host preserve_host is_tls r

  directed-host : (r : Request) → (directed r).headers forwarded_host ≡ public_host r
  unfolding director beq
  directed-host r = elim (Bool-cases (beq (r.headers forwarded_host) [])) [
    | inr given ↦ rw (director, keeps r, given) (keeps r)
    | inl missing ↦ elim (Bool-cases (beq r.host [])) [
      | inl empty ↦
          rw (director, keeps r, missing, empty)
            (keeps r
              ∙ (beq_iff (r.headers forwarded_host) []).0 missing
              ∙ sym ((beq_iff r.host []).0 empty))
      | inr host ↦ rw (director, keeps r, missing, host) refl
    ]
  ]

  directed-proto : (r : Request) → (directed r).headers forwarded_proto ≡ client_scheme is_tls r
  unfolding director beq
  directed-proto r = refl

  directed-request_host :
      (r : Request) → (directed r).host ≡ (if preserve_host then r.host else target_host)
  unfolding director
  directed-request_host r = refl

scheme-named : (is_tls : Bool) (r : Request) → client_scheme is_tls r ≢ []
unfolding client_scheme
scheme-named is_tls r e = elim (Bool-cases (beq (r.headers forwarded_proto) [])) [
  | inr given ↦ ground (arith, beq_iff (r.headers forwarded_proto) [])
  | inl missing ↦ plain is_tls (rw missing at e)
]
  where
    plain : (b : Bool) → ¬ ((if b then codes "https" else codes "http") ≡ [])
    plain true h = absurd (cc h)
    plain false h = absurd (cc h)

-- A backend learns the host and the scheme that the client asked for, also behind a second gateway of
-- other settings: in a chain of two, the second one passes on what the first one has named. The scheme
-- is the one of the first gateway's X-Forwarded-Proto, or else "https" where the client's connection to
-- it has TLS and "http" where it has not. If both routes keep the host, the last request is for the
-- client's. The client's request names a host, and the director of package httputil leaves
-- X-Forwarded-Host alone.
pub director-chain :
    (first second : Request → Request) (host_1 host_2 : Bytes)
    (preserve_1 preserve_2 tls_1 tls_2 : Bool)
    → KeepsForwardedHost first
    → KeepsForwardedHost second
    → (r : Request) → public_host r ≢ []
    → let between = director first host_1 preserve_1 tls_1 r in
      let last = director second host_2 preserve_2 tls_2 between in
      (between.headers forwarded_host ≡ public_host r)
      × (between.headers forwarded_proto ≡ public_scheme tls_1 (r.headers forwarded_proto))
      × (last.headers forwarded_host ≡ public_host r)
      × (last.headers forwarded_proto ≡ public_scheme tls_1 (r.headers forwarded_proto))
      × (preserve_1 ≡ true → preserve_2 ≡ true → last.host ≡ r.host)
unfolding client_scheme
director-chain first second host_1 host_2 preserve_1 preserve_2 tls_1 tls_2 keeps_1 keeps_2 r
      named =
    let between = director first host_1 preserve_1 tls_1 r in
    let host = directed-host first host_1 preserve_1 tls_1 keeps_1 r in
    let proto = directed-proto first host_1 preserve_1 tls_1 keeps_1 r in
    let has_host : beq (between.headers forwarded_host) [] ≡ false =
      unset (between.headers forwarded_host) (subst (λ h. h ≢ []) (sym host) named) in
    let has_proto : beq (between.headers forwarded_proto) [] ≡ false =
      unset (between.headers forwarded_proto)
        (subst (λ h. h ≢ []) (sym proto) (scheme-named tls_1 r)) in
    (
      host,
      proto ∙ client_scheme_lem tls_1 r,
      directed-host second host_2 preserve_2 tls_2 keeps_2 between
          ∙ ap (λ b. if b then between.host else between.headers forwarded_host) has_host
          ∙ host,
      directed-proto second host_2 preserve_2 tls_2 keeps_2 between
          ∙ ap
              (λ b.
                if b
                then (if tls_2 then codes "https" else codes "http")
                else between.headers forwarded_proto)
              has_proto
          ∙ proto
          ∙ client_scheme_lem tls_1 r,
      λ on_1 on_2.
          directed-request_host second host_2 preserve_2 tls_2 keeps_2 between
          ∙ ap (λ b. if b then between.host else host_2) on_2
          ∙ directed-request_host first host_1 preserve_1 tls_1 keeps_1 r
          ∙ ap (λ b. if b then r.host else host_1) on_1,
    )
  where
    unset : (h : Bytes) → h ≢ [] → beq h [] ≡ false
    unset h other = ground (arith, beq_iff h [])
