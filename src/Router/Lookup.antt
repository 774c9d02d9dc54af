-- ===== src/Router/Lookup.antt =====
-- What `Route` returns: the most specific entry that covers the request.
use vxapigateway.Prelude.{
  ℕ, zero, suc, ◌≤◌, ◌≡◌, ◌↔◌, inl, inr, refl, sym, ap, ◌∙◌, true, false, ◌&&◌, List, [], ◌∷◌, none,
  some, All, get_elem?, All-get_elem?, arith, Bool-cases,
}
use vxapigateway.Prelude.Bytes.{Bytes}
use vxapigateway.Host.{normalize_host, host_matches, path_matches}
use vxapigateway.Router.{
  RouteEntry, MatchedRoute, ServiceRouter, more_specific, matched, route_loop, route,
}
use vxapigateway.Router.Order.{
  IsOrdered, more_specific_asymm, Outranks, IsRanked, IsRanked-IsOrdered, not_more_specific_iff,
}

-- The entry's host pattern and prefix cover a reduced host and a path.
abbrev pub CoversRequest : Bytes → Bytes → RouteEntry → Type 0
CoversRequest host path e = (host_matches e.host host ≡ true) × (path_matches e.prefix path ≡ true)

-- The entry at position `i` covers the request, and none in front of it does.
abbrev pub IsFirst : List RouteEntry → Bytes → Bytes → RouteEntry → ℕ → Type 0
IsFirst es host path e i =
    (get_elem? es i ≡ some e)
    × CoversRequest host path e
    × ((j : ℕ) (f : RouteEntry) → get_elem? es j ≡ some f → CoversRequest host path f → i ≤ j)

IsFirst-cons :
    (x e : RouteEntry) (es : List RouteEntry) (host path : Bytes) (i : ℕ)
    → (host_matches x.host host && path_matches x.prefix path) ≡ false
    → IsFirst es host path e i
    → IsFirst (x ∷ es) host path e (suc i)
IsFirst-cons x e es host path i miss (at, covers, first) = (at, covers, later)
  where
    later :
        (j : ℕ) (f : RouteEntry)
        → get_elem? (x ∷ es) j ≡ some f
        → CoversRequest host path f
        → suc i ≤ j
    later zero f g c = absurd (ground (arith))
    later (suc j) f g c = omega (arith, first j f g c)

route_loop-IsFirst :
    (es : List RouteEntry) (host path : Bytes) (m : MatchedRoute)
    → route_loop es host path ≡ some m
    → (e : RouteEntry) × (i : ℕ) × (m ≡ matched e path) × IsFirst es host path e i
unfolding route_loop
route_loop-IsFirst [] host path m h = absurd (cc h)
route_loop-IsFirst (x ∷ es) host path m h =
    elim (Bool-cases (host_matches x.host host && path_matches x.prefix path)) [
      | inl hit ↦ (x, 0, ground arith, (refl, ground arith, λ j f g c. omega arith))
      | inr miss ↦
          let (e, i, same, first) = route_loop-IsFirst es host path m (rw miss at h) in
          (e, suc i, same, IsFirst-cons x e es host path i miss first)
    ]

route_loop-none_iff :
    (es : List RouteEntry) (host path : Bytes)
    → (route_loop es host path ≡ none) ↔ All (λ e. ¬ CoversRequest host path e) es
unfolding route_loop
route_loop-none_iff [] host path = (λ _. tt, λ _. refl)
route_loop-none_iff (x ∷ es) host path =
    elim (Bool-cases (host_matches x.host host && path_matches x.prefix path)) [
      | inl hit ↦ (λ h. absurd (ground arith), λ a. absurd (a.0 (ground arith)))
      | inr miss ↦
          let (to, from) = route_loop-none_iff es host path in
          (λ h. ((λ c. ground arith), to (rw miss at h)), λ a. rw miss (from a.1))
    ]

IsOrdered-get_elem? :
    (es : List RouteEntry) (i j : ℕ) (e f : RouteEntry)
    → IsOrdered es
    → get_elem? es i ≡ some e
    → get_elem? es j ≡ some f
    → i ≤ j
    → more_specific f e ≡ false
IsOrdered-get_elem? [] i j e f h g k le = absurd (ground arith)
IsOrdered-get_elem? (x ∷ es) zero zero e f h g k le = elim (Bool-cases (more_specific f e)) [
  | inl less ↦ absurd (irreflexive (ground arith) less)
  | inr other ↦ other
]
  where
    irreflexive : f ≡ e → more_specific f e ≡ true → ⊥
    irreflexive same less = cc (more_specific_asymm f e less, same)
IsOrdered-get_elem? (x ∷ es) zero (suc j) e f h g k le =
    let same : x ≡ e = ground arith in
    ap (more_specific f) (sym same) ∙ All-get_elem? (λ y. more_specific y x ≡ false) es j f h.0 k
IsOrdered-get_elem? (x ∷ es) (suc i) zero e f h g k le = absurd (omega arith)
IsOrdered-get_elem? (x ∷ es) (suc i) (suc j) e f h g k le =
    IsOrdered-get_elem? es i j e f h.1 g k (omega arith)

-- With the table in the order of ranks, a request is routed by the first entry that covers it, and no
-- entry that covers it outranks that one: by an exact host over a wildcard, by a wildcard over "", then
-- by the longer host, then by the longer prefix.
pub route-most_specific :
    (sr : ServiceRouter) (host path : Bytes) (m : MatchedRoute)
    → IsRanked sr.routes
    → route sr host path ≡ some m
    → (e : RouteEntry) × (i : ℕ) × (m ≡ matched e path)
      × IsFirst sr.routes (normalize_host host) path e i
      × ((j : ℕ) (f : RouteEntry)
          → get_elem? sr.routes j ≡ some f
          → CoversRequest (normalize_host host) path f
          → ¬ Outranks f e)
unfolding route
route-most_specific sr host path m ranked h =
    let ordered = IsRanked-IsOrdered sr.routes ranked in
    let (e, i, same, first) = route_loop-IsFirst sr.routes (normalize_host host) path m h in
    (
      e,
      i,
      same,
      first,
      λ j f g c.
          (not_more_specific_iff f e).0
            (IsOrdered-get_elem? sr.routes i j e f ordered first.0 g (first.2 j f g c)),
    )

-- No route is found exactly when no entry covers the request.
pub route-none_iff :
    (sr : ServiceRouter) (host path : Bytes)
    → (route sr host path ≡ none)
      ↔ All (λ e. ¬ CoversRequest (normalize_host host) path e) sr.routes
unfolding route
route-none_iff sr host path = route_loop-none_iff sr.routes (normalize_host host) path
