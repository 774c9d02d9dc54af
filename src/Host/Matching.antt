-- ===== src/Host/Matching.antt =====
-- What `hostMatches` and `pathMatches` accept.
use mathlib.Core.List.{append-nil}
use vxapigateway.Prelude.{
  ◌<◌, ◌≡◌, ◌≢◌, ◌↔◌, ◌⊎◌, inl, inr, refl, ap, sym, ◌∙◌, true, false, [], ◌∷◌, ◌++◌, Option, none,
  some, length, ◌==◌, ==_iff, arith, Bool-cases, Option-cases, length-append,
}
use vxapigateway.Prelude.Bytes.{Bytes, codes, beq, strip?, has_suffix}
use vxapigateway.Prelude.BytesLaws.{
  beq_iff, strip?_sound, strip?-append, has_suffix_sound, has_suffix-append,
}
use vxapigateway.Host.{
  normalize_host, host_matches, matches_normal, covers_suffix, path_matches, at_boundary,
}

-- One label or more in front of the suffix.
abbrev pub IsSubdomain : Bytes → Bytes → Type 0
IsSubdomain suffix host = (label : Bytes) × (label ≢ []) × (host ≡ label ++ suffix)

covers_suffix_iff :
    (host suffix : Bytes) → (covers_suffix host (some suffix) ≡ true) ↔ IsSubdomain suffix host
covers_suffix_iff host suffix = (to, from)
  where
    to : covers_suffix host (some suffix) ≡ true → IsSubdomain suffix host
    to h =
        let (label, e) = has_suffix_sound host suffix (ground arith) in
        let longer : length suffix < length host = ground arith in
        (
          label,
          λ empty. ground (arith, ap (λ (x : Bytes). length x) (e ∙ ap (λ x. x ++ suffix) empty)),
          e,
        )

    from : IsSubdomain suffix host → covers_suffix host (some suffix) ≡ true
    from (label, some_label, e) = ground (
      arith,
      positive label some_label,
      length-append label suffix,
      has_suffix-append label suffix,
    )
      where
        positive : (x : Bytes) → x ≢ [] → 0 < length x
        positive [] h = absurd (h refl)
        positive (c ∷ x) h = omega arith

abbrev MatchesNormal : Bytes → Bytes → Type 0
MatchesNormal normal host =
    (normal ≡ host) ⊎ ((suffix : Bytes) × (normal ≡ b'*' ∷ suffix) × IsSubdomain suffix host)

matches_normal_iff :
    (normal host : Bytes) → (matches_normal normal host ≡ true) ↔ MatchesNormal normal host
unfolding matches_normal
matches_normal_iff normal host = (to, from)
  where
    to : matches_normal normal host ≡ true → MatchesNormal normal host
    to h = elim (Bool-cases (beq normal host)) [
      | inl same ↦ inl ((beq_iff normal host).0 same)
      | inr other ↦ elim (Option-cases (strip? (codes "*") normal)) [
        | inl e ↦ absurd (cc (rw (matches_normal, other, e) at h))
        | inr (suffix, e) ↦ inr (
          suffix,
          strip?_sound (codes "*") normal suffix e,
          (covers_suffix_iff host suffix).0 (rw (matches_normal, other, e) at h),
        )
      ]
    ]

    from : MatchesNormal normal host → matches_normal normal host ≡ true
    from (inl same) = rw (matches_normal, (beq_iff normal host).1 same) refl
    from (inr (suffix, e, sub)) = elim (Bool-cases (beq normal host)) [
      | inl same ↦ rw (matches_normal, same) refl
      | inr other ↦
          rw (matches_normal, other, ap (strip? (codes "*")) e ∙ strip?-append (codes "*") suffix)
            ((covers_suffix_iff host suffix).1 sub)
    ]

-- A host pattern covers a reduced host exactly when it is empty, reduces to that host, or reduces to
-- a star and a suffix of the host with something in front.
pub host_matches_iff :
    (pattern host : Bytes)
    → (host_matches pattern host ≡ true) ↔ (
        (pattern ≡ [])
        ⊎ ((normalize_host pattern ≡ host)
            ⊎ ((suffix : Bytes) × (normalize_host pattern ≡ b'*' ∷ suffix)
                × IsSubdomain suffix host)))
unfolding host_matches
host_matches_iff pattern host = elim (Bool-cases (beq pattern [])) [
  | inl empty ↦ (λ _. inl ((beq_iff pattern []).0 empty), λ _. rw (host_matches, empty) refl)
  | inr some_pattern ↦
      let e : host_matches pattern host ≡ matches_normal (normalize_host pattern) host =
        rw (host_matches, some_pattern) refl in
      let (to, from) = matches_normal_iff (normalize_host pattern) host in
      (λ h. inr (to (sym e ∙ h)), λ m. e ∙ from (named some_pattern m))
]
  where
    named :
        beq pattern [] ≡ false
        → ((pattern ≡ []) ⊎ MatchesNormal (normalize_host pattern) host)
        → MatchesNormal (normalize_host pattern) host
    named h (inl empty) = absurd (cc ((beq_iff pattern []).1 empty, h))
    named h (inr m) = m

abbrev AtBoundary : Bytes → Bytes → Type 0
AtBoundary prefix path =
    (path ≡ prefix)
    ⊎ (((rest : Bytes) × (path ≡ prefix ++ (b'/' ∷ rest)))
        ⊎ ((rest : Bytes) × (path ≡ prefix ++ rest) × (has_suffix prefix (codes "/") ≡ true)))

at_boundary_sound :
    (prefix path : Bytes) (o : Option Bytes)
    → strip? prefix path ≡ o
    → at_boundary prefix o ≡ true
    → AtBoundary prefix path
at_boundary_sound prefix path none e h = absurd (cc h)
at_boundary_sound prefix path (some []) e h =
    inl (strip?_sound prefix path [] e ∙ append-nil prefix)
at_boundary_sound prefix path (some (c ∷ rest)) e h = elim (Bool-cases (c == b'/')) [
  | inl slash ↦ inr (
      inl (
        rest,
        strip?_sound prefix path (c ∷ rest) e
            ∙ ap (λ x. prefix ++ (x ∷ rest)) ((==_iff c b'/').0 slash),
      ))
  | inr other ↦ inr (inr (c ∷ rest, strip?_sound prefix path (c ∷ rest) e, rw other at h))
]

at_boundary_complete :
    (prefix path : Bytes) → AtBoundary prefix path → at_boundary prefix (strip? prefix path) ≡ true
at_boundary_complete prefix path (inl e) =
    rw (ap (strip? prefix) (e ∙ sym (append-nil prefix)) ∙ strip?-append prefix []) refl
at_boundary_complete prefix path (inr (inl (rest, e))) =
    rw (ap (strip? prefix) e ∙ strip?-append prefix (b'/' ∷ rest)) refl
at_boundary_complete prefix path (inr (inr ([], e, slash))) =
    rw (ap (strip? prefix) e ∙ strip?-append prefix []) refl
at_boundary_complete prefix path (inr (inr (c ∷ rest, e, slash))) =
    rw (ap (strip? prefix) e ∙ strip?-append prefix (c ∷ rest)) (ground (arith, slash))

-- A prefix covers a path exactly on a segment boundary: an empty prefix and "/" cover every path, a
-- prefix covers itself and what continues it by "/", and a prefix that ends in "/" covers whatever
-- begins with it.
pub path_matches_iff :
    (prefix path : Bytes)
    → (path_matches prefix path ≡ true) ↔ (
        (prefix ≡ [])
        ⊎ ((prefix ≡ codes "/")
            ⊎ ((path ≡ prefix)
                ⊎ (((rest : Bytes) × (path ≡ prefix ++ (b'/' ∷ rest)))
                    ⊎ ((rest : Bytes) × (path ≡ prefix ++ rest)
                        × (has_suffix prefix (codes "/") ≡ true))))))
unfolding path_matches
path_matches_iff prefix path = (to, from)
  where
    to :
        path_matches prefix path ≡ true
        → ((prefix ≡ []) ⊎ ((prefix ≡ codes "/") ⊎ AtBoundary prefix path))
    to h = elim (Bool-cases (beq prefix [])) [
      | inl empty ↦ inl ((beq_iff prefix []).0 empty)
      | inr a ↦ elim (Bool-cases (beq prefix (codes "/"))) [
        | inl root ↦ inr (inl ((beq_iff prefix (codes "/")).0 root))
        | inr b ↦ inr (
            inr (
              at_boundary_sound prefix path (strip? prefix path) refl
                (rw (path_matches, a, b) at h)))
      ]
    ]

    from :
        ((prefix ≡ []) ⊎ ((prefix ≡ codes "/") ⊎ AtBoundary prefix path))
        → path_matches prefix path ≡ true
    from (inl e) = rw (path_matches, (beq_iff prefix []).1 e) refl
    from (inr (inl e)) = ground (arith, beq_iff prefix (codes "/"))
    from (inr (inr m)) = ground (arith, at_boundary_complete prefix path m)
