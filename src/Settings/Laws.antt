-- ===== src/Settings/Laws.antt =====
-- Lists, variables and routes of the environment.
use mathlib.Core.Option.{none-ne-some, some-injective}
use mathlib.Core.Bool.{true≢false}
use vxapigateway.Prelude.{
  ℕ, ◌+◌, ◌≤◌, ◌<◌, ◌≡◌, ◌≢◌, ◌⊎◌, inl, inr, refl, sym, ap, ap₂, ◌∙◌, subst, Bool, true, false,
  ◌&&◌, List, [], ◌∷◌, ◌++◌, Option, none, some, All, length, length-append, arith, ltb, ◌==◌,
  Bool-cases,
}
use vxapigateway.Prelude.Bytes.{Bytes, beq, has_suffix, trim_suffix}
use vxapigateway.Prelude.BytesLaws.{
  beq_iff, has_suffix_sound, has_suffix-append, trim_suffix-append,
}
use vxapigateway.Upstream.{ServiceRoute}
use vxapigateway.Settings.{
  insert_suffix, by_length, split_variable, Group, read_environment, named_route, named_routes,
  load_env_named_routes,
}

-- A text is one of a list.
abbrev pub IsListed : Bytes → List Bytes → Type 0
IsListed x [] = ⊥
IsListed x (s ∷ ss) = (x ≡ s) ⊎ IsListed x ss

-- The suffix `sfx` stands at the end of the text, behind a name and an underscore.
abbrev pub Ends : Bytes → Bytes → Type 0
Ends sfx rest = (name : Bytes) × (name ≢ []) × (rest ≡ name ++ (b'_' ∷ sfx))

abbrev pub IsFalling : List Bytes → Type 0
IsFalling [] = Unit {0}
IsFalling (s ∷ ss) = All (λ t. length t ≤ length s) ss × IsFalling ss

insert_suffix-All :
    (P : Bytes → Type 0) (s : Bytes) (ss : List Bytes) → P s → All P ss → All P (insert_suffix s ss)
unfolding insert_suffix
insert_suffix-All P s [] h k = (h, tt)
insert_suffix-All P s (t ∷ ss) h (p, k) = elim (Bool-cases (ltb (length s) (length t))) [
  | inl e ↦ rw (e, insert_suffix) (p, insert_suffix-All P s ss h k)
  | inr e ↦ rw (e, insert_suffix) (h, (p, k))
]

All-le :
    (m n : ℕ) (ss : List Bytes) → m ≤ n → All (λ t. length t ≤ m) ss → All (λ t. length t ≤ n) ss
All-le m n [] h k = tt
All-le m n (s ∷ ss) h (p, k) = (omega arith, All-le m n ss h k)

insert_suffix-IsFalling :
    (s : Bytes) (ss : List Bytes) → IsFalling ss → IsFalling (insert_suffix s ss)
unfolding insert_suffix
insert_suffix-IsFalling s [] h = (tt, tt)
insert_suffix-IsFalling s (t ∷ ss) (p, h) = elim (Bool-cases (ltb (length s) (length t))) [
  | inl e ↦
      rw (e, insert_suffix)
        (
          insert_suffix-All (λ u. length u ≤ length t) s ss (ground (arith, e)) p,
          insert_suffix-IsFalling s ss h,
        )
  | inr e ↦
      let le : length t ≤ length s = ground (arith, e) in
      rw (e, insert_suffix) ((le, All-le (length t) (length s) ss le p), (p, h))
]

by_length-IsFalling : (ss : List Bytes) → IsFalling (by_length ss)
unfolding by_length
by_length-IsFalling [] = tt
by_length-IsFalling (s ∷ ss) = insert_suffix-IsFalling s (by_length ss) (by_length-IsFalling ss)

All-insert_suffix :
    (P : Bytes → Type 0) (s : Bytes) (ss : List Bytes) → All P (insert_suffix s ss) → P s × All P ss
unfolding insert_suffix
All-insert_suffix P s [] h = h
All-insert_suffix P s (t ∷ ss) h = elim (Bool-cases (ltb (length s) (length t))) [
  | inl e ↦
      let (p, k) = rw (e, insert_suffix) at h in
      let (q, r) = All-insert_suffix P s ss k in (q, (p, r))
  | inr e ↦ rw (e, insert_suffix) at h
]

All-by_length : (P : Bytes → Type 0) (ss : List Bytes) → All P (by_length ss) → All P ss
unfolding by_length
All-by_length P [] h = tt
All-by_length P (s ∷ ss) h =
    let (p, k) = All-insert_suffix P s (by_length ss) h in (p, All-by_length P ss k)

-- The test of one suffix.
abbrev fits : Bytes → Bytes → Bool
fits sfx rest = ltb (length sfx + 1) (length rest) && has_suffix rest (b'_' ∷ sfx)

fits-Ends :
    (sfx rest : Bytes)
    → fits sfx rest ≡ true
    → (n : Bytes) × (n ≢ []) × (rest ≡ n ++ (b'_' ∷ sfx)) × (trim_suffix rest (b'_' ∷ sfx) ≡ n)
fits-Ends sfx rest h =
    let (n, e) = has_suffix_sound rest (b'_' ∷ sfx) (ground (arith, h)) in
    (
      n,
      (λ empty. ground (arith, h, ap length e, length-append n (b'_' ∷ sfx), ap length empty)),
      e,
      ap (λ r. trim_suffix r (b'_' ∷ sfx)) e ∙ trim_suffix-append n (b'_' ∷ sfx),
    )

Ends-fits : (sfx rest : Bytes) → Ends sfx rest → fits sfx rest ≡ true
Ends-fits sfx rest ([], nonempty, e) = absurd (nonempty refl)
Ends-fits sfx rest (c ∷ n, nonempty, e) = ground (
  arith,
  ap length e,
  length-append (c ∷ n) (b'_' ∷ sfx),
  rw (sym e) at (has_suffix-append (c ∷ n) (b'_' ∷ sfx)),
)

-- Every suffix of a sorted list is a suffix of the list.
mem-insert_suffix :
    (x s : Bytes) (ss : List Bytes) → IsListed x (insert_suffix s ss) → IsListed x (s ∷ ss)
unfolding insert_suffix
mem-insert_suffix x s [] h = h
mem-insert_suffix x s (t ∷ ss) h = elim (Bool-cases (ltb (length s) (length t))) [
  | inr e ↦ rw (e, insert_suffix) at h
  | inl e ↦ later (mem-insert_suffix x s ss) (rw (e, insert_suffix) at h)
]
  where
    rest : IsListed x (s ∷ ss) → IsListed x (s ∷ t ∷ ss)
    rest (inl same) = inl same
    rest (inr k) = inr (inr k)

    later :
        (IsListed x (insert_suffix s ss) → IsListed x (s ∷ ss))
        → (x ≡ t) ⊎ IsListed x (insert_suffix s ss)
        → IsListed x (s ∷ t ∷ ss)
    later ih (inl same) = inr (inl same)
    later ih (inr k) = rest (ih k)

mem-by_length : (x : Bytes) (ss : List Bytes) → IsListed x (by_length ss) → IsListed x ss
unfolding by_length
mem-by_length x [] h = h
mem-by_length x (s ∷ ss) h = first (mem-by_length x ss) (mem-insert_suffix x s (by_length ss) h)
  where
    first :
        (IsListed x (by_length ss) → IsListed x ss)
        → IsListed x (s ∷ by_length ss)
        → IsListed x (s ∷ ss)
    first ih (inl same) = inl same
    first ih (inr k) = inr (ih k)

abbrev IsLongest : List Bytes → Bytes → Bytes → Bytes → Type 0
IsLongest suffixes rest name sfx =
    IsListed sfx suffixes
    × (name ≢ [])
    × (rest ≡ name ++ (b'_' ∷ sfx))
    × All (λ t. Ends t rest → length t ≤ length sfx) suffixes

All-imp :
    {P Q : Bytes → Type 0} (f : (t : Bytes) → P t → Q t) (ss : List Bytes) → All P ss → All Q ss
All-imp f [] h = tt
All-imp f (s ∷ ss) (p, h) = (f s p, All-imp f ss h)

split_variable-falling :
    (ss : List Bytes) (rest name sfx : Bytes)
    → IsFalling ss
    → split_variable ss rest ≡ some (name, sfx)
    → IsLongest ss rest name sfx
unfolding split_variable
split_variable-falling [] rest name sfx falling e = absurd (none-ne-some _ e)
split_variable-falling (s ∷ ss) rest name sfx (below, falling) e = elim (Bool-cases (fits s rest)) [
  | inl h ↦
      let (n, nonempty, split, trimmed_name) = fits-Ends s rest h in
      let found : ◌≡◌ {A = Bytes × Bytes} (trim_suffix rest (b'_' ∷ s), s) (name, sfx) =
        some-injective _ _ (rw (h, split_variable) at e) in
      let same : s ≡ sfx = ap (λ p. p.1) found in
      let named : n ≡ name = sym trimmed_name ∙ ap (λ p. p.0) found in
      (
        inl (sym same),
        subst (λ m. m ≢ []) named nonempty,
        split ∙ ap₂ (λ m t. m ++ (b'_' ∷ t)) named same,
        (
          (λ ends. omega (arith, ap length same)),
          All-imp (λ t le ends. omega (arith, ap length same)) ss below,
        ),
      )
  | inr h ↦
      let (mem, nonempty, split, longest) =
        split_variable-falling ss rest name sfx falling (rw (h, split_variable) at e) in
      (
        inr mem,
        nonempty,
        split,
        ((λ ends. absurd (true≢false (sym (Ends-fits s rest ends) ∙ h))), longest),
      )
]

-- A variable ROUTE_<rest> is read as a name and the longest of the suffixes that it ends in: the
-- suffix is one of the list, the name is not empty, name and suffix, with an underscore between them,
-- make up the text, and no longer suffix of the list would do.
pub split_variable-longest :
    (suffixes : List Bytes) (rest name sfx : Bytes)
    → split_variable (by_length suffixes) rest ≡ some (name, sfx)
    → IsListed sfx suffixes
      × (name ≢ [])
      × (rest ≡ name ++ (b'_' ∷ sfx))
      × All (λ t. Ends t rest → length t ≤ length sfx) suffixes
split_variable-longest suffixes rest name sfx e =
    let (mem, nonempty, split, longest) =
      split_variable-falling (by_length suffixes) rest name sfx (by_length-IsFalling suffixes) e in
    (
      mem-by_length sfx suffixes mem,
      nonempty,
      split,
      All-by_length (λ t. Ends t rest → length t ≤ length sfx) suffixes longest,
    )

module _ (parse_bool : Bytes → Option Bool) (atoi : Bytes → Option ℕ) where
  -- Somewhere to send traffic.
  abbrev pub HasUpstream : ServiceRoute → Type 0
  HasUpstream r = (r.target_url ≢ []) ⊎ (0 < length r.targets)

  upstream : (url : Bytes) (n : ℕ) → (beq url [] && (n == 0)) ≡ false → (url ≢ []) ⊎ (0 < n)
  upstream [] n e = inr (ground (arith, e, beq_iff [] []))
  upstream (c ∷ url) n e = inl (λ h. cc)

  named_routes-HasUpstream :
      (values : Bytes → Group) (names : List Bytes)
      → All HasUpstream (named_routes parse_bool atoi values names)
  unfolding named_routes
  named_routes-HasUpstream values [] = tt
  named_routes-HasUpstream values (name ∷ names) =
      let r = named_route parse_bool atoi name (values name) in
      elim (Bool-cases (beq r.target_url [] && (length r.targets == 0))) [
        | inl e ↦ rw (e, named_routes) (named_routes-HasUpstream values names)
        | inr e ↦
            rw (e, named_routes)
              (upstream r.target_url (length r.targets) e, named_routes-HasUpstream values names)
      ]

  -- Every route that the environment declares by name has somewhere to send traffic.
  pub load_env_named_routes-HasUpstream :
      (environment : List Bytes)
      → All HasUpstream (load_env_named_routes parse_bool atoi environment)
  unfolding load_env_named_routes
  load_env_named_routes-HasUpstream environment =
      let g = read_environment environment (record { names = []; values = λ n k. none }) in
      named_routes-HasUpstream g.values g.names
