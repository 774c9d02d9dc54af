-- ===== src/Router/Order.antt =====
-- The routing table is in order: more specific entries first, equals as they were registered.
use mathlib.Core.List.{Perm}
use mathlib.Core.List.Perm
use vxapigateway.Prelude.{
  ℕ, ◌<◌, ◌≡◌, ◌↔◌, ◌⊎◌, refl, ap, ◌∙◌, Bool, true, false, ◌&&◌, List, [], ◌∷◌, All, arith,
  Bool-cases, inl, inr, length, ◌==◌, if◌then◌else◌,
}
use vxapigateway.Prelude.Bytes.{Bytes, has_prefix, strip?, beq}
use vxapigateway.Host.{host_specificity}
use vxapigateway.Router.{RouteEntry, more_specific, insert_entry, sort_stable}

-- The rank of a host pattern: 0 for "", which any host fits, 1 for "*." and a domain, and 2 for the
-- name of one host.
abbrev pub host_rank : Bytes → ℕ
host_rank [] = 0
host_rank (c ∷ []) = 2
host_rank (c ∷ d ∷ s) = if (c == b'*') && (d == b'.') then 1 else 2

-- One entry comes before another: by the rank of its host, of one rank by the length of its host, and
-- of one length by the length of its prefix.
abbrev pub Outranks : RouteEntry → RouteEntry → Type 0
Outranks a b =
    (host_rank b.host < host_rank a.host)
    ⊎ ((host_rank a.host ≡ host_rank b.host)
        × ((length b.host < length a.host)
            ⊎ ((length a.host ≡ length b.host) × (length b.prefix < length a.prefix))))

host_specificity_lem : (pattern : Bytes) → host_specificity pattern ≡ host_rank pattern
unfolding host_specificity has_prefix strip? beq
host_specificity_lem [] = refl
host_specificity_lem (c ∷ []) = ground arith
host_specificity_lem (c ∷ d ∷ s) = ground arith

pub more_specific_iff : (a b : RouteEntry) → (more_specific a b ≡ true) ↔ Outranks a b
unfolding more_specific
more_specific_iff a b =
    let p = host_specificity_lem a.host in
    let q = host_specificity_lem b.host in
    ((λ h. ground (arith, p, q)), (λ h. ground (arith, p, q)))

pub not_more_specific_iff : (a b : RouteEntry) → (more_specific a b ≡ false) ↔ (¬ Outranks a b)
not_more_specific_iff a b =
    let (to, from) = more_specific_iff a b in
    (
      λ h o. cc (from o, h),
      λ no. elim (Bool-cases (more_specific a b)) [ inl e ↦ absurd (no (to e)) | inr e ↦ e ],
    )

-- No entry comes behind one that it outranks.
abbrev pub IsRanked : List RouteEntry → Type 0
IsRanked [] = Unit {0}
IsRanked (e ∷ es) = All (λ x. ¬ Outranks x e) es × IsRanked es

pub more_specific_asymm : (a b : RouteEntry) → more_specific a b ≡ true → more_specific b a ≡ false
unfolding more_specific
more_specific_asymm a b h = ground arith

pub not_more_specific_trans :
    (a b c : RouteEntry)
    → more_specific a b ≡ false
    → more_specific b c ≡ false
    → more_specific a c ≡ false
unfolding more_specific
not_more_specific_trans a b c h k = ground arith

-- No entry is more specific than one in front of it.
abbrev pub IsOrdered : List RouteEntry → Type 0
IsOrdered [] = Unit {0}
IsOrdered (e ∷ es) = All (λ x. more_specific x e ≡ false) es × IsOrdered es

IsOrdered-IsRanked : (es : List RouteEntry) → IsOrdered es → IsRanked es
IsOrdered-IsRanked [] h = tt
IsOrdered-IsRanked (e ∷ es) (front, h) = (first es front, IsOrdered-IsRanked es h)
  where
    first :
        (xs : List RouteEntry)
        → All (λ x. more_specific x e ≡ false) xs
        → All (λ x. ¬ Outranks x e) xs
    first [] h = tt
    first (x ∷ xs) (h, hs) = ((not_more_specific_iff x e).0 h, first xs hs)

pub IsRanked-IsOrdered : (es : List RouteEntry) → IsRanked es → IsOrdered es
IsRanked-IsOrdered [] h = tt
IsRanked-IsOrdered (e ∷ es) (front, h) = (first es front, IsRanked-IsOrdered es h)
  where
    first :
        (xs : List RouteEntry)
        → All (λ x. ¬ Outranks x e) xs
        → All (λ x. more_specific x e ≡ false) xs
    first [] h = tt
    first (x ∷ xs) (h, hs) = ((not_more_specific_iff x e).1 h, first xs hs)

All-insert_entry :
    (P : RouteEntry → Type 0) (e : RouteEntry) (es : List RouteEntry)
    → P e
    → All P es
    → All P (insert_entry e es)
unfolding insert_entry
All-insert_entry P e [] p h = (p, tt)
All-insert_entry P e (x ∷ xs) p (q, h) = elim (Bool-cases (more_specific x e)) [
  | inl before ↦ rw before (q, All-insert_entry P e xs p h)
  | inr behind ↦ rw behind (p, (q, h))
]

insert_entry-IsOrdered :
    (e : RouteEntry) (es : List RouteEntry) → IsOrdered es → IsOrdered (insert_entry e es)
unfolding insert_entry
insert_entry-IsOrdered e [] h = (tt, tt)
insert_entry-IsOrdered e (x ∷ xs) (front, h) = elim (Bool-cases (more_specific x e)) [
  | inl before ↦ rw before (
    All-insert_entry (λ y. more_specific y x ≡ false) e xs (more_specific_asymm x e before) front,
    insert_entry-IsOrdered e xs h,
  )
  | inr behind ↦ rw behind ((behind, weaken xs behind front), (front, h))
]
  where
    weaken :
        (ys : List RouteEntry)
        → more_specific x e ≡ false
        → All (λ y. more_specific y x ≡ false) ys
        → All (λ y. more_specific y e ≡ false) ys
    weaken [] k a = tt
    weaken (y ∷ ys) k (a, as') = (not_more_specific_trans y x e a k, weaken ys k as')

pub sort_stable-IsOrdered : (es : List RouteEntry) → IsOrdered (sort_stable es)
unfolding sort_stable
sort_stable-IsOrdered [] = tt
sort_stable-IsOrdered (e ∷ es) =
    insert_entry-IsOrdered e (sort_stable es) (sort_stable-IsOrdered es)

pub sort_stable-IsRanked : (es : List RouteEntry) → IsRanked (sort_stable es)
sort_stable-IsRanked es = IsOrdered-IsRanked (sort_stable es) (sort_stable-IsOrdered es)

insert_entry-perm : (e : RouteEntry) (es : List RouteEntry) → Perm (insert_entry e es) (e ∷ es)
unfolding insert_entry
insert_entry-perm e [] = Perm.refl _
insert_entry-perm e (x ∷ xs) = elim (Bool-cases (more_specific x e)) [
  | inl before ↦ rw before (Perm.trans (Perm.cons x (insert_entry-perm e xs)) (Perm.swap e x xs))
  | inr behind ↦ rw behind (Perm.refl _)
]

pub sort_stable-perm : (es : List RouteEntry) → Perm (sort_stable es) es
unfolding sort_stable
sort_stable-perm [] = Perm.refl _
sort_stable-perm (e ∷ es) =
    Perm.trans (insert_entry-perm e (sort_stable es)) (Perm.cons e (sort_stable-perm es))

pub All-sort_stable :
    (P : RouteEntry → Type 0) (es : List RouteEntry) → All P es → All P (sort_stable es)
unfolding sort_stable
All-sort_stable P [] h = tt
All-sort_stable P (e ∷ es) (p, h) = All-insert_entry P e (sort_stable es) p (All-sort_stable P es h)

-- Two entries have one rank: hosts of one kind and length, and prefixes of one length.
abbrev pub ranks_with : RouteEntry → RouteEntry → Bool
ranks_with a b =
    (host_rank a.host == host_rank b.host)
    && ((length a.host == length b.host) && (length a.prefix == length b.prefix))

-- The entries that have the rank of `c`, in their order.
abbrev pub class : RouteEntry → List RouteEntry → List RouteEntry
class c [] = []
class c (e ∷ es) = if ranks_with e c then e ∷ class c es else class c es

-- Of two entries of one rank, none is more specific.
ranks_with-equal :
    (x e c : RouteEntry)
    → more_specific x e ≡ true
    → (ranks_with x c ≡ false) ⊎ (ranks_with e c ≡ false)
ranks_with-equal x e c h = let o = (more_specific_iff x e).0 h in apart o
  where
    apart : Outranks x e → (ranks_with x c ≡ false) ⊎ (ranks_with e c ≡ false)
    apart o = elim (Bool-cases (ranks_with x c)) [
      | inr other ↦ inl other
      | inl same ↦ inr (ground (arith, o, same))
    ]

class-insert_entry :
    (c e : RouteEntry) (es : List RouteEntry) → class c (insert_entry e es) ≡ class c (e ∷ es)
unfolding insert_entry
class-insert_entry c e [] = refl
class-insert_entry c e (x ∷ xs) = elim (Bool-cases (more_specific x e)) [
  | inr behind ↦ rw behind refl
  | inl before ↦ elim (ranks_with-equal x e c before) [
    | inl x_apart ↦ rw (before, x_apart) (class-insert_entry c e xs)
    | inr e_apart ↦ rw (before, e_apart, class-insert_entry c e xs) (rw e_apart refl)
  ]
]

-- The sort is stable: entries of one rank stay in the order in which they stood.
pub class-sort_stable :
    (c : RouteEntry) (es : List RouteEntry) → class c (sort_stable es) ≡ class c es
unfolding sort_stable
class-sort_stable c [] = refl
class-sort_stable c (e ∷ es) =
    class-insert_entry c e (sort_stable es)
    ∙ ap (λ r. if ranks_with e c then e ∷ r else r) (class-sort_stable c es)
