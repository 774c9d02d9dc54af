-- ===== src/Prelude/BytesLaws.antt =====
-- What the string functions of Bytes compute, as equations between texts.
use mathlib.Core.List.{reverse-append, reverse-reverse}
use vxapigateway.Prelude.Tests.{Option-cases, is_some}
use vxapigateway.Prelude.Bytes.{
  Bytes, beq, strip?, has_prefix, has_suffix, trim_prefix, trim_suffix,
}
use mathlib.Core.Path.{◌≡◌, refl, sym, ap, ◌∙◌}
use mathlib.Core.Logic.{◌↔◌, inl, inr, ◌≢◌}
use mathlib.Core.Bool.{true, false}
use mathlib.Core.Option.{some}
use mathlib.Core.List.{[], ◌∷◌, ◌++◌, reverse}
use native.Mathlib.Omega.{arith}

pub beq_sound : (s t : Bytes) → beq s t ≡ true → s ≡ t
unfolding beq
beq_sound [] [] h = refl
beq_sound [] (b ∷ t) h = cc
beq_sound (a ∷ s) [] h = cc
beq_sound (a ∷ s) (b ∷ t) h = ground (arith, beq_sound s t)

pub beq_refl : (s : Bytes) → beq s s ≡ true
unfolding beq
beq_refl [] = refl
beq_refl (a ∷ s) = ground (arith, beq_refl s)

pub beq_iff : (s t : Bytes) → (beq s t ≡ true) ↔ (s ≡ t)
beq_iff s t = (beq_sound s t, λ e. rw e (beq_refl t))

pub beq_ne : (s t : Bytes) → s ≢ t → beq s t ≡ false
beq_ne s t ne = ground (arith, beq_iff s t)

pub strip?_sound : (p s r : Bytes) → strip? p s ≡ some r → s ≡ p ++ r
unfolding strip?
strip?_sound [] s r h = ground arith
strip?_sound (a ∷ p) [] r h = cc
strip?_sound (a ∷ p) (c ∷ s) r h = ground (arith, strip?_sound p s r)

pub strip?-append : (p r : Bytes) → strip? p (p ++ r) ≡ some r
unfolding strip?
strip?-append [] r = refl
strip?-append (a ∷ p) r = ground (arith, strip?-append p r)

pub has_prefix_sound :
    (s p : Bytes) → has_prefix s p ≡ true → (r : Bytes) × (strip? p s ≡ some r) × (s ≡ p ++ r)
unfolding has_prefix
has_prefix_sound s p h = elim (Option-cases (strip? p s)) [
  | inl e ↦ absurd (cc (ap is_some e))
  | inr (r, e) ↦ (r, e, strip?_sound p s r e)
]

pub has_prefix-append : (p r : Bytes) → has_prefix (p ++ r) p ≡ true
unfolding has_prefix
has_prefix-append p r = rw (strip?-append p r)

pub trim_prefix-append : (p r : Bytes) → trim_prefix (p ++ r) p ≡ r
unfolding trim_prefix
trim_prefix-append p r = rw (strip?-append p r)

pub has_suffix_sound : (s t : Bytes) → has_suffix s t ≡ true → (r : Bytes) × (s ≡ r ++ t)
unfolding has_suffix
has_suffix_sound s t h =
    let (r, _, e) = has_prefix_sound (reverse s) (reverse t) h in
    (
      reverse r,
      sym (reverse-reverse s)
          ∙ ap reverse e
          ∙ reverse-append (reverse t) r
          ∙ ap (λ x. reverse r ++ x) (reverse-reverse t),
    )

pub has_suffix-append : (r t : Bytes) → has_suffix (r ++ t) t ≡ true
unfolding has_suffix
has_suffix-append r t = rw (reverse-append r t) (has_prefix-append (reverse t) (reverse r))

pub trim_suffix-append : (r t : Bytes) → trim_suffix (r ++ t) t ≡ r
unfolding trim_suffix
trim_suffix-append r t =
    rw (trim_suffix, reverse-append r t, strip?-append (reverse t) (reverse r)) (reverse-reverse r)

-- A text that does not end so is left alone.
pub trim_suffix_of_not : (s t : Bytes) → has_suffix s t ≡ false → trim_suffix s t ≡ s
unfolding trim_suffix has_suffix has_prefix
trim_suffix_of_not s t h = ground arith
