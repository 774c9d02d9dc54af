-- ===== src/Host/Names.antt =====
-- The spellings of a host name that `normalizeHost` identifies.
use mathlib.Core.List.{append-nil, map-append, reverse-cons, reverse-reverse}
use vxapigateway.Prelude.{
  ℕ, ◌≡◌, ◌≢◌, refl, ap, ◌∙◌, Bool, true, false, [], ◌∷◌, ◌++◌, reverse, Option, none, some, All,
  All-append, arith, length-append,
}
use vxapigateway.Prelude.Bytes.{
  Bytes, codes, beq, has_suffix, trim_space, trim, trim_right, drop_while, to_lower, lower,
  is_space, contains_byte, cut_at, or_whole,
}
use vxapigateway.Prelude.BytesLaws.{trim_suffix-append, trim_suffix_of_not}
use vxapigateway.Host.{normalize_host, split_host, is_bracket, drop_final_dot}

-- A byte of a name or a port: no colon, no bracket, no white space.
abbrev pub IsHostByte : ℕ → Type 0
IsHostByte c = (c ≢ b':') × (c ≢ b'[') × (c ≢ b']') × (is_space c ≡ false)

lower-IsHostByte : (c : ℕ) → IsHostByte c → IsHostByte (lower c)
lower-IsHostByte c h = ground arith

to_lower-IsHostByte : (s : Bytes) → All IsHostByte s → All IsHostByte (to_lower s)
to_lower-IsHostByte [] h = tt
to_lower-IsHostByte (c ∷ s) (p, h) = (lower-IsHostByte c p, to_lower-IsHostByte s h)

All-reverse : (P : ℕ → Type 0) (s : Bytes) → All P s → All P (reverse s)
All-reverse P [] h = tt
All-reverse P (c ∷ s) (p, h) =
    rw (reverse-cons c s) (All-append P (reverse s) (c ∷ []) (All-reverse P s h) (p, tt))

drop_while_none : (p : ℕ → Bool) (s : Bytes) → All (λ c. p c ≡ false) s → drop_while p s ≡ s
unfolding drop_while
drop_while_none p [] h = refl
drop_while_none p (c ∷ s) (q, h) = rw q refl

pub trim_none : (p : ℕ → Bool) (s : Bytes) → All (λ c. p c ≡ false) s → trim p s ≡ s
unfolding trim trim_right
trim_none p s h =
    rw (drop_while_none p s h, drop_while_none p (reverse s) (All-reverse (λ c. p c ≡ false) s h))
      (reverse-reverse s)

no_space : (s : Bytes) → All IsHostByte s → All (λ c. is_space c ≡ false) s
no_space [] h = tt
no_space (c ∷ s) (p, h) = (p.3, no_space s h)

no_bracket : (s : Bytes) → All IsHostByte s → All (λ c. is_bracket c ≡ false) s
no_bracket [] h = tt
no_bracket (c ∷ s) (p, h) = (ground arith, no_bracket s h)

absent-append :
    (b : ℕ) (s t : Bytes)
    → contains_byte b s ≡ false
    → contains_byte b t ≡ false
    → contains_byte b (s ++ t) ≡ false
absent-append b [] t h k = k
absent-append b (c ∷ s) t h k = ground (arith, absent-append b s t)

no_colon : (s : Bytes) → All IsHostByte s → contains_byte b':' s ≡ false
no_colon [] h = refl
no_colon (c ∷ s) (p, h) = ground (arith, no_colon s h)

no_open : (s : Bytes) → All IsHostByte s → contains_byte b'[' s ≡ false
no_open [] h = refl
no_open (c ∷ s) (p, h) = ground (arith, no_open s h)

no_close : (s : Bytes) → All IsHostByte s → contains_byte b']' s ≡ false
no_close [] h = refl
no_close (c ∷ s) (p, h) = ground (arith, no_close s h)

cut_at_first :
    (b : ℕ) (s t : Bytes) → contains_byte b s ≡ false → cut_at b (s ++ (b ∷ t)) ≡ some (s, t)
unfolding cut_at
cut_at_first b [] t h = ground arith
cut_at_first b (c ∷ s) t h = ground (arith, cut_at_first b s t)

cut_at-none : (b : ℕ) (s : Bytes) → contains_byte b s ≡ false → cut_at b s ≡ none
unfolding cut_at
cut_at-none b [] h = refl
cut_at-none b (c ∷ s) h = ground (arith, cut_at-none b s)

-- A name with a port, and a name without one.
split_host_port :
    (c : ℕ) (s port : Bytes)
    → All IsHostByte (c ∷ s)
    → All IsHostByte port
    → split_host ((c ∷ s) ++ (b':' ∷ port)) ≡ some (c ∷ s)
unfolding split_host
split_host_port c s port h k = ground (
  arith,
  cut_at_first b':' (c ∷ s) port (no_colon (c ∷ s) h),
  no_colon port k,
  absent-append b'[' (c ∷ s) (b':' ∷ port) (no_open (c ∷ s) h) (no_open port k),
  absent-append b']' (c ∷ s) (b':' ∷ port) (no_close (c ∷ s) h) (no_close port k),
)

split_host_plain : (c : ℕ) (s : Bytes) → All IsHostByte (c ∷ s) → split_host (c ∷ s) ≡ none
unfolding split_host
split_host_plain c s h = ground (arith, cut_at-none b':' (c ∷ s) (no_colon (c ∷ s) h))

abbrev pub dot_text : Bool → Bytes
dot_text true = codes "."
dot_text false = []

abbrev pub port_bytes : Option Bytes → Bytes
port_bytes none = []
port_bytes (some port) = port

abbrev pub port_text : Option Bytes → Bytes
port_text none = []
port_text (some port) = b':' ∷ port

-- A name, a final dot or not, and a port or not.
abbrev pub spelled : Bytes → Bool → Option Bytes → Bytes
spelled name dotted port = (name ++ dot_text dotted) ++ port_text port

normalize_steps :
    (raw h x low : Bytes)
    → All (λ c. is_space c ≡ false) raw
    → to_lower raw ≡ h
    → beq h [] ≡ false
    → or_whole h (split_host h) ≡ x
    → All (λ c. is_bracket c ≡ false) x
    → drop_final_dot x ≡ low
    → normalize_host raw ≡ low
unfolding normalize_host trim_space
normalize_steps raw h x low spaces lowered nonempty host brackets dot =
    rw (trim_none is_space raw spaces, lowered, nonempty, host, trim_none is_bracket x brackets) dot

drop_final_dot-dotted :
    (low : Bytes) (dotted : Bool)
    → low ≢ []
    → has_suffix low (codes ".") ≡ false
    → drop_final_dot (low ++ dot_text dotted) ≡ low
drop_final_dot-dotted low false some_name bare =
    rw (append-nil low) (ground (arith, trim_suffix_of_not low (codes ".") bare))
drop_final_dot-dotted [] true some_name bare = absurd (some_name refl)
drop_final_dot-dotted (c ∷ low) true some_name bare =
    ground (arith, trim_suffix-append (c ∷ low) (codes "."), length-append low (codes "."))

dot_text-IsHostByte : (dotted : Bool) → All IsHostByte (dot_text dotted)
dot_text-IsHostByte true = (ground arith, tt)
dot_text-IsHostByte false = tt

port_text-spaces :
    (port : Option Bytes)
    → All IsHostByte (port_bytes port)
    → All (λ c. is_space c ≡ false) (port_text port)
port_text-spaces none k = tt
port_text-spaces (some port) k = (refl, no_space port k)

-- The host part of a reduced name with a port or without.
host_part :
    (c : ℕ) (s : Bytes) (port : Option Bytes)
    → All IsHostByte (c ∷ s)
    → All IsHostByte (port_bytes port)
    → or_whole
        ((c ∷ s) ++ to_lower (port_text port))
        (split_host ((c ∷ s) ++ to_lower (port_text port)))
      ≡ c ∷ s
host_part c s none h k =
    let same : (c ∷ s) ++ [] ≡ c ∷ s = append-nil (c ∷ s) in
    ap (λ x. or_whole x (split_host x)) same ∙ ap (or_whole (c ∷ s)) (split_host_plain c s h)
host_part c s (some port) h k =
    ap (or_whole _) (split_host_port c s (to_lower port) h (to_lower-IsHostByte port k))

to_lower-spelled :
    (name : Bytes) (dotted : Bool) (port : Option Bytes)
    → to_lower (spelled name dotted port)
      ≡ (to_lower name ++ dot_text dotted) ++ to_lower (port_text port)
to_lower-spelled name true port =
    map-append lower (name ++ codes ".") (port_text port)
    ∙ ap (λ x. x ++ to_lower (port_text port)) (map-append lower name (codes "."))
to_lower-spelled name false port =
    map-append lower (name ++ []) (port_text port)
    ∙ ap (λ x. x ++ to_lower (port_text port)) (map-append lower name [])

-- A host name is reduced to its lower-case form however it is spelled: in any case, with a final dot
-- or without, with a port or without. The name is not empty and does not end in a dot itself, and
-- name and port hold no colon, bracket or white space.
pub normalize_host-spelled :
    (c : ℕ) (s : Bytes) (dotted : Bool) (port : Option Bytes)
    → All IsHostByte (c ∷ s)
    → All IsHostByte (port_bytes port)
    → has_suffix (to_lower (c ∷ s)) (codes ".") ≡ false
    → normalize_host (spelled (c ∷ s) dotted port) ≡ to_lower (c ∷ s)
normalize_host-spelled c s dotted port name digits bare =
    normalize_steps (spelled (c ∷ s) dotted port)
      ((to_lower (c ∷ s) ++ dot_text dotted) ++ to_lower (port_text port))
      (to_lower (c ∷ s) ++ dot_text dotted) (to_lower (c ∷ s))
      (All-append (λ d. is_space d ≡ false) ((c ∷ s) ++ dot_text dotted) (port_text port)
        (no_space ((c ∷ s) ++ dot_text dotted)
          (All-append IsHostByte (c ∷ s) (dot_text dotted) name (dot_text-IsHostByte dotted)))
        (port_text-spaces port digits))
      (to_lower-spelled (c ∷ s) dotted port) (unfold beq in refl)
      (host_part (lower c) (to_lower s ++ dot_text dotted) port lowered digits)
      (no_bracket (to_lower (c ∷ s) ++ dot_text dotted) lowered)
      (drop_final_dot-dotted (to_lower (c ∷ s)) dotted (λ e. cc) bare)
  where
    lowered : All IsHostByte (to_lower (c ∷ s) ++ dot_text dotted)
    lowered =
        All-append IsHostByte (to_lower (c ∷ s)) (dot_text dotted)
          (to_lower-IsHostByte (c ∷ s) name) (dot_text-IsHostByte dotted)
