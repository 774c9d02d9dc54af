-- ===== src/Prelude/Bytes.antt =====
-- Go strings as lists of bytes, with what the gateway uses of package strings.
use Prim.Native.Char.{code}
use Prim.Native.String.{String}
use Prim.Native.Nat.{ℕ, ◌+◌, ◌-◌}
use mathlib.Core.Bool.{Bool, true, false, ◌&&◌, ◌||◌}
use mathlib.Core.Option.{Option, none, some}
use mathlib.Core.List.{List, [], ◌∷◌, map, reverse}
use vxapigateway.Prelude.Tests.{leb, ◌==◌, if◌then◌else◌, is_some}

abbrev pub Bytes : Type 0
Bytes = List ℕ

-- The bytes of an ASCII literal.
abbrev pub codes : String → Bytes
codes String.[] = []
codes (String.◌∷◌ c s) = code c ∷ codes s

-- `a == b` on strings.
unfoldable pub beq : Bytes → Bytes → Bool
beq [] [] = true
beq [] (_ ∷ _) = false
beq (_ ∷ _) [] = false
beq (a ∷ s) (b ∷ t) = (a == b) && beq s t

-- What is left of the second text behind the first, if it begins so.
unfoldable pub strip? : Bytes → Bytes → Option Bytes
strip? [] s = some s
strip? (p ∷ ps) [] = none
strip? (p ∷ ps) (c ∷ s) = if p == c then strip? ps s else none

-- strings.HasPrefix(s, prefix)
unfoldable pub has_prefix : Bytes → Bytes → Bool
unfolding strip?
has_prefix s prefix = is_some (strip? prefix s)

abbrev pub or_whole : Bytes → Option Bytes → Bytes
or_whole s none = s
or_whole s (some rest) = rest

-- strings.TrimPrefix(s, prefix)
unfoldable pub trim_prefix : Bytes → Bytes → Bytes
unfolding strip?
trim_prefix s prefix = or_whole s (strip? prefix s)

-- strings.HasSuffix(s, suffix)
unfoldable pub has_suffix : Bytes → Bytes → Bool
unfolding has_prefix
has_suffix s suffix = has_prefix (reverse s) (reverse suffix)

-- strings.TrimSuffix(s, suffix)
unfoldable pub trim_suffix : Bytes → Bytes → Bytes
unfolding strip?
trim_suffix s suffix = elim (strip? (reverse suffix) (reverse s)) [
  | none ↦ s
  | some rest ↦ reverse rest
]

abbrev pub contains_byte : ℕ → Bytes → Bool
contains_byte b [] = false
contains_byte b (c ∷ s) = (b == c) || contains_byte b s

-- strings.Contains(s, part)
unfoldable pub contains : Bytes → Bytes → Bool
unfolding has_prefix
contains [] part = has_prefix [] part
contains (c ∷ s) part = has_prefix (c ∷ s) part || contains s part

-- The bytes behind the longest prefix all of whose bytes pass the test.
unfoldable pub drop_while : (ℕ → Bool) → Bytes → Bytes
drop_while p [] = []
drop_while p (c ∷ s) = if p c then drop_while p s else c ∷ s

unfoldable pub trim_right : (ℕ → Bool) → Bytes → Bytes
unfolding drop_while
trim_right p s = reverse (drop_while p (reverse s))

-- The loop of strings.TrimFunc.
unfoldable pub trim : (ℕ → Bool) → Bytes → Bytes
unfolding trim_right drop_while
trim p s = trim_right p (drop_while p s)

-- The ASCII white space of package unicode: \t \n \v \f \r and the blank.
abbrev pub is_space : ℕ → Bool
is_space c = (leb 9 c && leb c 13) || (c == 32)

-- strings.TrimSpace on ASCII text
unfoldable pub trim_space : Bytes → Bytes
unfolding trim
trim_space s = trim is_space s

abbrev pub lower : ℕ → ℕ
lower c = if leb b'A' c && leb c b'Z' then c + 32 else c

abbrev pub upper : ℕ → ℕ
upper c = if leb b'a' c && leb c b'z' then c - 32 else c

-- strings.ToLower on ASCII text
abbrev pub to_lower : Bytes → Bytes
to_lower s = map lower s

-- strings.ToUpper on ASCII text
abbrev pub to_upper : Bytes → Bytes
to_upper s = map upper s

-- The text before and behind the first occurrence of a byte.
unfoldable pub cut_at : ℕ → Bytes → Option (Bytes × Bytes)
cut_at b [] = none
cut_at b (c ∷ s) =
    let rest = cut_at b s in
    if b == c then some ([], s) else elim rest [ none ↦ none | some (x, y) ↦ some (c ∷ x, y) ]

-- A Go map keyed by strings is a function; a missing key is `none` or `false`.
abbrev pub update {ℓ} : {V : Type ℓ} → (Bytes → V) → Bytes → V → Bytes → V
update m k v j = if beq k j then v else m j
