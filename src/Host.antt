-- ===== src/Host.antt =====
-- Host names and path prefixes in routing.go: how a request's Host is reduced, how patterns match
-- it, and how specific a pattern is. Text is ASCII.
pub mod Names
pub mod Matching
mod Tests
use vxapigateway.Prelude.{
  ℕ, ◌≡◌, Bool, true, false, ◌&&◌, ◌||◌, not, List, [], ◌∷◌, ◌++◌, Option, none, some, length, ltb,
  ◌==◌, if◌then◌else◌,
}
use vxapigateway.Prelude.Bytes.{
  Bytes, codes, beq, strip?, has_prefix, has_suffix, trim_prefix, trim_suffix, trim, trim_space,
  to_lower, contains_byte, cut_at, or_whole,
}

abbrev pub host_any : ℕ
host_any = 0

abbrev pub host_wildcard : ℕ
host_wildcard = 1

abbrev pub host_exact : ℕ
host_exact = 2

unfoldable pub host_specificity : Bytes → ℕ
unfolding has_prefix beq
host_specificity pattern =
    if beq pattern []
    then host_any
    else if has_prefix pattern (codes "*.")
    then host_wildcard
    else host_exact

-- net.SplitHostPort behind "[host]": what is left must be a colon and the port.
unfoldable pub bracketed_host : Bytes → Bytes → Bytes → Option Bytes
bracketed_host s host [] = none
bracketed_host s host (c ∷ port) =
    if (c == b':')
      && (not (contains_byte b':' port)
          && (not (contains_byte b'[' s) && not (contains_byte b']' port)))
    then some host
    else none

-- The host of net.SplitHostPort, or `none` where it returns an error: of the form "host:port" with
-- one colon and no brackets, or "[host]:port".
unfoldable pub split_host : Bytes → Option Bytes
unfolding bracketed_host cut_at
split_host [] = none
split_host (c ∷ s) =
    if c == b'['
    then elim (cut_at b']' s) [ none ↦ none | some (host, rest) ↦ bracketed_host s host rest ]
    else elim (cut_at b':' (c ∷ s)) [
      | none ↦ none
      | some (host, port) ↦
          if contains_byte b':' port || (contains_byte b'[' (c ∷ s) || contains_byte b']' (c ∷ s))
          then none
          else some host
    ]

abbrev pub is_bracket : ℕ → Bool
is_bracket c = (c == b'[') || (c == b']')

-- The last statement of `normalizeHost`.
abbrev pub drop_final_dot : Bytes → Bytes
drop_final_dot h = if ltb 1 (length h) then trim_suffix h (codes ".") else h

-- Of a text in ASCII, as the host of a request is; strings.ToLower and strings.TrimSpace change other
-- runes too, which a configured pattern may have.
unfoldable pub normalize_host : Bytes → Bytes
normalize_host raw =
    let h = to_lower (trim_space raw) in
    if beq h [] then [] else drop_final_dot (trim is_bracket (or_whole h (split_host h)))

-- The test behind `strings.CutPrefix(pattern, "*")`.
abbrev pub covers_suffix : Bytes → Option Bytes → Bool
covers_suffix host none = false
covers_suffix host (some suffix) = ltb (length suffix) (length host) && has_suffix host suffix

-- `hostMatches` on a pattern that is not empty, in its reduced form.
unfoldable pub matches_normal : Bytes → Bytes → Bool
unfolding beq strip? has_suffix
matches_normal pattern host =
    if beq pattern host then true else covers_suffix host (strip? (codes "*") pattern)

unfoldable pub host_matches : Bytes → Bytes → Bool
unfolding matches_normal
host_matches pattern host =
    if beq pattern [] then true else matches_normal (normalize_host pattern) host

-- The last test of `pathMatches`, on what the prefix leaves of the path.
abbrev pub at_boundary : Bytes → Option Bytes → Bool
at_boundary prefix none = false
at_boundary prefix (some []) = true
at_boundary prefix (some (c ∷ rest)) = (c == b'/') || has_suffix prefix (codes "/")

unfoldable pub path_matches : Bytes → Bytes → Bool
unfolding strip? has_suffix
path_matches prefix path =
    if beq prefix [] || beq prefix (codes "/")
    then true
    else at_boundary prefix (strip? prefix path)
