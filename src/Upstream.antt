-- ===== src/Upstream.antt =====
-- The upstreams of a route in routing.go: `normalizeUpstream`, and the part of `AddRoute` that makes
-- a backend of each. url.Parse is a parameter.
pub mod Laws
mod Tests
use vxapigateway.Prelude.{
  ℕ, ◌+◌, ◌≡◌, Bool, true, false, ◌&&◌, ◌||◌, not, List, [], ◌∷◌, ◌++◌, Option, none, some,
  get_elem?, if◌then◌else◌,
}
use vxapigateway.Prelude.Bytes.{Bytes, codes, beq, contains, trim_space}
use vxapigateway.Prelude.Word.{slt}
use vxapigateway.Backend.{Url, Backend}
use vxapigateway.Pool.{ServicePool, add_backend}

-- A route of the configuration, the ServiceRoute of config.go. Numbers are 64-bit patterns.
pub record ServiceRoute : Type 0 where
  pub host : Bytes
  pub prefix : Bytes
  pub target_url : Bytes
  pub targets : List Bytes
  pub strip_prefix : Bool
  pub require_auth : Bool
  pub weight : ℕ
  pub weights : List ℕ
  pub timeout_secs : ℕ
  pub health_path : Bytes
  pub preserve_host : Bool
  pub name : Bytes

-- Whether a key is in the set of keys that were added.
abbrev pub member : Bytes → List Bytes → Bool
member k [] = false
member k (j ∷ seen) = beq j k || member k seen

-- `cfg.TargetURL`, if set, and `cfg.Targets`.
unfoldable pub merged_targets : ServiceRoute → List Bytes
unfolding beq
merged_targets cfg = if beq cfg.target_url [] then cfg.targets else cfg.target_url ∷ cfg.targets

unfoldable pub default_weight : ServiceRoute → ℕ
default_weight cfg = if slt 0 cfg.weight then cfg.weight else 1

abbrev pub weight_or : ℕ → Option ℕ → ℕ
weight_or fallback none = fallback
weight_or fallback (some w) = if slt 0 w then w else fallback

-- The weight of the upstream at a position of the merged list.
unfoldable pub weight_at : ServiceRoute → ℕ → ℕ
unfolding default_weight
weight_at cfg i = weight_or (default_weight cfg) (get_elem? cfg.weights i)

unfoldable pub new_backend : ServiceRoute → Url → ℕ → Backend
new_backend cfg url weight = record {
  url = url;
  alive = true;
  connections = 0;
  weight = weight;
  preserve_host = cfg.preserve_host;
  fail_count = 0;
  last_fail = 0;
  health_path = cfg.health_path;
}

-- The tests on a parsed URL.
abbrev pub usable : Option Url → Option Url
usable none = none
usable (some u) =
    if beq u.host []
    then none
    else if not (beq u.scheme (codes "http")) && not (beq u.scheme (codes "https"))
    then none
    else some u

module _ (parse : Bytes → Option Url) where
  -- `none` is an error.
  unfoldable pub normalize_upstream : Bytes → Option Url
  normalize_upstream raw =
      let text = trim_space raw in
      if beq text []
      then none
      else if contains text (codes "://")
      then usable (parse text)
      else usable (parse (codes "http://" ++ text))

  -- The loop over the merged targets from position `i` on; `seen` holds the URLs so far.
  unfoldable pub add_upstreams :
      ServiceRoute → List Bytes → ℕ → List Bytes → ServicePool → ServicePool
  add_upstreams cfg [] i seen pool = pool
  add_upstreams cfg (raw ∷ targets) i seen pool =
      let skip = add_upstreams cfg targets (i + 1) seen pool in
      let add = λ (u : Url).
        add_upstreams cfg targets (i + 1) (u.text ∷ seen)
          (add_backend pool (new_backend cfg u (weight_at cfg i))) in
      elim (normalize_upstream raw) [
        | none ↦ skip
        | some u ↦ if member u.text seen then skip else add u
      ]
