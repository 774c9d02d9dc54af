-- ===== src/Settings.antt =====
-- The routes that config.go reads from the environment: `splitList`, `loadEnvNamedRoutes` and
-- `loadServiceRoutes`. The JSON decoder and the parsers of package strconv are parameters.
pub mod Laws
pub mod Lists
mod Tests
use vxapigateway.Prelude.{
  ℕ, suc, ◌+◌, Bool, true, false, ◌||◌, ◌&&◌, not, List, [], ◌∷◌, ◌++◌, Option, none, some, map,
  length, ltb, if◌then◌else◌, ◌==◌,
}
use vxapigateway.Prelude.Bytes.{
  Bytes, codes, beq, strip?, has_suffix, trim_suffix, trim_space, to_lower, cut_at, update,
}
use vxapigateway.Upstream.{ServiceRoute}

-- The function given to strings.FieldsFunc.
abbrev pub is_separator : ℕ → Bool
is_separator c = (c == b',') || ((c == b' ') || ((c == 9) || (c == 10)))

abbrev pub emit : Bytes → List Bytes → List Bytes
emit [] fields = fields
emit (c ∷ s) fields = (c ∷ s) ∷ fields

-- strings.FieldsFunc, behind the part `field` of a field.
unfoldable pub fields_from : Bytes → Bytes → List Bytes
fields_from field [] = emit field []
fields_from field (c ∷ s) =
    let next = fields_from [] s in
    let more = fields_from (field ++ c ∷ []) s in if is_separator c then emit field next else more

unfoldable pub trimmed : List Bytes → List Bytes
trimmed [] = []
trimmed (f ∷ fields) = emit (trim_space f) (trimmed fields)

unfoldable pub split_list : Bytes → List Bytes
unfolding fields_from trimmed
split_list raw = trimmed (fields_from [] raw)

abbrev pub route_env_suffixes : List Bytes
route_env_suffixes =
    codes "URL"
    ∷ codes "TARGETS"
    ∷ codes "PREFIX"
    ∷ codes "HOST"
    ∷ codes "STRIP_PREFIX"
    ∷ codes "REQUIRE_AUTH"
    ∷ codes "WEIGHT"
    ∷ codes "WEIGHTS"
    ∷ codes "TIMEOUT_SECS"
    ∷ codes "HEALTH_PATH"
    ∷ codes "PRESERVE_HOST"
    ∷ []

-- sort.Slice by falling length; of two suffixes of one length one at most fits a text, so their
-- order has no effect.
unfoldable pub insert_suffix : Bytes → List Bytes → List Bytes
insert_suffix s [] = s ∷ []
insert_suffix s (t ∷ ts) = if ltb (length s) (length t) then t ∷ insert_suffix s ts else s ∷ t ∷ ts

unfoldable pub by_length : List Bytes → List Bytes
unfolding insert_suffix
by_length [] = []
by_length (s ∷ ss) = insert_suffix s (by_length ss)

-- The loop over the suffixes: the name and the suffix.
unfoldable pub split_variable : List Bytes → Bytes → Option (Bytes × Bytes)
split_variable [] rest = none
split_variable (sfx ∷ suffixes) rest =
    if ltb (length sfx + 1) (length rest) && has_suffix rest (b'_' ∷ sfx)
    then some (trim_suffix rest (b'_' ∷ sfx), sfx)
    else split_variable suffixes rest

-- A group: the values of one name, by suffix.
abbrev pub Group : Type 0
Group = Bytes → Option Bytes

-- `byName`, with its keys.
pub record Groups : Type 0 where
  pub names : List Bytes
  pub values : Bytes → Group

-- Inserts a name into the sorted names, once.
unfoldable pub before : Bytes → Bytes → Bool
before [] [] = false
before [] (d ∷ t) = true
before (c ∷ s) [] = false
before (c ∷ s) (d ∷ t) = let rest = before s t in if c == d then rest else ltb c d

unfoldable pub insert_name : Bytes → List Bytes → List Bytes
unfolding before beq
insert_name n [] = n ∷ []
insert_name n (x ∷ xs) =
    if beq n x then x ∷ xs else if before x n then x ∷ insert_name n xs else n ∷ x ∷ xs

abbrev pub set_value : Bytes × Bytes → Bytes → Groups → Groups
set_value variable value g = record {
  names = insert_name variable.0 g.names;
  values = update g.values variable.0 (update (g.values variable.0) variable.1 (some value));
}

-- One turn of the loop over the environment, for a key and a value that is not empty.
abbrev pub add_variable : Option (Bytes × Bytes) → Bytes → Groups → Groups
add_variable none value g = g
add_variable (some variable) value g = set_value variable value g

unfoldable pub read_entry : Bytes → Groups → Groups
unfolding split_variable by_length insert_name cut_at strip?
read_entry kv g = elim (cut_at b'=' kv) [
  | none ↦ g
  | some (key, value) ↦
      if beq key [] || beq value [] then g else elim (strip? (codes "ROUTE_") key) [
        | none ↦ g
        | some rest ↦ add_variable (split_variable (by_length route_env_suffixes) rest) value g
      ]
]

unfoldable pub read_environment : List Bytes → Groups → Groups
unfolding read_entry
read_environment [] g = g
read_environment (kv ∷ environment) g = read_environment environment (read_entry kv g)

-- The value of a missing key of a Go map.
abbrev pub or_unset : Option Bytes → Bytes
or_unset none = []
or_unset (some v) = v

module _ (parse_bool : Bytes → Option Bool) (atoi : Bytes → Option ℕ) where
  abbrev pub or_bool : Bool → Option Bool → Bool
  or_bool fallback none = fallback
  or_bool fallback (some b) = b

  abbrev pub or_int : ℕ → Option ℕ → ℕ
  or_int fallback none = fallback
  or_int fallback (some n) = n

  unfoldable pub parse_bool_or : Bytes → Bool → Bool
  parse_bool_or v fallback =
      if beq v [] then fallback else or_bool fallback (parse_bool (trim_space v))

  unfoldable pub parse_int_or : Bytes → ℕ → ℕ
  parse_int_or v fallback = if beq v [] then fallback else or_int fallback (atoi (trim_space v))

  -- The fields of the route of a group. A missing key and an empty value have the same default.
  unfoldable pub named_route : Bytes → Group → ServiceRoute
  unfolding parse_bool_or parse_int_or split_list
  named_route name f =
      let get = λ (key : Bytes). or_unset (f key) in
      record {
        host = get (codes "HOST");
        prefix = if beq (get (codes "PREFIX")) [] then codes "/" else get (codes "PREFIX");
        target_url = get (codes "URL");
        targets = split_list (get (codes "TARGETS"));
        strip_prefix = parse_bool_or (get (codes "STRIP_PREFIX")) true;
        require_auth = parse_bool_or (get (codes "REQUIRE_AUTH")) false;
        weight = parse_int_or (get (codes "WEIGHT")) 1;
        weights = map (λ w. parse_int_or w 1) (split_list (get (codes "WEIGHTS")));
        timeout_secs = parse_int_or (get (codes "TIMEOUT_SECS")) 30;
        health_path = get (codes "HEALTH_PATH");
        preserve_host = parse_bool_or (get (codes "PRESERVE_HOST")) false;
        name = to_lower name;
      }

  -- The loop over the names.
  unfoldable pub named_routes : (Bytes → Group) → List Bytes → List ServiceRoute
  unfolding named_route
  named_routes values [] = []
  named_routes values (name ∷ names) =
      let r = named_route name (values name) in
      let rest = named_routes values names in
      if beq r.target_url [] && (length r.targets == 0) then rest else r ∷ rest

  unfoldable pub load_env_named_routes : List Bytes → List ServiceRoute
  unfolding named_routes read_environment
  load_env_named_routes environment =
      let g = read_environment environment (record { names = []; values = λ n k. none }) in
      named_routes g.values g.names

  abbrev pub default_route : Bytes → Bytes → Bytes → ServiceRoute
  default_route name prefix url = record {
    host = [];
    prefix = prefix;
    target_url = url;
    targets = [];
    strip_prefix = true;
    require_auth = false;
    weight = 1;
    weights = [];
    timeout_secs = 30;
    health_path = [];
    preserve_host = false;
    name = name;
  }

  -- `vxCloudDefaultRoutes`, with the three fields that `loadServiceRoutes` sets.
  abbrev pub vx_cloud_default_routes : List ServiceRoute
  vx_cloud_default_routes =
      default_route (codes "studio") (codes "/api/studio") (codes "http://localhost:3000")
      ∷ default_route (codes "studio2") (codes "/api/studio2") (codes "http://localhost:3001")
      ∷ default_route (codes "ai") (codes "/api/ai") (codes "http://localhost:8741")
      ∷ default_route (codes "admin") (codes "/api/admin") (codes "http://localhost:8242")
      ∷ default_route (codes "core") (codes "/api/core") (codes "http://localhost:8743")
      ∷ default_route (codes "node") (codes "/api/node") (codes "http://localhost:8744")
      ∷ default_route (codes "llm") (codes "/api/llm") (codes "http://localhost:8745")
      ∷ default_route (codes "llm2") (codes "/api/llm2") (codes "http://localhost:8746")
      ∷ default_route (codes "agent") (codes "/api/agent") (codes "http://localhost:8788")
      ∷ []

  abbrev pub or_no_routes : Option (List ServiceRoute) → List ServiceRoute
  or_no_routes none = []
  or_no_routes (some routes) = routes

  -- `service_routes` and `enable_defaults` are the variables SERVICE_ROUTES and
  -- ENABLE_VXCLOUD_DEFAULT_ROUTES, empty if they are not set.
  unfoldable pub load_service_routes :
      (Bytes → Option (List ServiceRoute)) → Bytes → List Bytes → Bytes → List ServiceRoute
  unfolding load_env_named_routes
  load_service_routes parse_routes service_routes environment enable_defaults =
      let parsed =
        if beq service_routes [] then [] else or_no_routes (parse_routes service_routes) in
      let enabled =
        if beq enable_defaults [] then false else or_bool false (parse_bool enable_defaults) in
      let defaults = if enabled then vx_cloud_default_routes else [] in
      parsed ++ (load_env_named_routes environment ++ defaults)
