-- ===== src/Settings/Tests.antt =====
-- The theorems about settings at a concrete environment.
use vxapigateway.Prelude.{◌≤◌, ◌≡◌, ◌≢◌, refl, List, [], ◌∷◌, ◌++◌, All, length, none}
use vxapigateway.Prelude.Bytes.{Bytes, codes, has_suffix, has_prefix, trim_suffix, strip?}
use vxapigateway.Settings.{
  split_variable, by_length, insert_suffix, route_env_suffixes, load_env_named_routes,
}
use vxapigateway.Settings.Laws.{
  Ends, IsListed, HasUpstream, split_variable-longest, load_env_named_routes-HasUpstream,
}

split_variable-longest_example :
    IsListed (codes "STRIP_PREFIX") route_env_suffixes
    × (codes "X" ≢ [])
    × (codes "X_STRIP_PREFIX" ≡ codes "X" ++ (b'_' ∷ codes "STRIP_PREFIX"))
    × All (λ t. Ends t (codes "X_STRIP_PREFIX") → length t ≤ 12) route_env_suffixes
unfolding split_variable by_length insert_suffix has_suffix has_prefix trim_suffix strip?
split_variable-longest_example =
    split_variable-longest route_env_suffixes (codes "X_STRIP_PREFIX") (codes "X")
      (codes "STRIP_PREFIX") refl

abbrev environment : List Bytes
environment =
    codes "HOME=/root"
    ∷ codes "ROUTE_API_URL=http://a"
    ∷ codes "ROUTE_API_STRIP_PREFIX=false"
    ∷ codes "ROUTE_EMPTY_HOST=b"
    ∷ []

load_env_named_routes-HasUpstream_example :
    All
      (HasUpstream (λ s. none) (λ s. none))
      (load_env_named_routes (λ s. none) (λ s. none) environment)
load_env_named_routes-HasUpstream_example =
    load_env_named_routes-HasUpstream (λ s. none) (λ s. none) environment
