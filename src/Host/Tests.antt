-- ===== src/Host/Tests.antt =====
-- The theorems about hosts and paths at concrete texts.
use vxapigateway.Prelude.{◌≡◌, ◌↔◌, ◌⊎◌, refl, true, ◌++◌, ◌∷◌, [], some, arith}
use vxapigateway.Prelude.Bytes.{Bytes, codes, has_suffix}
use vxapigateway.Host.{normalize_host, host_matches, path_matches}
use vxapigateway.Host.Names.{spelled, normalize_host-spelled}
use vxapigateway.Host.Matching.{IsSubdomain, host_matches_iff, path_matches_iff}

-- "A.b.:80"
normalize_host-spelled_example :
    normalize_host (spelled (codes "A.b") true (some (codes "80"))) ≡ codes "a.b"
unfolding has_suffix
normalize_host-spelled_example =
    normalize_host-spelled b'A' (codes ".b") true (some (codes "80")) (ground arith) (ground arith)
      refl

host_matches_iff_example : (host_matches (codes "*.b") (codes "a.b") ≡ true) ↔ (
    (codes "*.b" ≡ [])
    ⊎ ((normalize_host (codes "*.b") ≡ codes "a.b")
        ⊎ ((suffix : Bytes) × (normalize_host (codes "*.b") ≡ b'*' ∷ suffix)
            × IsSubdomain suffix (codes "a.b"))))
host_matches_iff_example = host_matches_iff (codes "*.b") (codes "a.b")

path_matches_iff_example : (path_matches (codes "/api") (codes "/api/v1") ≡ true) ↔ (
    (codes "/api" ≡ [])
    ⊎ ((codes "/api" ≡ codes "/")
        ⊎ ((codes "/api/v1" ≡ codes "/api")
            ⊎ (((rest : Bytes) × (codes "/api/v1" ≡ codes "/api" ++ (b'/' ∷ rest)))
                ⊎ ((rest : Bytes) × (codes "/api/v1" ≡ codes "/api" ++ rest)
                    × (has_suffix (codes "/api") (codes "/") ≡ true))))))
path_matches_iff_example = path_matches_iff (codes "/api") (codes "/api/v1")
