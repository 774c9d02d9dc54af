-- ===== src/Logger/Tests.antt =====
-- The theorem about the logger at a concrete line.
use vxapigateway.Prelude.{◌≡◌, true, false, [], ◌∷◌, none, some, ltb, arith}
use vxapigateway.Prelude.Bytes.{Bytes, codes}
use vxapigateway.Dashboard.{strip_ansi}
use vxapigateway.Logger.{Logger, log}
use vxapigateway.Logger.Color.{log_lem}

abbrev colored : Logger
colored = record { level = 1; use_color = true; component = codes "a" }

log_lem_example :
    let written = log (codes "t") 2 (codes "7") (codes "m") (codes "k" ∷ codes "v" ∷ []) colored in
    (ltb 2 1 ≡ true → written ≡ none)
    × (ltb 2 1 ≡ false
        → (line : Bytes) × (written ≡ some line)
          × (true ≡ true → strip_ansi line ≡ codes "[t] WARN  [a] req=7 m k=v\n")
          × (true ≡ false → line ≡ codes "[t]WARN [a] req=7 m k=v\n"))
log_lem_example =
    log_lem (codes "t") 2 (codes "7") (codes "m") (codes "k" ∷ codes "v" ∷ []) colored
      (ground arith) (ground arith) (ground arith) (ground arith) (ground arith)
