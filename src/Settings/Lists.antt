-- ===== src/Settings/Lists.antt =====
-- Lists in the values of variables.
use vxapigateway.Prelude.{◌≡◌, ◌≢◌, false, List, [], ◌∷◌, ◌++◌, All}
use vxapigateway.Prelude.Bytes.{Bytes, is_space}
use vxapigateway.Settings.{is_separator}

-- An entry: not empty, without separators and white space.
abbrev pub IsEntry : Bytes → Type 0
IsEntry x = (x ≢ []) × All (λ c. (is_separator c ≡ false) × (is_space c ≡ false)) x

-- The entries, each with a comma behind it.
abbrev pub listed : List Bytes → Bytes
listed [] = []
listed (x ∷ xs) = x ++ (b',' ∷ listed xs)
