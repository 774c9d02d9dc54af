-- ===== src/Logger/Pieces.antt =====
-- What the pieces of a line show.
use vxapigateway.Prelude.{ℕ, zero, suc, ◌≢◌, refl, true, false, List, [], ◌∷◌, ◌++◌, All}
use vxapigateway.Prelude.Bytes.{Bytes, codes, beq}
use vxapigateway.Dashboard.{escape, strip_from, strip_ansi}
use vxapigateway.Dashboard.Width.{Shows, Shows-append, Shows-plain, Shows-joined}
use vxapigateway.Logger.{
  ansi_blue, ansi_dim, ansi_gray, ansi_reset, level_string, level_color, pad_five, or_gateway,
  request_part, pairs_part,
}

abbrev pub IsPlain : Bytes → Type 0
IsPlain s = All (λ c. c ≢ escape) s

pub Shows-ansi_reset : Shows ansi_reset []
unfolding strip_ansi strip_from
Shows-ansi_reset t = refl

pub Shows-ansi_dim : Shows ansi_dim []
unfolding strip_ansi strip_from
Shows-ansi_dim t = refl

pub Shows-ansi_gray : Shows ansi_gray []
unfolding strip_ansi strip_from
Shows-ansi_gray t = refl

pub Shows-ansi_blue : Shows (ansi_reset ++ (codes " " ++ ansi_blue)) (codes " ")
unfolding strip_ansi strip_from
Shows-ansi_blue t = refl

pub Shows-level_color :
    (level : ℕ) → Shows (ansi_reset ++ (codes " " ++ level_color level)) (codes " ")
unfolding strip_ansi strip_from
Shows-level_color zero t = refl
Shows-level_color (suc zero) t = refl
Shows-level_color (suc (suc zero)) t = refl
Shows-level_color (suc (suc (suc zero))) t = refl
Shows-level_color (suc (suc (suc (suc n)))) t = refl

pub Shows-level :
    (level : ℕ) → Shows (pad_five (level_string level)) (pad_five (level_string level))
unfolding strip_ansi strip_from level_string
Shows-level zero t = refl
Shows-level (suc zero) t = refl
Shows-level (suc (suc zero)) t = refl
Shows-level (suc (suc (suc zero))) t = refl
Shows-level (suc (suc (suc (suc n)))) t = refl

-- Literals of the format.
pub Shows-open : Shows (codes "[") (codes "[")
unfolding strip_ansi strip_from
Shows-open t = refl

pub Shows-close : Shows (codes "]") (codes "]")
unfolding strip_ansi strip_from
Shows-close t = refl

pub Shows-blank : Shows (codes " ") (codes " ")
unfolding strip_ansi strip_from
Shows-blank t = refl

Shows-equals : Shows (codes "=") (codes "=")
unfolding strip_ansi strip_from
Shows-equals t = refl

pub Shows-line_feed : Shows (codes "\n") (codes "\n")
unfolding strip_ansi strip_from
Shows-line_feed t = refl

Shows-req : Shows (codes " req=") (codes " req=")
unfolding strip_ansi strip_from
Shows-req t = refl

pub Shows-component :
    (component : Bytes) → IsPlain component → Shows (or_gateway component) (or_gateway component)
unfolding strip_ansi strip_from beq
Shows-component [] h = λ t. refl
Shows-component (c ∷ s) h = Shows-plain (c ∷ s) h

pub Shows-request :
    (request_id : Bytes)
    → IsPlain request_id
    → Shows (request_part true request_id) (request_part false request_id)
unfolding beq
Shows-request [] h = λ t. refl
Shows-request (c ∷ s) h =
    Shows-joined
      ((ansi_dim, []) ∷ (codes " req=", codes " req=") ∷ (c ∷ s, c ∷ s) ∷ (ansi_reset, []) ∷ [])
      (Shows-ansi_dim, (Shows-req, (Shows-plain (c ∷ s) h, (Shows-ansi_reset, tt))))

pub Shows-pairs :
    (kvs : List Bytes) → All IsPlain kvs → Shows (pairs_part true kvs) (pairs_part false kvs)
unfolding pairs_part
Shows-pairs [] h = λ t. refl
Shows-pairs (key ∷ []) (h, hs) =
    Shows-append (codes " ") key (codes " ") key Shows-blank (Shows-plain key h)
Shows-pairs (key ∷ value ∷ kvs) (h, (k, hs)) =
    let rest = Shows-pairs kvs hs in
    let last = value ++ pairs_part true kvs in
    let shown = value ++ pairs_part false kvs in
    Shows-append (codes " ") (ansi_dim ++ (key ++ (codes "=" ++ (ansi_reset ++ last)))) (codes " ")
      (key ++ (codes "=" ++ shown)) Shows-blank
      (Shows-append ansi_dim (key ++ (codes "=" ++ (ansi_reset ++ last))) []
        (key ++ (codes "=" ++ shown)) Shows-ansi_dim
        (Shows-append key (codes "=" ++ (ansi_reset ++ last)) key (codes "=" ++ shown)
          (Shows-plain key h)
          (Shows-append (codes "=") (ansi_reset ++ last) (codes "=") shown Shows-equals (
            Shows-append ansi_reset last [] shown Shows-ansi_reset (
              Shows-append value (pairs_part true kvs) value (pairs_part false kvs)
                (Shows-plain value k) rest)))))
