-- ===== src/Logger/Color.antt =====
-- A line in colour shows the documented format; a line without colour misses two blanks of
-- it.
use mathlib.Core.List.{append-nil}
use vxapigateway.Prelude.{
  ℕ, zero, suc, ◌≡◌, refl, ap, ◌∙◌, true, false, List, [], ◌∷◌, ◌++◌, none, some, All, ltb,
}
use vxapigateway.Prelude.Bytes.{Bytes, codes, beq}
use vxapigateway.Dashboard.{strip_ansi}
use vxapigateway.Dashboard.Width.{Shows, Shows-plain, Shows-strip, Shows-joined}
use vxapigateway.Logger.{
  Logger, ansi_blue, ansi_gray, ansi_reset, level_string, level_color, pad_five, or_gateway,
  request_part, pairs_part, log_line, log,
}
use vxapigateway.Logger.Pieces.{
  IsPlain, Shows-ansi_reset, Shows-ansi_gray, Shows-ansi_blue, Shows-level_color, Shows-level,
  Shows-open, Shows-close, Shows-blank, Shows-component, Shows-request, Shows-pairs,
  Shows-line_feed,
}

-- The words of a line, as the comment in `log` and the README show them. A level takes five places.
abbrev pub printed_level : ℕ → Bytes
printed_level zero = codes "DEBUG"
printed_level (suc zero) = codes "INFO "
printed_level (suc (suc zero)) = codes "WARN "
printed_level (suc (suc (suc zero))) = codes "ERROR"
printed_level (suc (suc (suc (suc n)))) = codes "?    "

abbrev pub printed_component : Bytes → Bytes
printed_component [] = codes "gateway"
printed_component (c ∷ s) = c ∷ s

abbrev pub printed_request : Bytes → Bytes
printed_request [] = []
printed_request (c ∷ s) = codes " req=" ++ (c ∷ s)

abbrev pub printed_pairs : List Bytes → Bytes
printed_pairs [] = []
printed_pairs (key ∷ []) = codes " " ++ key
printed_pairs (key ∷ value ∷ kvs) =
    codes " " ++ (key ++ (codes "=" ++ (value ++ printed_pairs kvs)))

-- A line, with a gap on both sides of the level: `[timestamp] LEVEL [component] req=id msg k1=v1 k2=v2`
-- for a blank.
abbrev pub layout : Bytes → ℕ → Bytes → Bytes → Bytes → Bytes → List Bytes → Bytes
layout gap level ts component request_id msg kvs =
    codes "["
    ++ (ts
        ++ (codes "]"
            ++ (gap
                ++ (printed_level level
                    ++ (gap
                        ++ (codes "["
                            ++ (printed_component component
                                ++ (codes "]"
                                    ++ (printed_request request_id
                                        ++ (codes " "
                                            ++ (msg ++ (printed_pairs kvs ++ codes "\n"))))))))))))

-- What a line in colour shows, in the words of the code.
abbrev shown_line : ℕ → Bytes → Bytes → Bytes → Bytes → List Bytes → Bytes
shown_line level ts component request_id msg kvs =
    codes "["
    ++ (ts
        ++ (codes "] "
            ++ (pad_five (level_string level)
                ++ (codes " ["
                    ++ (or_gateway component
                        ++ (codes "]"
                            ++ (request_part false request_id
                                ++ (codes " "
                                    ++ (msg ++ (pairs_part false kvs ++ codes "\n"))))))))))

level_string_lem : (level : ℕ) → pad_five (level_string level) ≡ printed_level level
unfolding level_string
level_string_lem zero = refl
level_string_lem (suc zero) = refl
level_string_lem (suc (suc zero)) = refl
level_string_lem (suc (suc (suc zero))) = refl
level_string_lem (suc (suc (suc (suc n)))) = refl

or_gateway_lem : (component : Bytes) → or_gateway component ≡ printed_component component
unfolding or_gateway beq
or_gateway_lem [] = refl
or_gateway_lem (c ∷ s) = refl

request_part_lem : (id : Bytes) → request_part false id ≡ printed_request id
unfolding request_part beq
request_part_lem [] = refl
request_part_lem (c ∷ s) = ap (λ t. codes " req=" ++ (c ∷ t)) (append-nil s)

pairs_part_lem : (kvs : List Bytes) → pairs_part false kvs ≡ printed_pairs kvs
unfolding pairs_part
pairs_part_lem [] = refl
pairs_part_lem (key ∷ []) = refl
pairs_part_lem (key ∷ value ∷ kvs) =
    ap (λ t. codes " " ++ (key ++ (codes "=" ++ (value ++ t)))) (pairs_part_lem kvs)

module _ (level : ℕ) (ts component request_id msg : Bytes) (kvs : List Bytes) where
  -- The pieces of a line in colour, with what they show.
  abbrev pieces : List (Bytes × Bytes)
  pieces =
      (ansi_gray, [])
      ∷ (codes "[", codes "[")
      ∷ (ts, ts)
      ∷ (codes "]", codes "]")
      ∷ (ansi_reset ++ (codes " " ++ level_color level), codes " ")
      ∷ (pad_five (level_string level), pad_five (level_string level))
      ∷ (ansi_reset ++ (codes " " ++ ansi_blue), codes " ")
      ∷ (codes "[", codes "[")
      ∷ (or_gateway component, or_gateway component)
      ∷ (codes "]", codes "]")
      ∷ (ansi_reset, [])
      ∷ (request_part true request_id, request_part false request_id)
      ∷ (codes " ", codes " ")
      ∷ (msg, msg)
      ∷ (pairs_part true kvs, pairs_part false kvs)
      ∷ (codes "\n", codes "\n")
      ∷ []

  Shows-log_line :
      IsPlain ts
      → IsPlain component
      → IsPlain request_id
      → IsPlain msg
      → All IsPlain kvs
      → Shows
          (log_line true level ts component request_id msg kvs)
          (shown_line level ts component request_id msg kvs)
  unfolding log_line
  Shows-log_line time comp id text values = Shows-joined pieces (
    Shows-ansi_gray,
    (
      Shows-open,
      (
        Shows-plain ts time,
        (
          Shows-close,
          (
            Shows-level_color level,
            (
              Shows-level level,
              (
                Shows-ansi_blue,
                (
                  Shows-open,
                  (
                    Shows-component component comp,
                    (
                      Shows-close,
                      (
                        Shows-ansi_reset,
                        (
                          Shows-request request_id id,
                          (
                            Shows-blank,
                            (Shows-plain msg text, (Shows-pairs kvs values, (Shows-line_feed, tt))),
                          ),
                        ),
                      ),
                    ),
                  ),
                ),
              ),
            ),
          ),
        ),
      ),
    ),
  )

  shown_line-layout :
      shown_line level ts component request_id msg kvs
      ≡ layout (codes " ") level ts component request_id msg kvs
  shown_line-layout =
      rw
        (
          level_string_lem level,
          or_gateway_lem component,
          request_part_lem request_id,
          pairs_part_lem kvs,
        )
        refl

  log_line-layout :
      log_line false level ts component request_id msg kvs
      ≡ layout [] level ts component request_id msg kvs
  unfolding log_line
  log_line-layout =
      rw
        (
          level_string_lem level,
          or_gateway_lem component,
          request_part_lem request_id,
          pairs_part_lem kvs,
        )
        refl

-- A logger writes a line exactly for the levels from its own on. If none of the texts contains the
-- escape byte, a line in colour shows the documented format, `[timestamp] LEVEL [component] req=id msg
-- k1=v1`, with five places for the level; a line without colour is the same but for the blanks on both
-- sides of the level, which it does not have.
pub log_lem :
    (ts : Bytes) (level : ℕ) (request_id msg : Bytes) (kvs : List Bytes) (l : Logger)
    → IsPlain ts
    → IsPlain l.component
    → IsPlain request_id
    → IsPlain msg
    → All IsPlain kvs
    → (ltb level l.level ≡ true → log ts level request_id msg kvs l ≡ none)
      × (ltb level l.level ≡ false
          → (line : Bytes) × (log ts level request_id msg kvs l ≡ some line)
            × (l.use_color ≡ true
                → strip_ansi line ≡ layout (codes " ") level ts l.component request_id msg kvs)
            × (l.use_color ≡ false → line ≡ layout [] level ts l.component request_id msg kvs))
unfolding log
log_lem ts level request_id msg kvs l time comp id text values = (
  λ below. rw below refl,
  λ reached. (
    log_line l.use_color level ts l.component request_id msg kvs,
    rw reached refl,
    λ colored. rw colored (
        Shows-strip _ (shown_line level ts l.component request_id msg kvs)
          (Shows-log_line level ts l.component request_id msg kvs time comp id text values)
        ∙ shown_line-layout level ts l.component request_id msg kvs),
    λ plain. rw plain (log_line-layout level ts l.component request_id msg kvs),
  ),
)
