-- ===== src/Logger/Banner.antt =====
-- The banner in colour shows the banner without colour.
use vxapigateway.Prelude.{◌≡◌, refl, true, false, List, [], ◌∷◌, All, arith}
use vxapigateway.Prelude.Bytes.{Bytes, codes}
use vxapigateway.Dashboard.{strip_from, strip_ansi}
use vxapigateway.Dashboard.Width.{
  Shows, Shows-append, Shows-plain, Shows-repeat, Shows-strip, Shows-joined,
}
use vxapigateway.Logger.{
  ansi_bold, ansi_cyan, ansi_dim, ansi_reset, banner_line, banner_lines, print_banner, separator,
}
use vxapigateway.Logger.Pieces.{IsPlain, Shows-ansi_reset, Shows-ansi_dim, Shows-line_feed}

Shows-ansi_bold : Shows ansi_bold []
unfolding strip_ansi strip_from
Shows-ansi_bold t = refl

Shows-ansi_cyan : Shows ansi_cyan []
unfolding strip_ansi strip_from
Shows-ansi_cyan t = refl

Shows-indent : Shows (codes "  ") (codes "  ")
unfolding strip_ansi strip_from
Shows-indent t = refl

Shows-line_feeds : Shows (codes "\n\n") (codes "\n\n")
unfolding strip_ansi strip_from
Shows-line_feeds t = refl

Shows-banner_line :
    (style line : Bytes)
    → Shows style []
    → IsPlain line
    → Shows (banner_line true style line) (banner_line false style line)
Shows-banner_line style line styled plain =
    Shows-joined
      ((codes "  ", codes "  ")
        ∷ (style, [])
        ∷ (line, line)
        ∷ (ansi_reset, [])
        ∷ (codes "\n", codes "\n")
        ∷ [])
      (Shows-indent, (styled, (Shows-plain line plain, (Shows-ansi_reset, (Shows-line_feed, tt)))))

Shows-banner_lines :
    (style : Bytes) (lines : List Bytes)
    → Shows style []
    → All IsPlain lines
    → Shows (banner_lines true style lines) (banner_lines false style lines)
unfolding banner_lines
Shows-banner_lines style [] styled plain = λ t. refl
Shows-banner_lines style (line ∷ lines) styled (plain, plains) =
    Shows-append (banner_line true style line) (banner_lines true ansi_dim lines)
      (banner_line false style line) (banner_lines false ansi_dim lines)
      (Shows-banner_line style line styled plain)
      (Shows-banner_lines ansi_dim lines Shows-ansi_dim plains)

-- The banner in colour shows the text of the banner without colour, if no line contains the escape
-- byte.
pub print_banner-strip_ansi :
    (lines : List Bytes)
    → All IsPlain lines
    → strip_ansi (print_banner true lines) ≡ print_banner false lines
unfolding print_banner
print_banner-strip_ansi lines plain =
    let rule = Shows-repeat b'-' 60 (λ e. omega arith) in
    Shows-strip (print_banner true lines) (print_banner false lines) (
      Shows-joined
        ((codes "\n", codes "\n")
          ∷ (ansi_cyan, [])
          ∷ (separator, separator)
          ∷ (ansi_reset, [])
          ∷ (codes "\n", codes "\n")
          ∷ (banner_lines true ansi_bold lines, banner_lines false ansi_bold lines)
          ∷ (ansi_cyan, [])
          ∷ (separator, separator)
          ∷ (ansi_reset, [])
          ∷ (codes "\n\n", codes "\n\n")
          ∷ [])
        (
          Shows-line_feed,
          (
            Shows-ansi_cyan,
            (
              rule,
              (
                Shows-ansi_reset,
                (
                  Shows-line_feed,
                  (
                    Shows-banner_lines ansi_bold lines Shows-ansi_bold plain,
                    (Shows-ansi_cyan, (rule, (Shows-ansi_reset, (Shows-line_feeds, tt)))),
                  ),
                ),
              ),
            ),
          ),
        ))
