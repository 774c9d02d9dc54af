-- ===== src/Dashboard/Width.antt =====
-- How wide the texts of the dashboard are on a terminal.
use mathlib.Core.List.{append_assoc, append-nil}
use vxapigateway.Prelude.{
  ℕ, zero, suc, ◌+◌, ◌-◌, ◌/◌, ◌≤◌, ◌<◌, ◌≡◌, ◌≢◌, refl, sym, ap, ◌∙◌, Bool, true, false, List, [],
  ◌∷◌, ◌++◌, length, length-append, All, arith, ◌==◌, if◌then◌else◌, ltb,
}
use vxapigateway.Prelude.Bytes.{Bytes, codes}
use vxapigateway.Prelude.Word.{is_negative}
use vxapigateway.Dashboard.{
  escape, repeat, strip_from, strip_ansi, byte_length, center_pad, color_bar, cl_reset, cl_cyan,
  cl_red, cl_yellow, cl_green, cl_gray, full_block, middle_point, double_bar, banner_width,
  pad_right, banner_row, banner_blank,
}

-- A text shows `v` on a terminal, whatever follows: its escape sequences are complete.
abbrev pub Shows : Bytes → Bytes → Type 0
Shows s v = (t : Bytes) → strip_ansi (s ++ t) ≡ v ++ strip_ansi t

pub Shows-append : (s t v w : Bytes) → Shows s v → Shows t w → Shows (s ++ t) (v ++ w)
Shows-append s t v w h k u =
    ap strip_ansi (append_assoc s t u)
    ∙ h (t ++ u)
    ∙ ap (λ x. v ++ x) (k u)
    ∙ sym (append_assoc v w (strip_ansi u))

-- Texts one behind the other, each with what it shows.
abbrev pub joined : List (Bytes × Bytes) → Bytes × Bytes
joined [] = ([], [])
joined (p ∷ pieces) = (p.0 ++ (joined pieces).0, p.1 ++ (joined pieces).1)

pub Shows-joined :
    (pieces : List (Bytes × Bytes))
    → All (λ p. Shows p.0 p.1) pieces
    → Shows (joined pieces).0 (joined pieces).1
Shows-joined [] h = λ t. refl
Shows-joined (p ∷ pieces) (h, hs) =
    Shows-append p.0 (joined pieces).0 p.1 (joined pieces).1 h (Shows-joined pieces hs)

-- A text without escape sequences shows itself.
pub Shows-plain : (s : Bytes) → All (λ c. c ≢ escape) s → Shows s s
unfolding strip_ansi strip_from
Shows-plain [] h t = refl
Shows-plain (c ∷ s) (h, hs) t =
    let other : (c == escape) ≡ false = ground arith in
    rw (other, strip_from) (ap (λ x. c ∷ x) (Shows-plain s hs t))

pub Shows-strip : (s v : Bytes) → Shows s v → strip_ansi s ≡ v
unfolding strip_ansi strip_from
Shows-strip s v h = ap strip_ansi (sym (append-nil s)) ∙ h [] ∙ append-nil v

repeat-plain : (c n : ℕ) → c ≢ escape → All (λ d. d ≢ escape) (repeat c n)
repeat-plain c zero h = tt
repeat-plain c (suc n) h = (h, repeat-plain c n h)

pub Shows-repeat : (c n : ℕ) → c ≢ escape → Shows (repeat c n) (repeat c n)
Shows-repeat c n h = Shows-plain (repeat c n) (repeat-plain c n h)

length-repeat : (c n : ℕ) → length (repeat c n) ≡ n
length-repeat c zero = refl
length-repeat c (suc n) = ap suc (length-repeat c n)

byte_length-ascii : (s : Bytes) → All (λ c. c < 128) s → byte_length s ≡ length s
byte_length-ascii [] h = refl
byte_length-ascii (c ∷ s) (h, hs) = let rest = byte_length-ascii s hs in ground arith

Shows-cyan : Shows cl_cyan []
unfolding strip_ansi strip_from
Shows-cyan t = refl

Shows-reset : Shows cl_reset []
unfolding strip_ansi strip_from
Shows-reset t = refl

Shows-gray : Shows cl_gray []
unfolding strip_ansi strip_from
Shows-gray t = refl

-- A centred text of ASCII characters is as wide as was asked, if it fits.
pub center_pad-width :
    (s v : Bytes) (width : ℕ)
    → Shows s v
    → All (λ c. c < 128) v
    → length v ≤ width
    → length (strip_ansi (center_pad s width)) ≡ width
unfolding center_pad
center_pad-width s v width shows ascii fits =
    let seen : byte_length (strip_ansi s) ≡ length v =
      ap byte_length (Shows-strip s v shows) ∙ byte_length-ascii v ascii in
    let vis = byte_length (strip_ansi s) in
    let pad = (width - vis) / 2 in
    let right = width - vis - pad in
    let left_blanks = Shows-repeat b' ' pad (λ e. omega arith) in
    let right_blanks = Shows-repeat b' ' right (λ e. omega arith) in
    let all =
      Shows-append (repeat b' ' pad) (s ++ repeat b' ' right) _ _ left_blanks
        (Shows-append s (repeat b' ' right) v (repeat b' ' right) shows right_blanks) in
    ap length (Shows-strip (center_pad s width) _ all)
    ∙ length-append (repeat b' ' pad) (v ++ repeat b' ' right)
    ∙ omega (
      arith,
      length-repeat b' ' pad,
      length-repeat b' ' right,
      length-append v (repeat b' ' right),
      seen,
    )

Shows-color :
    (over_80 over_60 : Bool)
    → Shows (if over_80 then cl_red else if over_60 then cl_yellow else cl_green) []
unfolding strip_ansi strip_from
Shows-color true over_60 t = refl
Shows-color false true t = refl
Shows-color false false t = refl

-- A bar is as wide as was asked, whatever the percentage is rounded to.
pub color_bar-width :
    (over_80 over_60 : Bool) (rounded width : ℕ)
    → length (strip_ansi (color_bar over_80 over_60 rounded width)) ≡ width
unfolding color_bar
color_bar-width over_80 over_60 rounded width =
    let positive = if is_negative rounded then 0 else rounded in
    let filled = if ltb width positive then width else positive in
    let fits : filled ≤ width = ground arith in
    let rest = width - filled in
    let full = Shows-repeat full_block filled (λ e. omega arith) in
    let empty = Shows-repeat middle_point rest (λ e. omega arith) in
    let all = Shows-append _ _ [] _ (Shows-color over_80 over_60) (
      Shows-append (repeat full_block filled) _ _ _ full (
        Shows-append cl_gray _ [] _ Shows-gray
          (Shows-append (repeat middle_point rest) cl_reset _ [] empty Shows-reset))) in
    ap length (Shows-strip _ _ all)
    ∙ length-append (repeat full_block filled) (repeat middle_point rest ++ [])
    ∙ omega (
      arith,
      length-repeat full_block filled,
      length-append (repeat middle_point rest) [],
      length-repeat middle_point rest,
    )

plain_pair : (c d : ℕ) → c ≢ escape → d ≢ escape → Shows (c ∷ d ∷ []) (c ∷ d ∷ [])
plain_pair c d h k = Shows-plain (c ∷ d ∷ []) (h, (k, tt))

-- The rows of the banner, of ASCII characters and short enough, are all as wide as each other, and
-- two characters wider than its frame and its empty rows.
pub banner_row-width :
    (left right v : Bytes)
    → Shows (pad_right 22 left ++ right) v
    → All (λ c. c < 128) v
    → length v ≤ banner_width - 4
    → length (strip_ansi (banner_row left right)) ≡ length (strip_ansi banner_blank) + 2
unfolding banner_row strip_ansi strip_from
banner_row-width left right v shows ascii fits =
    let inner = pad_right 22 left ++ right in
    let seen : byte_length (strip_ansi inner) ≡ length v =
      ap byte_length (Shows-strip inner v shows) ∙ byte_length-ascii v ascii in
    let pad = repeat b' ' (banner_width - 4 - byte_length (strip_ansi inner)) in
    let pieces : List (Bytes × Bytes) =
      (cl_cyan, [])
      ∷ (codes "  ", codes "  ")
      ∷ (double_bar ∷ b' ' ∷ [], double_bar ∷ b' ' ∷ [])
      ∷ (cl_reset, [])
      ∷ (inner, v)
      ∷ (pad, pad)
      ∷ (cl_cyan, [])
      ∷ (b' ' ∷ double_bar ∷ [], b' ' ∷ double_bar ∷ [])
      ∷ (cl_reset, [])
      ∷ [] in
    let all : Shows (banner_row left right) (joined pieces).1 = Shows-joined pieces (
      Shows-cyan,
      (
        plain_pair b' ' b' ' (λ e. omega arith) (λ e. omega arith),
        (
          plain_pair double_bar b' ' (λ e. omega arith) (λ e. omega arith),
          (
            Shows-reset,
            (
              shows,
              (
                Shows-repeat b' ' _ (λ e. omega arith),
                (
                  Shows-cyan,
                  (
                    plain_pair b' ' double_bar (λ e. omega arith) (λ e. omega arith),
                    (Shows-reset, tt),
                  ),
                ),
              ),
            ),
          ),
        ),
      ),
    ) in
    let whole : length (v ++ (pad ++ (b' ' ∷ double_bar ∷ []))) ≡ 70 =
      length-append v (pad ++ (b' ' ∷ double_bar ∷ []))
      ∙ omega (
        arith,
        length-append pad (b' ' ∷ double_bar ∷ []),
        length-repeat b' ' (banner_width - 4 - byte_length (strip_ansi inner)),
        seen,
        fits,
      ) in
    ap length (Shows-strip (banner_row left right) (joined pieces).1 all)
    ∙ ap (λ n. suc (suc (suc (suc n)))) whole
