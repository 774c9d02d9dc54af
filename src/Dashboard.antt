-- ===== src/Dashboard.antt =====
-- The counters and the text helpers of dashboard.go. Texts are lists of runes here. Floating-point
-- numbers, and what package fmt makes of them, are parameters.
pub mod Width
pub mod History
mod Tests
use vxapigateway.Prelude.{
  ℕ, zero, suc, ◌+◌, ◌-◌, ◌/◌, ◌%◌, Bool, true, false, List, [], ◌∷◌, ◌++◌, modify, length, ltb,
  ◌==◌, if◌then◌else◌,
}
use vxapigateway.Prelude.Bytes.{Bytes, codes}
use vxapigateway.Prelude.Word.{add64, slt, is_negative}

-- The byte 033 and a sequence of it.
abbrev pub escape : ℕ
escape = 27

abbrev pub ansi : Bytes → Bytes
ansi code = escape ∷ b'[' ∷ code ++ codes "m"

abbrev pub cl_reset : Bytes
cl_reset = ansi (codes "0")

abbrev pub cl_bold : Bytes
cl_bold = ansi (codes "1")

abbrev pub cl_cyan : Bytes
cl_cyan = ansi (codes "36")

abbrev pub cl_green : Bytes
cl_green = ansi (codes "32")

abbrev pub cl_yellow : Bytes
cl_yellow = ansi (codes "33")

abbrev pub cl_red : Bytes
cl_red = ansi (codes "31")

abbrev pub cl_white : Bytes
cl_white = ansi (codes "97")

abbrev pub cl_gray : Bytes
cl_gray = ansi (codes "90")

-- The slots of the history are 48. Numbers are 64-bit patterns.
pub record DashboardStats : Type 0 where
  pub total_requests : ℕ
  pub active_conns : ℕ
  pub blocked_ips : ℕ
  pub cache_hits : ℕ
  pub circuit_trips : ℕ
  pub request_history : List ℕ
  pub hist_idx : ℕ

-- strings.Repeat of a text of one rune; the zero value of an array of 48.
abbrev pub repeat : ℕ → ℕ → List ℕ
repeat c zero = []
repeat c (suc n) = c ∷ repeat c n

abbrev pub new_dashboard_stats : DashboardStats
new_dashboard_stats = record {
  total_requests = 0;
  active_conns = 0;
  blocked_ips = 0;
  cache_hits = 0;
  circuit_trips = 0;
  request_history = repeat 0 48;
  hist_idx = 0;
}

-- `histIdx` is read as a number: it is not negative before 2 ^ 63 requests.
unfoldable pub record_request : DashboardStats → DashboardStats
record_request d = record d {
  total_requests = add64 d.total_requests 1;
  request_history = modify d.request_history (d.hist_idx % 48) (λ n. add64 n 1);
  hist_idx = add64 d.hist_idx 1;
}

-- stripANSI; the Boolean is `inEsc`.
unfoldable pub strip_from : Bool → Bytes → Bytes
strip_from in_esc [] = []
strip_from in_esc (c ∷ s) =
    let skipping = strip_from true s in
    let writing = strip_from false s in
    if c == escape
    then skipping
    else if in_esc
    then (if c == b'm' then writing else skipping)
    else c ∷ writing

unfoldable pub strip_ansi : Bytes → Bytes
unfolding strip_from
strip_ansi s = strip_from false s

-- The number of bytes of a rune in UTF-8.
abbrev pub rune_length : ℕ → ℕ
rune_length c = if ltb c 128 then 1 else if ltb c 2048 then 2 else if ltb c 65536 then 3 else 4

-- `len(s)`
abbrev pub byte_length : Bytes → ℕ
byte_length [] = 0
byte_length (c ∷ s) = rune_length c + byte_length s

-- A negative pad is 0, as the subtraction is here.
unfoldable pub center_pad : Bytes → ℕ → Bytes
unfolding strip_ansi
center_pad s width =
    let vis = byte_length (strip_ansi s) in
    let pad = (width - vis) / 2 in
    let right = width - vis - pad in repeat b' ' pad ++ (s ++ repeat b' ' right)

unfoldable pub bool_label : Bool → Bytes
bool_label true = cl_green ++ (codes "enabled " ++ cl_reset)
bool_label false = cl_gray ++ (codes "disabled" ++ cl_reset)

-- The runes of the block characters.
abbrev full_block : ℕ
full_block = 9608

abbrev middle_point : ℕ
middle_point = 183

abbrev double_bar : ℕ
double_bar = 9553

-- `over_80` and `over_60` compare the percentage, `rounded` is the number of full cells as a 64-bit
-- pattern.
unfoldable pub color_bar : Bool → Bool → ℕ → ℕ → Bytes
color_bar over_80 over_60 rounded width =
    let color = if over_80 then cl_red else if over_60 then cl_yellow else cl_green in
    let positive = if is_negative rounded then 0 else rounded in
    let filled = if ltb width positive then width else positive in
    color
    ++ (repeat full_block filled ++ (cl_gray ++ (repeat middle_point (width - filled) ++ cl_reset)))

-- `W` of PrintStartupBanner.
abbrev pub banner_width : ℕ
banner_width = 72

-- The verb %-22s, which counts the runes.
abbrev pad_right : ℕ → Bytes → Bytes
pad_right width s = s ++ repeat b' ' (width - length s)

-- The function `row` of PrintStartupBanner.
unfoldable pub banner_row : Bytes → Bytes → Bytes
unfolding strip_ansi
banner_row left right =
    let inner = pad_right 22 left ++ right in
    let pad = banner_width - 4 - byte_length (strip_ansi inner) in
    cl_cyan
    ++ (codes "  "
        ++ (double_bar ∷ b' ' ∷ cl_reset
            ++ (inner ++ (repeat b' ' pad ++ (cl_cyan ++ (b' ' ∷ double_bar ∷ cl_reset))))))

-- The variable `blank`.
abbrev pub banner_blank : Bytes
banner_blank =
    cl_cyan
    ++ (codes "  " ++ (double_bar ∷ repeat b' ' (banner_width - 4) ++ (double_bar ∷ cl_reset)))
