-- ===== src/Logger.antt =====
-- The Logger of logger.go: which lines it writes, and how they look. The texts of the arguments, as
-- fmt.Sprint prints them, and of the time are parameters.
pub mod Pieces
pub mod Color
pub mod Banner
mod Tests
use vxapigateway.Prelude.{
  ℕ, zero, suc, ◌-◌, Bool, true, false, List, [], ◌∷◌, ◌++◌, Option, none, some, length, ltb, ◌||◌,
  not, if◌then◌else◌,
}
use vxapigateway.Prelude.Bytes.{Bytes, codes, beq, trim_space, to_upper, to_lower, contains}
use vxapigateway.Dashboard.{ansi, repeat}

-- A LogLevel is an int; the constants are numbered from 0.
abbrev pub level_debug : ℕ
level_debug = 0

abbrev pub level_info : ℕ
level_info = 1

abbrev pub level_warn : ℕ
level_warn = 2

abbrev pub level_error : ℕ
level_error = 3

-- The method `String` of LogLevel.
unfoldable pub level_string : ℕ → Bytes
level_string zero = codes "DEBUG"
level_string (suc zero) = codes "INFO"
level_string (suc (suc zero)) = codes "WARN"
level_string (suc (suc (suc zero))) = codes "ERROR"
level_string (suc (suc (suc (suc n)))) = codes "?"

-- `out` is left out: what `log` writes is its result.
pub record Logger : Type 0 where
  pub level : ℕ
  pub use_color : Bool
  pub component : Bytes

unfoldable pub parse_log_level : Bytes → ℕ
unfolding beq trim_space
parse_log_level s =
    let word = to_upper (trim_space s) in
    if beq word (codes "DEBUG")
    then level_debug
    else if beq word (codes "INFO") || beq word []
    then level_info
    else if beq word (codes "WARN") || beq word (codes "WARNING")
    then level_warn
    else if beq word (codes "ERROR")
    then level_error
    else level_info

-- `get` is os.Getenv, and `goos` is runtime.GOOS.
unfoldable pub use_color_env : (Bytes → Bytes) → Bytes → Bool
unfolding beq contains
use_color_env get goos =
    if not (beq (get (codes "NO_COLOR")) [])
    then false
    else if not (beq (get (codes "FORCE_COLOR")) [])
    then true
    else if beq goos (codes "windows")
    then (let term = to_lower (get (codes "TERM")) in
        let color_term = get (codes "COLORTERM") in
        contains term (codes "color")
        || (contains term (codes "256")
            || (beq color_term (codes "truecolor")
                || (beq color_term (codes "24bit") || not (beq color_term [])))))
    else true

-- The logger that `init` makes.
unfoldable pub default_logger : (Bytes → Bytes) → Bytes → Logger
unfolding parse_log_level use_color_env
default_logger get goos = record {
  level = parse_log_level (get (codes "LOG_LEVEL"));
  use_color = use_color_env get goos;
  component = [];
}

unfoldable pub with_component : Bytes → Logger → Logger
with_component component l = record l { component = component }

abbrev pub ansi_reset : Bytes
ansi_reset = ansi (codes "0")

abbrev pub ansi_dim : Bytes
ansi_dim = ansi (codes "2")

abbrev pub ansi_blue : Bytes
ansi_blue = ansi (codes "34")

abbrev pub ansi_gray : Bytes
ansi_gray = ansi (codes "90")

-- The colour of a level.
abbrev pub level_color : ℕ → Bytes
level_color zero = ansi (codes "36")
level_color (suc zero) = ansi (codes "32")
level_color (suc (suc zero)) = ansi (codes "33")
level_color (suc (suc (suc zero))) = ansi (codes "31")
level_color (suc (suc (suc (suc n)))) = []

-- What is written only in colour.
abbrev pub paint : Bool → Bytes → Bytes
paint true s = s
paint false s = []

-- The verb %-5s
abbrev pub pad_five : Bytes → Bytes
pad_five s = s ++ repeat b' ' (5 - length s)

abbrev pub or_gateway : Bytes → Bytes
unfolding beq
or_gateway component = if beq component [] then codes "gateway" else component

abbrev pub request_part : Bool → Bytes → Bytes
unfolding beq
request_part color request_id =
    if beq request_id []
    then []
    else paint color ansi_dim ++ (codes " req=" ++ (request_id ++ paint color ansi_reset))

-- The keys and the values in turn; one that is left over stands alone.
unfoldable pub pairs_part : Bool → List Bytes → Bytes
pairs_part color [] = []
pairs_part color (key ∷ []) = codes " " ++ key
pairs_part color (key ∷ value ∷ kvs) =
    let rest = pairs_part color kvs in
    codes " "
    ++ (paint color ansi_dim ++ (key ++ (codes "=" ++ (paint color ansi_reset ++ (value ++ rest)))))

unfoldable pub log_line : Bool → ℕ → Bytes → Bytes → Bytes → Bytes → List Bytes → Bytes
unfolding level_string pairs_part
log_line color level ts component request_id msg kvs =
    paint color ansi_gray
    ++ (codes "["
        ++ (ts
            ++ (codes "]"
                ++ (paint color (ansi_reset ++ (codes " " ++ level_color level))
                    ++ (pad_five (level_string level)
                        ++ (paint color (ansi_reset ++ (codes " " ++ ansi_blue))
                            ++ (codes "["
                                ++ (or_gateway component
                                    ++ (codes "]"
                                        ++ (paint color ansi_reset
                                            ++ (request_part color request_id
                                                ++ (codes " "
                                                    ++ (msg
                                                        ++ (pairs_part color kvs
                                                            ++ codes "\n"))))))))))))))

-- The method `log`: the line that it writes, if any, at the time `ts`.
unfoldable pub log : Bytes → ℕ → Bytes → Bytes → List Bytes → Logger → Option Bytes
unfolding log_line
log ts level request_id msg kvs l =
    if ltb level l.level
    then none
    else some (log_line l.use_color level ts l.component request_id msg kvs)

-- What `PrintBanner` writes.
abbrev pub separator : Bytes
separator = repeat b'-' 60

abbrev pub ansi_bold : Bytes
ansi_bold = ansi (codes "1")

abbrev pub ansi_cyan : Bytes
ansi_cyan = ansi (codes "36")

abbrev pub banner_line : Bool → Bytes → Bytes → Bytes
banner_line color style line =
    codes "  " ++ (paint color style ++ (line ++ (paint color ansi_reset ++ codes "\n")))

unfoldable pub banner_lines : Bool → Bytes → List Bytes → Bytes
banner_lines color style [] = []
banner_lines color style (line ∷ lines) =
    banner_line color style line ++ banner_lines color ansi_dim lines

-- The first line is bold, the others are dim.
unfoldable pub print_banner : Bool → List Bytes → Bytes
unfolding banner_lines
print_banner color lines =
    codes "\n"
    ++ (paint color ansi_cyan
        ++ (separator
            ++ (paint color ansi_reset
                ++ (codes "\n"
                    ++ (banner_lines color ansi_bold lines
                        ++ (paint color ansi_cyan
                            ++ (separator ++ (paint color ansi_reset ++ codes "\n\n"))))))))
