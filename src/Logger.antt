-- ===== src/Logger.antt =====
-- `Logger` (src/logger.cpp, include/tinykv/logger.hpp). The global variables are a record, with the
-- lines that went to each stream. The time stamp is an argument.
use tiny_kv_distributed_stor.Prelude.{
  ℕ, ◌≡◌, refl, Bool, false, List, [], ◌∷◌, ◌++◌, ltb, if◌then◌else◌,
}
use tiny_kv_distributed_stor.Prelude.Text.{Text, codes}

pub data LogLevel : Type 0 where
  debug : LogLevel
  info : LogLevel
  warn : LogLevel
  error : LogLevel

-- The order of the enumeration.
abbrev pub severity : LogLevel → ℕ
severity LogLevel.debug = 0
severity LogLevel.info = 1
severity LogLevel.warn = 2
severity LogLevel.error = 3

abbrev pub level_name : LogLevel → Text
level_name LogLevel.debug = codes "DEBUG"
level_name LogLevel.info = codes "INFO"
level_name LogLevel.warn = codes "WARN"
level_name LogLevel.error = codes "ERROR"

pub record Logger : Type 0 where
  pub level : LogLevel
  pub use_file : Bool
  pub log_file : List Text
  pub standard_output : List Text
  pub standard_error : List Text

abbrev pub initial_logger : Logger
initial_logger = record {
  level = LogLevel.info;
  use_file = false;
  log_file = [];
  standard_output = [];
  standard_error = [];
}

-- `can_open` is the answer of the file system.
unfoldable pub init_logger : Bool → LogLevel → Text → Logger → Logger
init_logger can_open level [] l = record l { level = level }
init_logger can_open level (c ∷ file) l = record l { level = level; use_file = can_open }

unfoldable pub set_level : LogLevel → Logger → Logger
set_level level l = record l { level = level }

unfoldable pub log_line : Text → LogLevel → Text → Text
log_line timestamp level message =
    codes "[" ++ (timestamp ++ (codes "] [" ++ (level_name level ++ (codes "] " ++ message))))

unfoldable pub to_stream : LogLevel → Text → Logger → Logger
to_stream LogLevel.error line l = record l { standard_error = l.standard_error ++ line ∷ [] }
to_stream _ line l = record l { standard_output = l.standard_output ++ line ∷ [] }

unfoldable pub to_log_file : Text → Logger → Logger
to_log_file line l = if l.use_file then record l { log_file = l.log_file ++ line ∷ [] } else l

unfoldable pub log : Text → LogLevel → Text → Logger → Logger
unfolding log_line to_stream to_log_file
log timestamp level message l =
    let line = log_line timestamp level message in
    if ltb (severity level) (severity l.level) then l else to_log_file line (to_stream level line l)

log_tests :
    let l = log (codes "now") LogLevel.warn (codes "full") initial_logger in
    (l.standard_output ≡ codes "[now] [WARN] full" ∷ []) × (log [] LogLevel.debug [] l ≡ l)
unfolding log
log_tests = (refl, refl)
