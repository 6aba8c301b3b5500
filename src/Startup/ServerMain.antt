-- ===== src/Startup/ServerMain.antt =====
-- The arguments and settings of `tinykv-server` (src/server_main.cpp, and `PersistenceConfig` of
-- include/tinykv/persistence/persistence_manager.hpp).
pub mod Port
pub mod Run
use tiny_kv_distributed_stor.Prelude.{
  ℕ, ◌≡◌, refl, Bool, true, false, Option, none, some, List, [], ◌∷◌, if◌then◌else◌, not, map,
}
use tiny_kv_distributed_stor.Prelude.Text.{Text, codes, text_eq}
use tiny_kv_distributed_stor.Prelude.Int.{ℤ, pos, negsuc, eq_ℤ}
use tiny_kv_distributed_stor.Prelude.Decimal.{stoi}
use tiny_kv_distributed_stor.Config.{
  Config, empty_config, load_from_file, get_string, get_int, get_bool,
}
use tiny_kv_distributed_stor.Logger.{LogLevel}

-- -1 stands for "not set on the command line".
pub record Args : Type 0 where
  pub config_path : Text
  pub port : ℤ
  pub max_keys : ℤ

abbrev pub default_args : Args
default_args = record { config_path = codes "tinykv.conf"; port = negsuc 0; max_keys = negsuc 0 }

-- The options, as the chain of tests tells them apart.
pub data ArgOption : Type 0 where
  config_option : ArgOption
  port_option : ArgOption
  max_keys_option : ArgOption
  no_option : ArgOption

unfoldable pub option_of : Text → ArgOption
option_of arg =
    if text_eq arg (codes "--config")
    then ArgOption.config_option
    else if text_eq arg (codes "--port")
    then ArgOption.port_option
    else if text_eq arg (codes "--max-keys")
    then ArgOption.max_keys_option
    else ArgOption.no_option

-- The arguments after the program's name. `none` where `std::stoi` throws, which ends the program.
unfoldable pub parse_args_from : Args → List Text → Option Args
unfolding option_of
parse_args_from args [] = some args
parse_args_from args (arg ∷ []) = some args
parse_args_from args (arg ∷ value ∷ rest) = elim (option_of arg) [
  | ArgOption.config_option ↦ parse_args_from (record args { config_path = value }) rest
  | ArgOption.port_option ↦ elim (stoi value) [
    | none ↦ none
    | some n ↦ parse_args_from (record args { port = n }) rest
  ]
  | ArgOption.max_keys_option ↦ elim (stoi value) [
    | none ↦ none
    | some n ↦ parse_args_from (record args { max_keys = n }) rest
  ]
  | ArgOption.no_option ↦ parse_args_from args (value ∷ rest)
]

abbrev pub parse_args : List Text → Option Args
parse_args arguments = parse_args_from default_args arguments

unfoldable pub parse_log_level : Text → LogLevel
parse_log_level level =
    if text_eq level (codes "DEBUG")
    then LogLevel.debug
    else if text_eq level (codes "WARN")
    then LogLevel.warn
    else if text_eq level (codes "ERROR")
    then LogLevel.error
    else LogLevel.info

pub record PersistenceConfig : Type 0 where
  pub append_only : Bool
  pub dir : Text
  pub db_filename : Text
  pub append_filename : Text
  pub save_interval_seconds : ℤ

pub record Settings : Type 0 where
  pub port : ℤ
  pub max_keys : ℕ
  pub persistence : PersistenceConfig
  pub log_level : LogLevel

-- `n != -1 ? n : other`
abbrev pub unless_unset : ℤ → ℤ → ℤ
unless_unset n other = if eq_ℤ n (negsuc 0) then other else n

-- `n > 0 ? static_cast<size_t>(n) : 0`
abbrev pub capacity_of : ℤ → ℕ
capacity_of (pos n) = n
capacity_of (negsuc n) = 0

unfoldable pub persistence_config : Config → PersistenceConfig
unfolding get_bool get_string get_int
persistence_config config = record {
  append_only = get_bool (codes "appendonly") true config;
  dir = get_string (codes "dir") (codes "./data") config;
  db_filename = get_string (codes "dbfilename") (codes "dump.tkv") config;
  append_filename = get_string (codes "appendfilename") (codes "tinykv.aof") config;
  save_interval_seconds = get_int (codes "save_interval") (pos 300) config;
}

unfoldable pub settings_of : Args → Config → Settings
unfolding get_int get_string persistence_config parse_log_level
settings_of args config = record {
  port = unless_unset args.port (get_int (codes "port") (pos 6380) config);
  max_keys = capacity_of (unless_unset args.max_keys (get_int (codes "max_keys") (pos 0) config));
  persistence = persistence_config config;
  log_level = parse_log_level (get_string (codes "log_level") (codes "INFO") config);
}

-- `main` up to the first object. `files` is the content of the files that can be read.
unfoldable pub start_server : (Text → Option Text) → List Text → Option Settings
unfolding parse_args_from load_from_file settings_of
start_server files arguments = elim (parse_args arguments) [
  | none ↦ none
  | some args ↦ some (settings_of args (load_from_file (files args.config_path) empty_config).1)
]

abbrev pub port_of : Option Settings → Option ℤ
port_of none = none
port_of (some s) = some s.port

start_server_test :
    port_of (
      start_server
        (λ path. some (codes "port = 1\n"))
        (map codes ("-v" ∷ "--port" ∷ "7001" ∷ "--config" ∷ [])))
    ≡ some (pos 7001)
unfolding start_server text_eq stoi get_int
start_server_test = refl
