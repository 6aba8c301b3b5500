-- ===== src/Startup/ServerMain/Port.antt =====
-- The port of `tinykv-server` (src/server_main.cpp), from its arguments and its configuration file.
use tiny_kv_distributed_stor.Prelude.{
  ◌≡◌, refl, ap, ◌∙◌, Option, some, List, [], ◌∷◌, ◌++◌, All, if◌then◌else◌,
}
use tiny_kv_distributed_stor.Prelude.Text.{Text, codes, text_eq}
use tiny_kv_distributed_stor.Prelude.Int.{ℤ, pos, negsuc, eq_ℤ}
use tiny_kv_distributed_stor.Prelude.Decimal.{to_string, Fits32}
use tiny_kv_distributed_stor.Prelude.Decimal.RoundTrip.{stoi-to_string}
use tiny_kv_distributed_stor.Recovery.Lines.{IsLine, unlines}
use tiny_kv_distributed_stor.Config.{empty_config, load_from_file, get_int}
use tiny_kv_distributed_stor.Config.Last.{plain_line, get_int-last}
use tiny_kv_distributed_stor.Startup.ServerMain.{
  Args, default_args, parse_args_from, parse_args, unless_unset, settings_of, start_server, port_of,
}

option_config :
    (path : Text)
    → parse_args (codes "--config" ∷ path ∷ []) ≡ some (record default_args { config_path = path })
unfolding parse_args_from text_eq
option_config path = refl

option_port :
    (path : Text) (m : ℤ)
    → Fits32 m
    → parse_args (codes "--config" ∷ path ∷ codes "--port" ∷ to_string m ∷ [])
      ≡ some (record default_args { config_path = path; port = m })
unfolding parse_args_from text_eq
option_port path m fits = rw (stoi-to_string m fits, parse_args, parse_args_from) refl

-- `main` after its arguments were read.
start_server_lem :
    (files : Text → Option Text) (arguments : List Text) (args : Args)
    → parse_args arguments ≡ some args
    → port_of (start_server files arguments)
      ≡ some (
          unless_unset args.port (
            get_int
              (codes "port")
              (pos 6380)
              (load_from_file (files args.config_path) empty_config).1))
unfolding start_server settings_of
start_server_lem files arguments args e = rw (e, port_of, start_server) refl

-- If the last line of the configuration file is `port = n`, then `--config` with the path of the file makes
-- n the port, and with `--port m` after it the port is m, whatever the file says, unless m is -1: then it is
-- n again. Both numbers are 32-bit numbers.
start_server_port :
    (files : Text → Option Text) (path : Text) (lines : List Text) (n m : ℤ)
    → All IsLine lines
    → Fits32 n
    → Fits32 m
    → files path ≡ some (unlines (lines ++ plain_line (codes "port") (to_string n) ∷ []))
    → (port_of (start_server files (codes "--config" ∷ path ∷ [])) ≡ some n)
      × (port_of (start_server files (codes "--config" ∷ path ∷ codes "--port" ∷ to_string m ∷ []))
          ≡ some (if eq_ℤ m (negsuc 0) then n else m))
start_server_port files path lines n m h fn fm e =
    let file : get_int (codes "port") (pos 6380) (load_from_file (files path) empty_config).1 ≡ n =
      ap (λ f. get_int (codes "port") (pos 6380) (load_from_file f empty_config).1) e
      ∙ get_int-last lines (codes "port") (pos 6380) n empty_config h
          (refl, (refl, refl), (refl, (refl, (refl, (refl, tt)))))
          (refl, (refl, (refl, (refl, tt)))) fn in
    (
      start_server_lem files _ (record default_args { config_path = path }) (option_config path)
          ∙ ap some file,
      start_server_lem files _ (record default_args { config_path = path; port = m })
            (option_port path m fm)
          ∙ ap (λ k. some (unless_unset m k)) file,
    )
