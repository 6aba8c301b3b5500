-- ===== src/Tests/Mains.antt =====
-- A server that is started twice (src/server_main.cpp).
use tiny_kv_distributed_stor.Prelude.{◌≡◌, refl, Bool, true, false, none, some, List, [], ◌∷◌, map}
use tiny_kv_distributed_stor.Prelude.Text.{Text, codes, text_eq}
use tiny_kv_distributed_stor.Prelude.Int.{pos, negsuc}
use tiny_kv_distributed_stor.Prelude.Decimal.{stoi}
use tiny_kv_distributed_stor.Storage.KvStore.Contents.{contents}
use tiny_kv_distributed_stor.Config.{load_from_file, get_int, get_string, get_bool}
use tiny_kv_distributed_stor.Logger.{LogLevel}
use tiny_kv_distributed_stor.Executor.{Executor}
use tiny_kv_distributed_stor.Recovery.{recover}
use tiny_kv_distributed_stor.Server.{serve}
use tiny_kv_distributed_stor.Server.Durable.Restart.{shut_down}
use tiny_kv_distributed_stor.Net.TcpServer.{StartAnswers}
use tiny_kv_distributed_stor.Startup.ServerMain.{
  Args, Settings, start_server, parse_args, parse_args_from, option_of, settings_of,
  persistence_config, parse_log_level,
}
use tiny_kv_distributed_stor.Startup.ServerMain.Run.{
  Disk, snapshot_path, aof_path, construct, run_server, left_on,
}
use tiny_kv_distributed_stor.Startup.ServerMain.Run.Restarts.{
  executor_in, executor_in-run_server, main_restarts,
}
use tiny_kv_distributed_stor.Tests.Runs.{clock, requests, requests-AreLogged}

abbrev empty_disk : Disk
empty_disk path = none

abbrev writable : Text → Bool
writable path = true

abbrev arguments : List Text
arguments = map codes ("--port" ∷ "7001" ∷ [])

abbrev args : Args
args = record { config_path = codes "tinykv.conf"; port = pos 7001; max_keys = negsuc 0 }

abbrev settings : Settings
settings = record {
  port = pos 7001;
  max_keys = 0;
  persistence = record {
    append_only = true;
    dir = codes "./data";
    db_filename = codes "dump.tkv";
    append_filename = codes "tinykv.aof";
    save_interval_seconds = pos 300;
  };
  log_level = LogLevel.info;
}

arguments-parse : parse_args arguments ≡ some args
unfolding parse_args_from option_of text_eq stoi
arguments-parse = refl

has_settings : start_server empty_disk arguments ≡ some settings
unfolding start_server parse_args_from option_of text_eq stoi load_from_file settings_of get_int
    get_string get_bool persistence_config parse_log_level
has_settings = refl

abbrev answers : Bool → StartAnswers
answers listens = record { has_socket = true; takes_option = true; binds = true; listens = listens }

abbrev first : Executor
first = recover clock clock (construct writable empty_disk settings)

abbrev left : Disk
left = left_on settings.persistence (shut_down (serve requests first)) empty_disk

settings-aof : aof_path settings.persistence ≡ codes "./data/tinykv.aof"
unfolding aof_path
settings-aof = refl

apart : text_eq (snapshot_path settings.persistence) (aof_path settings.persistence) ≡ false
unfolding aof_path snapshot_path text_eq
apart = refl

config_elsewhere :
    (text_eq args.config_path (aof_path settings.persistence) ≡ false)
    × (text_eq args.config_path (snapshot_path settings.persistence) ≡ false)
unfolding aof_path snapshot_path text_eq
config_elsewhere = (refl, refl)

main_restarts_example :
    (second : Executor) × (executor_in
        (run_server (answers false) writable left clock clock arguments)
      ≡ some second)
    × (contents second.store ≡ contents (serve requests first).store)
main_restarts_example =
    main_restarts writable empty_disk settings requests refl refl refl refl refl apart
      requests-AreLogged (answers true) (answers false) clock clock clock clock arguments args first
      arguments-parse config_elsewhere.0 config_elsewhere.1 has_settings
      (executor_in-run_server (answers true) writable empty_disk clock clock arguments settings
        has_settings)
