-- ===== src/Startup/ServerMain/Run.antt =====
-- `main` of src/server_main.cpp from its arguments to the server that accepts connections, over the
-- files of a disk: a text for each path that has a file. `can_open` tells which files can be opened
-- for writing.
pub mod Restarts
use tiny_kv_distributed_stor.Prelude.{
  ℕ, Bool, true, false, Option, none, some, List, [], ◌++◌, if◌then◌else◌,
}
use tiny_kv_distributed_stor.Prelude.Text.{Text, codes, text_eq}
use tiny_kv_distributed_stor.Prelude.Int.{ℤ}
use tiny_kv_distributed_stor.Storage.KvStore
use tiny_kv_distributed_stor.Storage.ExpiryManager.{TimePoint}
use tiny_kv_distributed_stor.Persistence.Manager.{PersistenceManager}
use tiny_kv_distributed_stor.Executor.{Executor}
use tiny_kv_distributed_stor.Recovery.{recover}
use tiny_kv_distributed_stor.Server.Durable.Restart.{boot, shut_down}
use tiny_kv_distributed_stor.Net.TcpServer.{StartAnswers, TcpServer, new_server, start_listening}
use tiny_kv_distributed_stor.Startup.ServerMain.{
  PersistenceConfig, Settings, capacity_of, start_server,
}

abbrev pub Disk : Type 0
Disk = Text → Option Text

unfoldable pub snapshot_path : PersistenceConfig → Text
snapshot_path config = config.dir ++ (codes "/" ++ config.db_filename)

unfoldable pub aof_path : PersistenceConfig → Text
aof_path config = config.dir ++ (codes "/" ++ config.append_filename)

abbrev pub text_of : Option Text → Text
text_of none = []
text_of (some content) = content

-- The files that a `PersistenceManager` finds, before its constructor opens the AOF. An interval
-- below zero turns snapshots off, as zero does.
unfoldable pub files_on : (Text → Bool) → Disk → PersistenceConfig → PersistenceManager
unfolding snapshot_path aof_path
files_on can_open disk config = record {
  append_only = config.append_only;
  save_interval_seconds = capacity_of config.save_interval_seconds;
  can_write_snapshot = can_open (snapshot_path config);
  snapshot = disk (snapshot_path config);
  aof_writer = record {
    can_open = can_open (aof_path config);
    is_open = false;
    on_disk = text_of (disk (aof_path config));
    buffered = [];
  };
}

-- The objects of `main`.
unfoldable pub construct : (Text → Bool) → Disk → Settings → Executor
unfolding files_on boot KvStore.init
construct can_open disk settings = record (boot (files_on can_open disk settings.persistence)) {
  store = KvStore.init settings.max_keys;
}

-- How `main` goes on: an exception of `std::stoi`, the exit code 1, or `TcpServer::run`.
pub data ServerRun : Type 0 where
  bad_argument : ServerRun
  not_listening : Executor → ServerRun
  accepting : TcpServer → Executor → ServerRun

abbrev pub listening_or_not : Executor → Bool × TcpServer → ServerRun
listening_or_not s (false, server) = ServerRun.not_listening s
listening_or_not s (true, server) = ServerRun.accepting server s

abbrev pub with_settings :
    StartAnswers
    → (Text → Bool)
    → Disk
    → (ℕ → TimePoint)
    → (ℕ → TimePoint)
    → Option Settings
    → ServerRun
with_settings answers can_open disk c d none = ServerRun.bad_argument
with_settings answers can_open disk c d (some settings) =
    listening_or_not (recover c d (construct can_open disk settings))
      (start_listening answers (new_server settings.port))

-- The recovery comes before the server listens. `c` and `d` are the clocks of its two halves.
unfoldable pub run_server :
    StartAnswers → (Text → Bool) → Disk → (ℕ → TimePoint) → (ℕ → TimePoint) → List Text → ServerRun
unfolding start_server construct recover start_listening
run_server answers can_open disk c d arguments =
    with_settings answers can_open disk c d (start_server disk arguments)

abbrev pub put : Text → Text → Disk → Disk
put path content disk = λ p. if text_eq p path then some content else disk p

abbrev pub put_snapshot : PersistenceConfig → Option Text → Disk → Disk
put_snapshot config none disk = disk
put_snapshot config (some content) disk = put (snapshot_path config) content disk

-- The disk after an orderly end. Opening the AOF has created it.
unfoldable pub left_on : PersistenceConfig → PersistenceManager → Disk → Disk
unfolding snapshot_path aof_path
left_on config p disk =
    if p.aof_writer.is_open
    then put (aof_path config) p.aof_writer.on_disk (put_snapshot config p.snapshot disk)
    else put_snapshot config p.snapshot disk
