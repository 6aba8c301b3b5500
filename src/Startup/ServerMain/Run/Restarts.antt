-- ===== src/Startup/ServerMain/Run/Restarts.antt =====
-- Two runs of `main` (src/server_main.cpp), the second on the files that the first one left.
use mathlib.Core.Path.{subst}
use tiny_kv_distributed_stor.Prelude.{
  ℕ, ◌≡◌, refl, sym, ap, ◌∙◌, Bool, true, false, Option, none, some, List, ◌++◌, All, if_cases,
}
use tiny_kv_distributed_stor.Prelude.Text.{Text, text_eq, text_eq_refl}
use tiny_kv_distributed_stor.Storage.KvStore
use tiny_kv_distributed_stor.Storage.KvStore.Contents.{contents}
use tiny_kv_distributed_stor.Storage.ExpiryManager.{TimePoint}
use tiny_kv_distributed_stor.Persistence.Files.{AofWriter, flush}
use tiny_kv_distributed_stor.Persistence.Manager.{PersistenceManager}
use tiny_kv_distributed_stor.Executor.{Executor}
use tiny_kv_distributed_stor.Recovery.{recover}
use tiny_kv_distributed_stor.Recovery.Snapshot.{no_values}
use tiny_kv_distributed_stor.Server.{Request, serve}
use tiny_kv_distributed_stor.Server.Durable.Step.{Journal, Logged, serve-Journal}
use tiny_kv_distributed_stor.Server.Durable.Restart.{
  boot, shut_down, IsNew, Loads, Loads-none, boot-Journal, recover-new, recover-Has,
}
use tiny_kv_distributed_stor.Net.TcpServer.{StartAnswers, TcpServer, new_server, start_listening}
use tiny_kv_distributed_stor.Startup.ServerMain.{
  Args, PersistenceConfig, Settings, parse_args, settings_of, start_server,
}
use tiny_kv_distributed_stor.Config.{empty_config, load_from_file}
use tiny_kv_distributed_stor.Startup.ServerMain.Run.{
  Disk, snapshot_path, aof_path, text_of, files_on, construct, ServerRun, listening_or_not,
  with_settings, run_server, put_snapshot, left_on,
}

-- The server that a run has recovered.
abbrev pub executor_in : ServerRun → Option Executor
executor_in ServerRun.bad_argument = none
executor_in (ServerRun.not_listening s) = some s
executor_in (ServerRun.accepting server s) = some s

executor_in-listening :
    (s : Executor) (x : Bool × TcpServer) → executor_in (listening_or_not s x) ≡ some s
executor_in-listening s (false, server) = refl
executor_in-listening s (true, server) = refl

pub executor_in-run_server :
    (answers : StartAnswers) (can_open : Text → Bool) (disk : Disk) (c d : ℕ → TimePoint)
    (arguments : List Text) (settings : Settings)
    → start_server disk arguments ≡ some settings
    → executor_in (run_server answers can_open disk c d arguments)
      ≡ some (recover c d (construct can_open disk settings))
unfolding run_server
executor_in-run_server answers can_open disk c d arguments settings e =
    ap (λ o. executor_in (with_settings answers can_open disk c d o)) e
    ∙ executor_in-listening _ (start_listening answers (new_server settings.port))

some_inj : (s t : Executor) → some s ≡ some t → s ≡ t
some_inj s t e = ap (λ o. elim o [ none ↦ s | some x ↦ x ]) e

module _ (can_open : Text → Bool) (disk : Disk) (settings : Settings) where
  abbrev config : PersistenceConfig
  config = settings.persistence

  -- Without a capacity the objects are those of `boot`.
  construct-boot :
      settings.max_keys ≡ 0
      → construct can_open disk settings ≡ boot (files_on can_open disk config)
  unfolding construct boot
  construct-boot e =
      ap (λ n. record (boot (files_on can_open disk config)) { store = KvStore.init n }) e

  files_on-IsNew :
      config.append_only ≡ true
      → can_open (aof_path config) ≡ true
      → disk (aof_path config) ≡ none
      → disk (snapshot_path config) ≡ none
      → IsNew (files_on can_open disk config)
  unfolding files_on
  files_on-IsNew logging opens no_aof no_snapshot = record {
    logging = logging;
    can_open = opens;
    empty_aof = ap text_of no_aof;
    no_snapshot = no_snapshot;
  }

  -- The AOF is on the disk afterwards, and still no snapshot.
  left_on-files :
      (p : PersistenceManager)
      → p.aof_writer.is_open ≡ true
      → p.snapshot ≡ none
      → text_eq (snapshot_path config) (aof_path config) ≡ false
      → disk (snapshot_path config) ≡ none
      → (left_on config p disk (aof_path config) ≡ some p.aof_writer.on_disk)
        × (left_on config p disk (snapshot_path config) ≡ none)
  unfolding left_on
  left_on-files p opened kept apart no_snapshot =
      let same = text_eq_refl (aof_path config) in
      let nothing = ap (λ o. put_snapshot config o disk (snapshot_path config)) kept in
      rw (opened, left_on) (rw same refl, rw apart (nothing ∙ no_snapshot))

put_snapshot-other :
    (disk : Disk) (config : PersistenceConfig) (path : Text) (o : Option Text)
    → text_eq path (snapshot_path config) ≡ false
    → put_snapshot config o disk path ≡ disk path
put_snapshot-other disk config path none e = refl
put_snapshot-other disk config path (some content) e = rw e refl

-- An orderly end changes no other file.
left_on-other :
    (disk : Disk) (config : PersistenceConfig) (p : PersistenceManager) (path : Text)
    → text_eq path (aof_path config) ≡ false
    → text_eq path (snapshot_path config) ≡ false
    → left_on config p disk path ≡ disk path
unfolding left_on
left_on-other disk config p path no_aof no_dump =
    let same = put_snapshot-other disk config path p.snapshot no_dump in
    if_cases (λ (d : Disk). d path ≡ disk path) p.aof_writer.is_open (λ _. rw no_aof same)
      (λ _. same)

start_server-same :
    (disk disk' : Disk) (arguments : List Text) (args : Args)
    → parse_args arguments ≡ some args
    → disk' args.config_path ≡ disk args.config_path
    → start_server disk' arguments ≡ start_server disk arguments
unfolding start_server
start_server-same disk disk' arguments args parses same =
    rw (parses, start_server)
      (ap (λ o. some (settings_of args (load_from_file o empty_config).1)) same)

flushed :
    (w : AofWriter)
    → w.is_open ≡ true
    → ((flush w).is_open ≡ true) × ((flush w).on_disk ≡ w.on_disk ++ w.buffered)
unfolding flush
flushed w e = rw (e, flush) (refl, refl)

module _ (can_open : Text → Bool) (disk : Disk) (settings : Settings) (requests : List Request)
    (unlimited : settings.max_keys ≡ 0) (logging : settings.persistence.append_only ≡ true)
    (opens : can_open (aof_path settings.persistence) ≡ true)
    (no_aof : disk (aof_path settings.persistence) ≡ none)
    (no_snapshot : disk (snapshot_path settings.persistence) ≡ none)
    (apart : text_eq (snapshot_path settings.persistence) (aof_path settings.persistence) ≡ false)
    (logged : All Logged requests) where
  -- The first server's values are in the AOF.
  served-Journal :
      (c d : ℕ → TimePoint)
      → Journal no_values none (serve requests (recover c d (construct can_open disk settings)))
  served-Journal c d =
      let new = files_on-IsNew can_open disk settings logging opens no_aof no_snapshot in
      let files = files_on can_open disk settings.persistence in
      serve-Journal no_values none requests (recover c d (construct can_open disk settings)) logged
        (subst (Journal no_values none)
          (sym (
            ap (recover c d) (construct-boot can_open disk settings unlimited)
            ∙ recover-new c d files new))
          (boot-Journal files new))

  restored :
      (c d : ℕ → TimePoint) (s : Executor)
      → Journal no_values none s
      → contents
          (recover c d
            (construct can_open (left_on settings.persistence (shut_down s) disk) settings)).store
        ≡ contents s.store
  unfolding shut_down files_on
  restored c d s j =
      let left = left_on settings.persistence (shut_down s) disk in
      let (opened, bytes) = flushed s.persistence.aof_writer j.opened in
      let (aof, snapshot) =
        left_on-files can_open disk settings (shut_down s) opened j.kept apart no_snapshot in
      let h =
        recover-Has c d no_values j.lines (files_on can_open left settings.persistence) logging
          (subst (Loads no_values) (sym snapshot) Loads-none) j.are_lines
          (ap text_of aof ∙ (bytes ∙ j.written)) in
      ap (λ x. contents (recover c d x).store) (construct-boot can_open left settings unlimited)
      ∙ (h.values ∙ sym j.has.values)

  -- A server is started with settings that have no capacity limit and the AOF on, at a path that can be
  -- opened and that is not the snapshot's, and neither file exists. It serves any lines but SAVE, while no
  -- key expires and no line arrives from a primary, and ends in an orderly way. When it is started with
  -- the same arguments again, on the disk that it left, it recovers, for every key, the value that it had,
  -- whether or not it can listen, and whatever the clocks show. Its configuration is in neither file.
  pub main_restarts :
      (answers answers' : StartAnswers) (c d c' d' : ℕ → TimePoint) (arguments : List Text)
      (args : Args) (first : Executor)
      → parse_args arguments ≡ some args
      → text_eq args.config_path (aof_path settings.persistence) ≡ false
      → text_eq args.config_path (snapshot_path settings.persistence) ≡ false
      → start_server disk arguments ≡ some settings
      → executor_in (run_server answers can_open disk c d arguments) ≡ some first
      → (second : Executor) × (executor_in (
            run_server answers' can_open
              (left_on settings.persistence (shut_down (serve requests first)) disk)
              c'
              d'
              arguments)
          ≡ some second)
        × (contents second.store ≡ contents (serve requests first).store)
  main_restarts answers answers' c d c' d' arguments args first parses no_aof_path no_dump_path e
        ran =
      let built = construct can_open disk settings in
      let one : recover c d built ≡ first =
        some_inj (recover c d built) first
          (sym (executor_in-run_server answers can_open disk c d arguments settings e) ∙ ran) in
      let left = left_on settings.persistence (shut_down (serve requests first)) disk in
      let e' =
        start_server-same disk left arguments args parses (
          left_on-other disk settings.persistence (shut_down (serve requests first))
            args.config_path no_aof_path no_dump_path)
        ∙ e in
      let j = subst (λ x. Journal no_values none (serve requests x)) one (served-Journal c d) in
      (
        recover c' d' (construct can_open left settings),
        executor_in-run_server answers' can_open left c' d' arguments settings e',
        restored c' d' (serve requests first) j,
      )
