-- ===== src/Server/Durable/Restart.antt =====
-- The start and the orderly end of `main` (src/server_main.cpp), and the values after a restart.
use mathlib.Core.List.{append-nil}
use mathlib.Core.Path.{subst}
use tiny_kv_distributed_stor.Prelude.{
  ℕ, ◌≡◌, refl, sym, ap, ◌∙◌, true, Option, none, some, List, [], All, if_cases, arith,
}
use tiny_kv_distributed_stor.Prelude.Text.{Text}
use tiny_kv_distributed_stor.Prelude.Dict.{find}
use tiny_kv_distributed_stor.Storage.KvStore
use tiny_kv_distributed_stor.Storage.KvStore.Contents.{contents}
use tiny_kv_distributed_stor.Storage.KvStore.Valid.{init-IsValid}
use tiny_kv_distributed_stor.Storage.ExpiryManager
use tiny_kv_distributed_stor.Storage.ExpiryManager.{TimePoint}
use tiny_kv_distributed_stor.Storage.ExpiryManager.Sweep.{init-IsValid as expiry-init-IsValid}
use tiny_kv_distributed_stor.Persistence.Files.{AofWriter, flush, open_aof}
use tiny_kv_distributed_stor.Persistence.Manager.{PersistenceManager}
use tiny_kv_distributed_stor.Replication.Manager as Replication
use tiny_kv_distributed_stor.Executor.{Executor}
use tiny_kv_distributed_stor.Executor.Effect.{Values}
use tiny_kv_distributed_stor.Recovery.{get_lines, replay_lines, replay_all, load_from_file, recover}
use tiny_kv_distributed_stor.Recovery.Lines.{IsLine, unlines, get_lines-unlines}
use tiny_kv_distributed_stor.Recovery.Values.{Has, lines_effect, replay_all-Has}
use tiny_kv_distributed_stor.Recovery.Snapshot.{no_values}
use tiny_kv_distributed_stor.Server.{Request, serve}
use tiny_kv_distributed_stor.Server.Durable.Step.{Journal, Logged, serve-Journal}

-- What `main` constructs before the recovery, from the files that it finds: an empty, unbounded
-- store, no schedules, and the AOF opened at its end.
unfoldable pub boot : PersistenceManager → Executor
boot files = record {
  store = KvStore.init 0;
  expiry = ExpiryManager.init;
  has_persistence = true;
  persistence = record files {
    aof_writer = open_aof files.aof_writer.can_open files.aof_writer.on_disk;
  };
  has_replication = true;
  replication = Replication.init;
  total_commands = 0;
  total_hits = 0;
  total_misses = 0;
}

-- The files as an orderly end leaves them: closing the AOF writes its buffer out.
unfoldable pub shut_down : Executor → PersistenceManager
shut_down s = record s.persistence { aof_writer = flush s.persistence.aof_writer }

no_entries : contents (KvStore.init 0) ≡ no_values
unfolding KvStore.init KvStore.entries find
no_entries = refl

pub boot-Has : (files : PersistenceManager) → Has no_values (boot files)
unfolding boot
boot-Has files = record {
  valid = record { stored = (init-IsValid 0).0; scheduled = expiry-init-IsValid };
  unbounded = unfold KvStore.init in refl;
  values = no_entries;
}

-- Whenever it is read back into an empty store, the snapshot gives these values.
abbrev pub Loads : Values → Option Text → Type 0
Loads base snapshot =
    (clock : ℕ → TimePoint) (ex : Executor)
    → Has no_values ex
    → Has base (load_from_file clock snapshot ex).1

pub Loads-none : Loads no_values none
unfolding load_from_file
Loads-none clock ex h = h

replay_lines-Has :
    (clock : ℕ → TimePoint) (lines : List Text) (content : Text) (m : Values) (ex : Executor)
    → All IsLine lines
    → content ≡ unlines lines
    → Has m ex
    → Has (lines_effect lines m) (replay_lines clock content ex)
unfolding replay_lines
replay_lines-Has clock lines content m ex are_lines e h =
    subst (λ ls. Has (lines_effect lines m) (replay_all clock 0 ls ex))
      (sym (ap get_lines e ∙ get_lines-unlines lines are_lines))
      (replay_all-Has clock 0 lines m ex h)

pub recover-Has :
    (c d : ℕ → TimePoint) (base : Values) (lines : List Text) (files : PersistenceManager)
    → files.append_only ≡ true
    → Loads base files.snapshot
    → All IsLine lines
    → files.aof_writer.on_disk ≡ unlines lines
    → Has (lines_effect lines base) (recover c d (boot files))
unfolding recover boot open_aof
recover-Has c d base lines files logging loads are_lines e =
    if_cases (Has (lines_effect lines base)) files.append_only
      (λ _. replay_lines-Has d lines _ base _ are_lines e (loads c (boot files) (boot-Has files)))
      (λ off. absurd (ground (arith, logging, off)))

-- If the files of a server hold its values, in the snapshot and the AOF, then a restart, after an
-- orderly end, gives the values back.
restart-Journal :
    (c d : ℕ → TimePoint) (base : Values) (s : Executor)
    → Journal base s.persistence.snapshot s
    → Loads base s.persistence.snapshot
    → contents (recover c d (boot (shut_down s))).store ≡ contents s.store
unfolding shut_down flush
restart-Journal c d base s j loads =
    let closed : (flush s.persistence.aof_writer).on_disk ≡ unlines j.lines =
      if_cases (λ (w : AofWriter). w.on_disk ≡ unlines j.lines) s.persistence.aof_writer.is_open
        (λ _. j.written) (λ off. absurd (ground (arith, j.opened, off))) in
    (recover-Has c d base j.lines (shut_down s) j.logging loads j.are_lines closed).values
    ∙ sym j.has.values

-- The AOF is on, its file can be opened, and neither file has anything in it yet.
pub record IsNew (files : PersistenceManager) : Type 0 where
  pub logging : files.append_only ≡ true
  pub can_open : files.aof_writer.can_open ≡ true
  pub empty_aof : files.aof_writer.on_disk ≡ []
  pub no_snapshot : files.snapshot ≡ none

load-none :
    (c : ℕ → TimePoint) (o : Option Text) (ex : Executor)
    → o ≡ none
    → (load_from_file c o ex).1 ≡ ex
unfolding load_from_file
load-none c o ex e = rw (e, load_from_file)

load-empty :
    (c : ℕ → TimePoint) (content : Text) (ex : Executor)
    → content ≡ []
    → (load_from_file c (some content) ex).1 ≡ ex
unfolding load_from_file replay_lines replay_all
load-empty c content ex e = rw (e, get_lines)

-- Starting on new files does nothing.
pub recover-new :
    (c d : ℕ → TimePoint) (files : PersistenceManager)
    → IsNew files
    → recover c d (boot files) ≡ boot files
unfolding recover boot open_aof
recover-new c d files new =
    if_cases (λ (t : Executor). t ≡ boot files) files.append_only
      (λ _.
        load-empty d files.aof_writer.on_disk _ new.empty_aof
        ∙ load-none c files.snapshot _ new.no_snapshot)
      (λ _. load-none c files.snapshot _ new.no_snapshot)

pub boot-Journal : (files : PersistenceManager) → IsNew files → Journal no_values none (boot files)
unfolding boot open_aof
boot-Journal files new = record {
  lines = [];
  has = unfold lines_effect in boot-Has files;
  written = append-nil files.aof_writer.on_disk ∙ new.empty_aof;
  are_lines = tt;
  logging = new.logging;
  opened = new.can_open;
  kept = new.no_snapshot;
}

-- What is served after a point where the files hold the values, other than SAVE, is restored too.
pub served-restart :
    (c d : ℕ → TimePoint) (base : Values) (snapshot : Option Text) (requests : List Request)
    (s : Executor)
    → All Logged requests
    → Journal base snapshot s
    → Loads base snapshot
    → contents (recover c d (boot (shut_down (serve requests s)))).store
      ≡ contents (serve requests s).store
served-restart c d base snapshot requests s logged j loads =
    let served = serve-Journal base snapshot requests s logged j in
    restart-Journal c d base (serve requests s)
      (subst (λ o. Journal base o (serve requests s)) (sym served.kept) served)
      (subst (Loads base) (sym served.kept) loads)

-- A server with no capacity limit starts on new files: the AOF is on and can be opened, and there
-- is no AOF content and no snapshot. It serves any lines but SAVE, while no key expires and no line
-- arrives from a primary, and ends in an orderly way. After a restart it has, for every key, the
-- value that it had, whatever the clocks show.
restart_restores :
    (c d c' d' : ℕ → TimePoint) (files : PersistenceManager) (requests : List Request)
    → IsNew files
    → All Logged requests
    → contents (recover c' d' (boot (shut_down (serve requests (recover c d (boot files)))))).store
      ≡ contents (serve requests (recover c d (boot files))).store
restart_restores c d c' d' files requests new logged =
    served-restart c' d' no_values none requests _ logged
      (subst (Journal no_values none) (sym (recover-new c d files new)) (boot-Journal files new))
      Loads-none
