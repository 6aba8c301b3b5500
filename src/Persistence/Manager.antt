-- ===== src/Persistence/Manager.antt =====
-- `PersistenceManager` (src/persistence/persistence_manager.cpp,
-- include/tinykv/persistence/persistence_manager.hpp), with `saveToFile` of snapshot.cpp: the two
-- files, and what `recordWrite`, `save` and the timer's rounds do to them.
use tiny_kv_distributed_stor.Prelude.{
  ℕ, ◌+◌, Bool, true, false, ◌&&◌, Option, some, ltb, leb, if◌then◌else◌,
}
use tiny_kv_distributed_stor.Prelude.Text.{Text}
use tiny_kv_distributed_stor.Storage.KvStore.{KvStore}
use tiny_kv_distributed_stor.Persistence.Files.{AofWriter, append, flush, reset, save_snapshot}

-- `snapshot` is `none` while the file does not exist. `can_write_snapshot` is the file system's
-- answer to opening it.
pub record PersistenceManager : Type 0 where
  pub append_only : Bool
  pub save_interval_seconds : ℕ
  pub can_write_snapshot : Bool
  pub snapshot : Option Text
  pub aof_writer : AofWriter

-- `SnapshotManager::saveToFile`; false where the file cannot be opened.
unfoldable pub save_to_file : KvStore → PersistenceManager → Bool × PersistenceManager
unfolding save_snapshot
save_to_file store p =
    if p.can_write_snapshot
    then (true, record p { snapshot = some (save_snapshot store) })
    else (false, p)

unfoldable pub record_write : Text → PersistenceManager → PersistenceManager
unfolding append
record_write request_line p =
    if p.append_only then record p { aof_writer = append request_line p.aof_writer } else p

-- The result of `saveToFile` is not looked at.
unfoldable pub save : KvStore → PersistenceManager → PersistenceManager
unfolding save_to_file reset
save store p = let (_, p') = save_to_file store p in record p' { aof_writer = reset p'.aof_writer }

-- One second of `timerLoop` with the tasks that it submits, each run at once: a flush, and a
-- snapshot whenever the interval is over. The number counts the seconds since the last one. An
-- interval of zero or less, here zero, turns snapshots off.
unfoldable pub timer_round : KvStore → ℕ × PersistenceManager → ℕ × PersistenceManager
unfolding flush save
timer_round store (seconds_since_snapshot, p) =
    let flushed = record p { aof_writer = flush p.aof_writer } in
    let seconds = seconds_since_snapshot + 1 in
    if ltb 0 p.save_interval_seconds && leb p.save_interval_seconds seconds
    then (0, save store flushed)
    else (seconds, flushed)
