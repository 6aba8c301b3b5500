-- ===== src/Persistence/Background.antt =====
-- The timer thread, its background tasks and `stop` of src/persistence/persistence_manager.cpp as a
-- step relation: the timer, the threads of the pool, the connections that record writes, and the
-- thread that calls `stop` take their steps in any order.
pub mod Stopping
use tiny_kv_distributed_stor.Prelude.{
  ℕ, zero, suc, ◌+◌, ◌-◌, ◌≡◌, refl, Bool, true, false, ◌&&◌, List, [], ◌∷◌, ◌++◌, ◌==◌, ltb, leb,
  length, if◌then◌else◌,
}
use tiny_kv_distributed_stor.Prelude.Text.{Text}
use tiny_kv_distributed_stor.Storage.KvStore.{KvStore}
use tiny_kv_distributed_stor.Persistence.Files.{flush}
use tiny_kv_distributed_stor.Persistence.Manager.{PersistenceManager, record_write, save}

-- The two kinds of tasks that `timerLoop` submits.
pub data Task : Type 0 where
  flush_task : Task
  snapshot_task : Task

unfoldable pub run_task : KvStore → Task → PersistenceManager → PersistenceManager
unfolding flush save
run_task store Task.flush_task p = record p { aof_writer = flush p.aof_writer }
run_task store Task.snapshot_task p = save store p

-- One second of the timer: the seconds since the last snapshot, and what is submitted.
unfoldable pub tick : ℕ → ℕ → ℕ × List Task
tick interval seconds =
    if ltb 0 interval && leb interval (seconds + 1)
    then (0, Task.flush_task ∷ Task.snapshot_task ∷ [])
    else (seconds + 1, Task.flush_task ∷ [])

-- `queued` are the tasks whose body has not run, `ran` counts those whose body has run and that have
-- not yet counted themselves out, and `notifying` those that have counted down to 0 and not yet
-- notified. `in_timer` is whether the timer's loop has not returned, `stopped` whether the
-- call of `stop` that ended the run has. Any other call of it returns at once and changes nothing.
pub record Background : Type 0 where
  pub running : Bool
  pub in_timer : Bool
  pub seconds_since_snapshot : ℕ
  pub in_flight : ℕ
  pub queued : List Task
  pub ran : ℕ
  pub notifying : ℕ
  pub stopped : Bool
  pub files : PersistenceManager

-- `start`
abbrev pub started : PersistenceManager → Background
started files = record {
  running = true;
  in_timer = true;
  seconds_since_snapshot = 0;
  in_flight = 0;
  queued = [];
  ran = 0;
  notifying = 0;
  stopped = false;
  files = files;
}

-- `submitBackgroundTask` for each of these tasks.
abbrev pub submit_all : List Task → Background → Background
submit_all tasks b = record b { queued = b.queued ++ tasks; in_flight = b.in_flight + length tasks }

abbrev pub second_over : Background → Background
second_over b =
    let (seconds, tasks) = tick b.files.save_interval_seconds b.seconds_since_snapshot in
    submit_all tasks (record b { seconds_since_snapshot = seconds })

-- `if (--inFlightTasks_ == 0)`
abbrev pub counted : ℕ → Background → Background
counted ran b = record b {
  ran = ran;
  in_flight = b.in_flight - 1;
  notifying = if b.in_flight == 1 then suc b.notifying else b.notifying;
}

pub data Step (b : Background) : Background → Type 0 where
  second_passed : b.running ≡ true → b.in_timer ≡ true → Step b (second_over b)
  timer_ends : b.running ≡ false → Step b (record b { in_timer = false })
  task_runs :
      (store : KvStore) (before after : List Task) (task : Task)
      → b.queued ≡ before ++ task ∷ after
      → Step b (record b {
        queued = before ++ after;
        ran = suc b.ran;
        files = run_task store task b.files;
      })
  task_counts : (ran : ℕ) → b.ran ≡ suc ran → Step b (counted ran b)
  task_notifies : (n : ℕ) → b.notifying ≡ suc n → Step b (record b { notifying = n })
  write_recorded : (line : Text) → Step b (record b { files = record_write line b.files })
  stop_begins : b.running ≡ true → Step b (record b { running = false })
  stop_returns :
      b.running ≡ false
      → b.in_timer ≡ false
      → b.in_flight ≡ 0
      → Step b (record b { stopped = true })

pub data Reach (files : PersistenceManager) : Background → Type 0 where
  start : Reach files (started files)
  later : {b c : Background} → Reach files b → Step b c → Reach files c
