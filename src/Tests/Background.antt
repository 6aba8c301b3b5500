-- ===== src/Tests/Background.antt =====
-- A second of the timer, its flush, and a stop (src/persistence/persistence_manager.cpp).
use tiny_kv_distributed_stor.Prelude.{◌≡◌, refl, true, false, []}
use tiny_kv_distributed_stor.Persistence.Background.{
  Task, run_task, tick, Background, started, second_over, counted, second_passed, timer_ends,
  task_runs, task_counts, task_notifies, stop_begins, stop_returns, Reach, start, later,
}
use tiny_kv_distributed_stor.Persistence.Background.Stopping.{stop_waits}
use tiny_kv_distributed_stor.Tests.Runs.{new_files, one_key}

abbrev flushing : Background
flushing = second_over (started new_files)

abbrev flushed : Background
flushed = record flushing {
  queued = [];
  ran = 1;
  files = run_task one_key Task.flush_task new_files;
}

abbrev counted_out : Background
counted_out = record (counted 0 (record flushed { running = false; in_timer = false })) {
  notifying = 1;
}

abbrev stopped : Background
stopped = record counted_out { stopped = true }

flushed-Reach : Reach new_files (record flushed { running = false; in_timer = false })
unfolding tick
flushed-Reach =
    later {b = record flushed { running = false }}
      (later {b = flushed}
        (later {b = flushing} (later {b = started new_files} start (second_passed refl refl))
          (task_runs one_key [] [] Task.flush_task refl))
        (stop_begins refl))
      (timer_ends refl)

-- `stop` has returned, and a task has yet to lock the mutex with which it notifies.
stopped-Reach : Reach new_files stopped
unfolding tick
stopped-Reach =
    later {b = counted_out}
      (later {b = record flushed { running = false; in_timer = false }} flushed-Reach
        (task_counts 0 refl))
      (stop_returns refl refl refl)

abbrev notified : Background
notified = record stopped { notifying = 0 }

stop_waits_example :
    (stopped.queued ≡ [])
    × (stopped.ran ≡ 0)
    × (notified.queued ≡ [])
    × (notified.ran ≡ 0)
    × (notified.stopped ≡ true)
stop_waits_example = stop_waits new_files stopped notified stopped-Reach refl (task_notifies 0 refl)
