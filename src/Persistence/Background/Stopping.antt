-- ===== src/Persistence/Background/Stopping.antt =====
-- What `stop` of src/persistence/persistence_manager.cpp waits for, and a second of the timer.
use tiny_kv_distributed_stor.Prelude.{
  ℕ, ◌+◌, ◌≡◌, refl, ap, true, false, ◌&&◌, List, [], ◌∷◌, ltb, leb, length, length-append, arith,
  Bool-cases, inl, inr,
}
use tiny_kv_distributed_stor.Storage.KvStore.{KvStore}
use tiny_kv_distributed_stor.Persistence.Manager.{PersistenceManager, timer_round}
use tiny_kv_distributed_stor.Persistence.Background.{
  Task, run_task, tick, Background, Step, second_passed, timer_ends, task_runs, task_counts,
  task_notifies, write_recorded, stop_begins, stop_returns, Reach, start, later,
}

-- The count is of the tasks that have not counted themselves out, and once `stop` has returned the timer
-- has, too, and there are none.
record IsCounted (b : Background) : Type 0 where
  all_there : b.in_flight ≡ length b.queued + b.ran
  ended : b.stopped ≡ true → (b.running ≡ false) × (b.in_timer ≡ false) × (b.in_flight ≡ 0)

Step-IsCounted : {b c : Background} → Step b c → IsCounted b → IsCounted c
Step-IsCounted {b} (second_passed run timer) h = record {
  all_there = omega (
    arith,
    h.all_there,
    length-append b.queued (tick b.files.save_interval_seconds b.seconds_since_snapshot).1,
  );
  ended = λ e. let off = (h.ended e).0 in absurd (cc);
}
Step-IsCounted (timer_ends off) h = record {
  all_there = h.all_there;
  ended = λ e. (off, refl, (h.ended e).2);
}
Step-IsCounted {b} (task_runs store before after task at) h = record {
  all_there = omega (
    arith,
    h.all_there,
    ap length at,
    length-append before (task ∷ after),
    length-append before after,
  );
  ended = h.ended;
}
Step-IsCounted (task_counts ran at) h = record {
  all_there = omega (arith, h.all_there, at);
  ended = λ e. ((h.ended e).0, (h.ended e).1, omega (arith, (h.ended e).2));
}
Step-IsCounted (task_notifies n at) h = record { all_there = h.all_there; ended = h.ended }
Step-IsCounted (write_recorded line) h = record { all_there = h.all_there; ended = h.ended }
Step-IsCounted (stop_begins run) h = record {
  all_there = h.all_there;
  ended = λ e. (refl, (h.ended e).1, (h.ended e).2);
}
Step-IsCounted (stop_returns off timer none_left) h = record {
  all_there = h.all_there;
  ended = λ e. (off, timer, none_left);
}

Reach-IsCounted : {files : PersistenceManager} {b : Background} → Reach files b → IsCounted b
Reach-IsCounted start = record { all_there = refl; ended = λ e. absurd (cc) }
Reach-IsCounted (later r st) = Step-IsCounted st (Reach-IsCounted r)

Step-stopped : {b c : Background} → Step b c → b.stopped ≡ true → c.stopped ≡ true
Step-stopped (second_passed run timer) h = h
Step-stopped (timer_ends off) h = h
Step-stopped (task_runs store before after task at) h = h
Step-stopped (task_counts ran at) h = h
Step-stopped (task_notifies n at) h = h
Step-stopped (write_recorded line) h = h
Step-stopped (stop_begins run) h = h
Step-stopped (stop_returns off timer none_left) h = refl

length-zero : {A : Type 0} (xs : List A) → length xs ≡ 0 → xs ≡ []
length-zero [] h = refl
length-zero (x ∷ xs) h = absurd (omega (arith, h))

-- Once `stop` has returned, the body of every task that was submitted has run and none is queued, and
-- this is still so after any further step: the timer submits no more.
pub stop_waits :
    (files : PersistenceManager) (b c : Background)
    → Reach files b
    → b.stopped ≡ true
    → Step b c
    → (b.queued ≡ []) × (b.ran ≡ 0) × (c.queued ≡ []) × (c.ran ≡ 0) × (c.stopped ≡ true)
stop_waits files b c r h st =
    let now = Reach-IsCounted r in
    let then = Reach-IsCounted (later r st) in
    let still = Step-stopped st h in
    let here = (now.ended h).2 in
    let there = (then.ended still).2 in
    (
      length-zero b.queued (omega (arith, now.all_there, here)),
      omega (arith, now.all_there, here),
      length-zero c.queued (omega (arith, then.all_there, there)),
      omega (arith, then.all_there, there),
      still,
    )

abbrev pub run_tasks : KvStore → List Task → PersistenceManager → PersistenceManager
run_tasks store [] p = p
run_tasks store (task ∷ tasks) p = run_tasks store tasks (run_task store task p)

-- If the tasks of a second are run at once and in order, the files and the seconds are those of
-- `timer_round`.
tick-timer_round :
    (store : KvStore) (seconds : ℕ) (p : PersistenceManager)
    → timer_round store (seconds, p) ≡ (
      (tick p.save_interval_seconds seconds).0,
      run_tasks store (tick p.save_interval_seconds seconds).1 p,
    )
unfolding timer_round tick run_task
tick-timer_round store seconds p =
    elim (Bool-cases (ltb 0 p.save_interval_seconds && leb p.save_interval_seconds (seconds + 1))) [
      | inl due ↦ rw due refl
      | inr not_due ↦ rw not_due refl
    ]
