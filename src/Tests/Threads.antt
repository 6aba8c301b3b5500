-- ===== src/Tests/Threads.antt =====
-- A pool of one thread that runs one task (src/concurrency/thread_pool.cpp), and the end of a server
-- (src/net/tcp_server.cpp).
use tiny_kv_distributed_stor.Prelude.{ℕ, ◌*◌, ◌<◌, ◌≡◌, refl, true, false, [], ◌∷◌, arith, inl}
use tiny_kv_distributed_stor.Concurrency.ThreadPool.{
  Worker, Pool, update, woken, new_pool, take, finish, leave, sleep, Progress, work, notify_all,
  submit, stop_all, goes_on, Reach, start, later,
}
use tiny_kv_distributed_stor.Concurrency.ThreadPool.Queue.{sum_of}
use tiny_kv_distributed_stor.Concurrency.ThreadPool.Joining.{
  moves_left, busy_moves, joined_runs_all,
}

-- The worker slept before the task 7 was submitted; then the destructor began.
abbrev sleeping : Pool ℕ
sleeping = record new_pool { workers = update (λ i. Worker.waiting) 0 Worker.asleep }

abbrev submitted_one : Pool ℕ
submitted_one = record sleeping { tasks = 7 ∷ []; notices = 1; submitted = 7 ∷ [] }

abbrev stopping : Pool ℕ
stopping = record submitted_one { stop = true; waking = true }

abbrev awake : Pool ℕ
awake = record stopping { workers = λ i. woken (stopping.workers i); waking = false }

abbrev busy : Pool ℕ
busy = record awake {
  workers = update awake.workers 0 (Worker.running 7);
  tasks = [];
  started = 7 ∷ [];
}

abbrev idle : Pool ℕ
idle = record busy { workers = update busy.workers 0 Worker.waiting; finished = 7 ∷ [] }

abbrev at_rest : Pool ℕ
at_rest = record idle { workers = update idle.workers 0 Worker.returned }

submitted_one-Reach : Reach 1 submitted_one
submitted_one-Reach =
    later {p = sleeping}
      (later {p = new_pool} start (goes_on (work (sleep 0 (omega arith) refl refl refl))))
      (submit 7 refl)

stopping-Reach : Reach 1 stopping
stopping-Reach = later {p = submitted_one} submitted_one-Reach (stop_all refl)

-- The worker sleeps, and nobody has notified it yet.
busy_moves_example :
    ((q : Pool ℕ) × Progress 1 submitted_one q)
    × ((q : Pool ℕ) → Progress 1 submitted_one q → moves_left 1 q < moves_left 1 submitted_one)
busy_moves_example = busy_moves 1 submitted_one 0 submitted_one-Reach (omega arith) (inl (λ e. cc))

at_rest-Reach : Reach 1 at_rest
at_rest-Reach =
    later {p = idle}
      (later {p = busy}
        (later {p = awake} (later {p = stopping} stopping-Reach (goes_on (notify_all refl)))
          (goes_on (work (take 0 7 [] (omega arith) refl refl))))
        (goes_on (work (finish 0 7 (omega arith) refl))))
      (goes_on (work (leave 0 (omega arith) refl refl refl)))

all_returned : (i : ℕ) → i < 1 → at_rest.workers i ≡ Worker.returned
all_returned i h = ground arith

joined_runs_all_example :
    (at_rest.tasks ≡ [])
    × (at_rest.started ≡ at_rest.submitted)
    × ((g : ℕ → ℕ) → sum_of g at_rest.finished ≡ sum_of g at_rest.submitted)
joined_runs_all_example = joined_runs_all 1 at_rest at_rest-Reach (omega arith) all_returned

-- A connection that does not end.
abbrev one_left : ℕ → ℕ
one_left i = 1

abbrev clock : ℕ → ℕ
clock i = 20 * i
