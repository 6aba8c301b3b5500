-- ===== src/Concurrency/ThreadPool.antt =====
-- `ThreadPool` (src/concurrency/thread_pool.cpp, include/tinykv/concurrency/thread_pool.hpp) as a step
-- relation: n workers, numbered from 0, which interleave with the callers of `submit` and with the
-- destructor. Each step is a part of the code under the queue's mutex, or the end of a task.
pub mod Counts
pub mod Queue
pub mod Joining
use tiny_kv_distributed_stor.Prelude.{
  ℕ, suc, ◌<◌, ◌≡◌, ◌≢◌, Bool, true, false, List, [], ◌∷◌, ◌++◌, ◌==◌, if◌then◌else◌,
}

-- Where a worker stands: before the test of `cv_.wait`, asleep in it, in a task, or past the end of
-- its loop. Only a notification, or a spurious wakeup, brings it from its sleep to the test again.
pub data Worker (A : Type 0) : Type 0 where
  waiting : Worker A
  asleep : Worker A
  running : A → Worker A
  returned : Worker A

-- `notices` counts the callers of `submit` between their push and their `notify_one`, and `waking` is
-- whether the destructor is between its stop and its `notify_all`. The last three fields are history:
-- what was submitted, started and finished so far, in order.
pub record Pool (A : Type 0) : Type 0 where
  pub workers : ℕ → Worker A
  pub tasks : List A
  pub stop : Bool
  pub notices : ℕ
  pub waking : Bool
  pub submitted : List A
  pub started : List A
  pub finished : List A

abbrev pub update {ℓ} : {B : Type ℓ} → (ℕ → B) → ℕ → B → ℕ → B
update f i b j = if i == j then b else f j

-- The constructor: every worker at the head of its loop.
abbrev pub new_pool : {A : Type 0} → Pool A
new_pool = record {
  workers = λ i. Worker.waiting;
  tasks = [];
  stop = false;
  notices = 0;
  waking = false;
  submitted = [];
  started = [];
  finished = [];
}

abbrev pub woken : {A : Type 0} → Worker A → Worker A
woken Worker.waiting = Worker.waiting
woken Worker.asleep = Worker.waiting
woken (Worker.running task) = Worker.running task
woken Worker.returned = Worker.returned

-- A step of a worker in `workerLoop`. The test of the wait succeeds when there is a task or a stop, a
-- worker leaves only if there is a stop and no task, and goes to sleep if there is neither.
pub data Move {A : Type 0} (n : ℕ) (p : Pool A) : Pool A → Type 0 where
  take :
      (i : ℕ) (task : A) (rest : List A)
      → i < n
      → p.workers i ≡ Worker.waiting
      → p.tasks ≡ task ∷ rest
      → Move n p (record p {
        workers = update p.workers i (Worker.running task);
        tasks = rest;
        started = p.started ++ task ∷ [];
      })
  finish :
      (i : ℕ) (task : A)
      → i < n
      → p.workers i ≡ Worker.running task
      → Move n p (record p {
        workers = update p.workers i Worker.waiting;
        finished = p.finished ++ task ∷ [];
      })
  leave :
      (i : ℕ)
      → i < n
      → p.workers i ≡ Worker.waiting
      → p.stop ≡ true
      → p.tasks ≡ []
      → Move n p (record p { workers = update p.workers i Worker.returned })
  sleep :
      (i : ℕ)
      → i < n
      → p.workers i ≡ Worker.waiting
      → p.stop ≡ false
      → p.tasks ≡ []
      → Move n p (record p { workers = update p.workers i Worker.asleep })

-- What happens whatever is submitted: a step of a worker, the notification of the destructor, or the
-- `notify_one` of a `submit`, which wakes a worker if any sleeps.
pub data Progress {A : Type 0} (n : ℕ) (p : Pool A) : Pool A → Type 0 where
  work : {q : Pool A} → Move n p q → Progress n p q
  notify_all :
      p.waking ≡ true
      → Progress n p (record p { workers = λ i. woken (p.workers i); waking = false })
  notify_one :
      (k i : ℕ)
      → p.notices ≡ suc k
      → i < n
      → p.workers i ≡ Worker.asleep
      → Progress n p (record p { workers = update p.workers i Worker.waiting; notices = k })
  notify_nobody :
      (k : ℕ)
      → p.notices ≡ suc k
      → ((i : ℕ) → i < n → p.workers i ≢ Worker.asleep)
      → Progress n p (record p { notices = k })

-- `submit`, which nobody may call once the destructor has begun, up to its `notify_one`; the start of the
-- destructor; and a spurious wakeup.
pub data Step {A : Type 0} (n : ℕ) (p : Pool A) : Pool A → Type 0 where
  submit :
      (task : A)
      → p.stop ≡ false
      → Step n p (record p {
        tasks = p.tasks ++ task ∷ [];
        notices = suc p.notices;
        submitted = p.submitted ++ task ∷ [];
      })
  stop_all : p.stop ≡ false → Step n p (record p { stop = true; waking = true })
  goes_on : {q : Pool A} → Progress n p q → Step n p q
  wakes_up :
      (i : ℕ)
      → i < n
      → p.workers i ≡ Worker.asleep
      → Step n p (record p { workers = update p.workers i Worker.waiting })

pub data Reach {A : Type 0} (n : ℕ) : Pool A → Type 0 where
  start : Reach n new_pool
  later : {p q : Pool A} → Reach n p → Step n p q → Reach n q
