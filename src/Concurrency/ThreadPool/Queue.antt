-- ===== src/Concurrency/ThreadPool/Queue.antt =====
-- The queue of src/concurrency/thread_pool.cpp, and what became of each task.
use mathlib.Core.List.{append_assoc}
use tiny_kv_distributed_stor.Prelude.{
  ℕ, zero, suc, ◌+◌, ◌<◌, ◌≡◌, ◌≢◌, ◌⊎◌, refl, sym, ap, ◌∙◌, true, List, [], ◌∷◌, ◌++◌, ◌==◌, arith,
  Bool-cases, inl, inr,
}
use tiny_kv_distributed_stor.Concurrency.ThreadPool.{
  Worker, Pool, update, new_pool, Move, take, finish, leave, sleep, Progress, work, notify_all,
  Step, submit, notify_one, notify_nobody, stop_all, goes_on, wakes_up, woken, Reach, start, later,
}
use tiny_kv_distributed_stor.Concurrency.ThreadPool.Counts.{weigh, weigh-update, weigh_same}

-- The sum of a weight over a list of tasks: at every weight, it tells how often each one is there.
abbrev pub sum_of : {A : Type 0} → (A → ℕ) → List A → ℕ
sum_of g [] = 0
sum_of g (x ∷ l) = g x + sum_of g l

sum_of-append :
    {A : Type 0} (g : A → ℕ) (xs : List A) (x : A) → sum_of g (xs ++ x ∷ []) ≡ sum_of g xs + g x
sum_of-append g [] x = omega arith
sum_of-append g (y ∷ xs) x = omega (arith, sum_of-append g xs x)

abbrev pub load : {A : Type 0} → (A → ℕ) → Worker A → ℕ
load g Worker.waiting = 0
load g Worker.asleep = 0
load g (Worker.running task) = g task
load g Worker.returned = 0

module _ {A : Type 0} (n : ℕ) where
  -- Tasks start in the order of their submission, each one once, and what has started is finished or
  -- runs on one worker. A worker that has returned leaves no task behind, and one that sleeps at a
  -- stop will be notified. With tasks in the queue, some worker is awake or a notification is to come.
  pub record IsAccounted (p : Pool A) : Type 0 where
    pub in_order : p.submitted ≡ p.started ++ p.tasks
    pub carried :
        (g : A → ℕ) → sum_of g p.started ≡ sum_of g p.finished + weigh (load g) n p.workers
    pub stops : p.waking ≡ true → p.stop ≡ true
    pub woken_up : (i : ℕ) → i < n → p.workers i ≡ Worker.asleep → p.stop ≡ true → p.waking ≡ true
    pub heard :
        0 < n → p.tasks ≢ [] → (p.notices ≢ 0) ⊎ ((i : ℕ) × (i < n) × (p.workers i ≢ Worker.asleep))
    pub done : (i : ℕ) → i < n → p.workers i ≡ Worker.returned → (p.stop ≡ true) × (p.tasks ≡ [])

weigh-idle : {A : Type 0} (g : A → ℕ) (n : ℕ) → weigh (load g) n (λ i. Worker.waiting) ≡ 0
unfolding weigh
weigh-idle g zero = refl
weigh-idle g (suc n) = ground (arith, weigh-idle g n)

woken_returned : {A : Type 0} (w : Worker A) → woken w ≡ Worker.returned → w ≡ Worker.returned
woken_returned Worker.waiting e = cc
woken_returned Worker.asleep e = cc
woken_returned (Worker.running task) e = cc
woken_returned Worker.returned e = refl

woken_not_asleep : {A : Type 0} (w : Worker A) → woken w ≢ Worker.asleep
woken_not_asleep Worker.waiting e = cc
woken_not_asleep Worker.asleep e = cc
woken_not_asleep (Worker.running task) e = cc
woken_not_asleep Worker.returned e = cc

load-woken : {A : Type 0} (g : A → ℕ) (w : Worker A) → load g (woken w) ≡ load g w
load-woken g Worker.waiting = refl
load-woken g Worker.asleep = refl
load-woken g (Worker.running task) = refl
load-woken g Worker.returned = refl

module _ {A : Type 0} (n : ℕ) where
  new_pool-IsAccounted : IsAccounted {A = A} n new_pool
  new_pool-IsAccounted = record {
    in_order = refl;
    carried = λ g. omega (arith, weigh-idle g n);
    stops = λ e. cc;
    woken_up = λ i h e s. cc;
    heard = λ some_worker ne. absurd (ne refl);
    done = λ i h e. cc;
  }

  -- A worker that stands somewhere else than the one that moved was there before.
  others_stay :
      (p : Pool A) (i j : ℕ) (x y : Worker A) → x ≢ y → update p.workers i x j ≡ y → p.workers j ≡ y
  others_stay p i j x y here e = elim (Bool-cases (i == j)) [
    | inl same ↦ absurd (here (ground (arith, same, e)))
    | inr other ↦ ground (arith, other, e)
  ]

  -- The worker that moved, if it does not sleep now.
  awake :
      (p : Pool A) (i : ℕ) (x : Worker A)
      → i < n
      → x ≢ Worker.asleep
      → (j : ℕ) × (j < n) × (update p.workers i x j ≢ Worker.asleep)
  awake p i x lt here =
      let at_self : update p.workers i x i ≡ x = ground arith in
      (i, lt, λ e. here (sym at_self ∙ e))

  -- A worker that starts to wait again, its sleep over.
  waits_again :
      (p : Pool A) (i : ℕ)
      → i < n
      → p.workers i ≡ Worker.asleep
      → IsAccounted n p
      → (k : ℕ)
      → IsAccounted n (record p { workers = update p.workers i Worker.waiting; notices = k })
  waits_again p i lt at h k = record {
    in_order = h.in_order;
    carried = λ g.
        omega (
          arith,
          h.carried g,
          weigh-update (load g) n p.workers i Worker.waiting lt,
          ap (load g) at,
        );
    stops = h.stops;
    woken_up = λ j below e.
        h.woken_up j below (others_stay p i j Worker.waiting Worker.asleep (λ c. cc) e);
    heard = λ some_worker ne. inr (awake p i Worker.waiting lt (λ c. cc));
    done =
        λ j below e. h.done j below (others_stay p i j Worker.waiting Worker.returned (λ c. cc) e);
  }

  Move-IsAccounted : {p q : Pool A} → Move n p q → IsAccounted n p → IsAccounted n q
  Move-IsAccounted {p} (take i task rest lt at top) h = record {
    in_order =
        h.in_order ∙ (ap (λ l. p.started ++ l) top ∙ sym (append_assoc p.started (task ∷ []) rest));
    carried = λ g. omega (
      arith,
      sum_of-append g p.started task,
      h.carried g,
      weigh-update (load g) n p.workers i (Worker.running task) lt,
      ap (load g) at,
    );
    stops = h.stops;
    woken_up = λ j below e.
        h.woken_up j below (others_stay p i j (Worker.running task) Worker.asleep (λ c. cc) e);
    heard = λ some_worker ne. inr (awake p i (Worker.running task) lt (λ c. cc));
    done = λ j below e.
        let same = others_stay p i j (Worker.running task) Worker.returned (λ c. cc) e in
        let (_, empty) = h.done j below same in absurd (cc);
  }
  Move-IsAccounted {p} (finish i task lt at) h = record {
    in_order = h.in_order;
    carried = λ g. omega (
      arith,
      sum_of-append g p.finished task,
      h.carried g,
      weigh-update (load g) n p.workers i Worker.waiting lt,
      ap (load g) at,
    );
    stops = h.stops;
    woken_up = λ j below e.
        h.woken_up j below (others_stay p i j Worker.waiting Worker.asleep (λ c. cc) e);
    heard = λ some_worker ne. inr (awake p i Worker.waiting lt (λ c. cc));
    done =
        λ j below e. h.done j below (others_stay p i j Worker.waiting Worker.returned (λ c. cc) e);
  }
  Move-IsAccounted {p} (leave i lt at stopped empty) h = record {
    in_order = h.in_order;
    carried = λ g. omega (
      arith,
      h.carried g,
      weigh-update (load g) n p.workers i Worker.returned lt,
      ap (load g) at,
    );
    stops = h.stops;
    woken_up = λ j below e.
        h.woken_up j below (others_stay p i j Worker.returned Worker.asleep (λ c. cc) e);
    heard = λ some_worker ne. absurd (ne empty);
    done = λ j below e. (stopped, empty);
  }
  Move-IsAccounted {p} (sleep i lt at going empty) h = record {
    in_order = h.in_order;
    carried = λ g.
        omega (
          arith,
          h.carried g,
          weigh-update (load g) n p.workers i Worker.asleep lt,
          ap (load g) at,
        );
    stops = h.stops;
    woken_up = λ j below e stopped. absurd (cc);
    heard = λ some_worker ne. absurd (ne empty);
    done =
        λ j below e. h.done j below (others_stay p i j Worker.asleep Worker.returned (λ c. cc) e);
  }

  Progress-IsAccounted : {p q : Pool A} → Progress n p q → IsAccounted n p → IsAccounted n q
  Progress-IsAccounted (work move) h = Move-IsAccounted move h
  Progress-IsAccounted {p} (notify_all pending) h = record {
    in_order = h.in_order;
    carried = λ g. omega (
      arith,
      h.carried g,
      weigh_same (load g) n p.workers (λ i. woken (p.workers i)) (λ i. load-woken g (p.workers i)),
    );
    stops = λ e. cc;
    woken_up = λ j below e. absurd (woken_not_asleep (p.workers j) e);
    heard = λ some_worker ne. inr (0, some_worker, woken_not_asleep (p.workers 0));
    done = λ j below e. h.done j below (woken_returned (p.workers j) e);
  }
  Progress-IsAccounted {p} (notify_one k i some_notice lt at) h = waits_again p i lt at h k
  Progress-IsAccounted (notify_nobody k some_notice none_asleep) h = record {
    in_order = h.in_order;
    carried = h.carried;
    stops = h.stops;
    woken_up = h.woken_up;
    heard = λ some_worker ne. inr (0, some_worker, none_asleep 0 some_worker);
    done = h.done;
  }

  Step-IsAccounted : {p q : Pool A} → Step n p q → IsAccounted n p → IsAccounted n q
  Step-IsAccounted {p} (submit task going) h = record {
    in_order = ap (λ l. l ++ task ∷ []) h.in_order ∙ append_assoc p.started p.tasks (task ∷ []);
    carried = h.carried;
    stops = h.stops;
    woken_up = h.woken_up;
    heard = λ some_worker ne. inl (λ e. absurd (omega (arith, e)));
    done = λ j below e. let (stopped, _) = h.done j below e in absurd (cc);
  }
  Step-IsAccounted (stop_all going) h = record {
    in_order = h.in_order;
    carried = h.carried;
    stops = λ e. refl;
    woken_up = λ i below e stopped. refl;
    heard = h.heard;
    done = λ j below e. (refl, (h.done j below e).1);
  }
  Step-IsAccounted (goes_on progress) h = Progress-IsAccounted progress h
  Step-IsAccounted {p} (wakes_up i lt at) h = waits_again p i lt at h p.notices

  pub Reach-IsAccounted : {p : Pool A} → Reach n p → IsAccounted n p
  Reach-IsAccounted start = new_pool-IsAccounted
  Reach-IsAccounted (later r st) = Step-IsAccounted st (Reach-IsAccounted r)
