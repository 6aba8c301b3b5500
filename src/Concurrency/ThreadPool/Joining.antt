-- ===== src/Concurrency/ThreadPool/Joining.antt =====
-- The wakeups of src/concurrency/thread_pool.cpp, and the workers that its destructor joins.
use mathlib.Core.List.{append-nil}
use tiny_kv_distributed_stor.Prelude.{
  ℕ, zero, suc, ◌+◌, ◌*◌, ◌≤◌, ◌<◌, ◌≡◌, ◌≢◌, ◌⊎◌, refl, sym, ap, ◌∙◌, Bool, true, false, List, [],
  ◌∷◌, ◌++◌, arith, inl, inr,
}
use tiny_kv_distributed_stor.Concurrency.ThreadPool.{
  Worker, Pool, woken, Move, take, finish, leave, sleep, Progress, work, notify_all, notify_one,
  notify_nobody, Reach,
}
use tiny_kv_distributed_stor.Concurrency.ThreadPool.Counts.{weigh, weigh-update, weigh_mono}
use tiny_kv_distributed_stor.Concurrency.ThreadPool.Queue.{
  sum_of, load, IsAccounted, Reach-IsAccounted,
}

-- What a worker has before it: from its sleep the test, in a task the end of it, and to leave.
abbrev rank : {A : Type 0} → Worker A → ℕ
rank Worker.waiting = 2
rank Worker.asleep = 1
rank (Worker.running task) = 3
rank Worker.returned = 0

-- The notification of the destructor sends each worker back to the test at most once.
abbrev wakings_left : Bool → ℕ → ℕ
wakings_left true n = suc n
wakings_left false n = 0

-- The steps that are left, at most: three for each task of the queue, and two for a
-- `notify_one`, which may send a worker back to the test.
abbrev pub moves_left : {A : Type 0} → ℕ → Pool A → ℕ
moves_left n p =
    2 * p.notices + 3 * sum_of (λ x. 1) p.tasks + weigh rank n p.workers + wakings_left p.waking n

rank-woken : {A : Type 0} (w : Worker A) → rank (woken w) ≤ rank w + 1
rank-woken Worker.waiting = omega arith
rank-woken Worker.asleep = omega arith
rank-woken (Worker.running task) = omega arith
rank-woken Worker.returned = omega arith

is_asleep : {A : Type 0} (w : Worker A) → (w ≡ Worker.asleep) ⊎ (w ≢ Worker.asleep)
is_asleep Worker.waiting = inr (λ e. cc)
is_asleep Worker.asleep = inl refl
is_asleep (Worker.running task) = inr (λ e. cc)
is_asleep Worker.returned = inr (λ e. cc)

find_asleep :
    {A : Type 0} (n : ℕ) (f : ℕ → Worker A)
    → ((i : ℕ) × (i < n) × (f i ≡ Worker.asleep)) ⊎ ((i : ℕ) → i < n → f i ≢ Worker.asleep)
find_asleep zero f = inr (λ i lt. absurd (omega (arith, lt)))
find_asleep (suc n) f = elim (find_asleep n f) [
  | inl (i, lt, at) ↦ inl (i, omega (arith, lt), at)
  | inr below ↦ elim (is_asleep (f n)) [
    | inl at ↦ inl (n, omega arith, at)
    | inr here ↦ inr (λ i lt e. elim (below_or_last i n lt) [
      | inl less ↦ below i less e
      | inr same ↦ here (ap f (sym same) ∙ e)
    ])
  ]
]
  where
    below_or_last : (i n : ℕ) → i < suc n → (i < n) ⊎ (i ≡ n)
    below_or_last i n lt = omega (arith, lt)

module _ {A : Type 0} (n : ℕ) where
  move_shrinks : (p q : Pool A) → Move n p q → moves_left n q < moves_left n p
  move_shrinks p _ (take i task rest lt at top) = omega (
    arith,
    weigh-update rank n p.workers i (Worker.running task) lt,
    ap rank at,
    ap (sum_of (λ x. 1)) top,
  )
  move_shrinks p _ (finish i task lt at) =
      omega (arith, weigh-update rank n p.workers i Worker.waiting lt, ap rank at)
  move_shrinks p _ (leave i lt at stopped empty) =
      omega (arith, weigh-update rank n p.workers i Worker.returned lt, ap rank at)
  move_shrinks p _ (sleep i lt at going empty) =
      omega (arith, weigh-update rank n p.workers i Worker.asleep lt, ap rank at)

  fewer_left : (p q : Pool A) → Progress n p q → moves_left n q < moves_left n p
  fewer_left p q (work move) = move_shrinks p q move
  fewer_left p _ (notify_all pending) = omega (
    arith,
    ap (λ b. wakings_left b n) pending,
    weigh_mono rank n p.workers (λ i. woken (p.workers i)) 1 (λ i. rank-woken (p.workers i)),
  )
  fewer_left p _ (notify_one k i due lt at) =
      omega (arith, due, weigh-update rank n p.workers i Worker.waiting lt, ap rank at)
  fewer_left p _ (notify_nobody k due nobody) = omega (arith, due)

  stopped_step :
      (p : Pool A) (i : ℕ) (w : Worker A) (ts : List A)
      → IsAccounted n p
      → i < n
      → p.stop ≡ true
      → p.workers i ≡ w
      → w ≢ Worker.returned
      → p.tasks ≡ ts
      → (q : Pool A) × Progress n p q
  stopped_step p i Worker.waiting [] h lt stopped at here empty =
      (_, work (leave i lt at stopped empty))
  stopped_step p i Worker.waiting (task ∷ rest) h lt stopped at here top =
      (_, work (take i task rest lt at top))
  stopped_step p i Worker.asleep ts h lt stopped at here top =
      (_, notify_all (h.woken_up i lt at stopped))
  stopped_step p i (Worker.running task) ts h lt stopped at here top =
      (_, work (finish i task lt at))
  stopped_step p i Worker.returned ts h lt stopped at here top = absurd (here refl)

  -- A worker that does not sleep, with tasks in the queue.
  awake_step :
      (p : Pool A) (i : ℕ) (w : Worker A) (ts : List A)
      → IsAccounted n p
      → i < n
      → p.workers i ≡ w
      → w ≢ Worker.asleep
      → p.tasks ≡ ts
      → ts ≢ []
      → (q : Pool A) × Progress n p q
  awake_step p i w [] h lt at here top ne = absurd (ne refl)
  awake_step p i Worker.waiting (task ∷ rest) h lt at here top ne =
      (_, work (take i task rest lt at top))
  awake_step p i Worker.asleep (task ∷ rest) h lt at here top ne = absurd (here refl)
  awake_step p i (Worker.running x) (task ∷ rest) h lt at here top ne = (_, work (finish i x lt at))
  awake_step p i Worker.returned (task ∷ rest) h lt at here top ne =
      let (_, empty) = h.done i lt at in absurd (ne (sym top ∙ empty))

  noticed_step : (p : Pool A) (k : ℕ) → p.notices ≡ k → k ≢ 0 → (q : Pool A) × Progress n p q
  noticed_step p zero at ne = absurd (ne refl)
  noticed_step p (suc k) at ne = elim (find_asleep n p.workers) [
    | inl (i, lt, asleep) ↦ (_, notify_one k i at lt asleep)
    | inr nobody ↦ (_, notify_nobody k at nobody)
  ]

  queued_step :
      (p : Pool A) → IsAccounted n p → 0 < n → p.tasks ≢ [] → (q : Pool A) × Progress n p q
  queued_step p h some_worker ne = elim (h.heard some_worker ne) [
    | inl notices ↦ noticed_step p p.notices refl notices
    | inr (i, lt, here) ↦ awake_step p i (p.workers i) p.tasks h lt refl here refl ne
  ]

  -- In a pool that was reached by any steps, as long as there are tasks in the queue, or the pool has
  -- been stopped and this worker has not returned, a step of a worker or a notification that is due is
  -- possible, without a further submission or a spurious wakeup. Every such step lowers `moves_left`,
  -- a number.
  pub busy_moves :
      (p : Pool A) (i : ℕ)
      → Reach n p
      → i < n
      → (p.tasks ≢ []) ⊎ ((p.stop ≡ true) × (p.workers i ≢ Worker.returned))
      → ((q : Pool A) × Progress n p q)
        × ((q : Pool A) → Progress n p q → moves_left n q < moves_left n p)
  busy_moves p i r lt (inl queued) =
      (queued_step p (Reach-IsAccounted n r) (omega (arith, lt)) queued, fewer_left p)
  busy_moves p i r lt (inr (stopped, here)) = (
    stopped_step p i (p.workers i) p.tasks (Reach-IsAccounted n r) lt stopped refl here refl,
    fewer_left p,
  )

weigh-returned :
    {A : Type 0} (g : A → ℕ) (n : ℕ) (f : ℕ → Worker A)
    → ((i : ℕ) → i < n → f i ≡ Worker.returned)
    → weigh (load g) n f ≡ 0
unfolding weigh
weigh-returned g zero f h = refl
weigh-returned g (suc n) f h =
    omega (arith, weigh-returned g n f (λ i lt. h i (omega arith)), ap (load g) (h n (omega arith)))

-- When every worker of a pool that has any has returned, the queue is empty, the tasks were started in the
-- order of their submission, each once, and the tasks finished are those submitted, each as often.
pub joined_runs_all :
    {A : Type 0} (n : ℕ) (p : Pool A)
    → Reach n p
    → 0 < n
    → ((i : ℕ) → i < n → p.workers i ≡ Worker.returned)
    → (p.tasks ≡ [])
      × (p.started ≡ p.submitted)
      × ((g : A → ℕ) → sum_of g p.finished ≡ sum_of g p.submitted)
joined_runs_all n p r some_worker all =
    let h = Reach-IsAccounted n r in
    let (_, empty) = h.done 0 some_worker (all 0 some_worker) in
    let same : p.started ≡ p.submitted =
      sym (h.in_order ∙ (ap (λ l. p.started ++ l) empty ∙ append-nil p.started)) in
    (
      empty,
      same,
      λ g. omega (arith, h.carried g, weigh-returned g n p.workers all, ap (sum_of g) same),
    )
