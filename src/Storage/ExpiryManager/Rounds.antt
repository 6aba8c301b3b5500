-- ===== src/Storage/ExpiryManager/Rounds.antt =====
-- The rounds of the loop of src/storage/expiry_manager.cpp at one time.
use tiny_kv_distributed_stor.Prelude.{
  ℕ, zero, suc, ◌+◌, ◌≤◌, ◌≡◌, refl, sym, ap, ◌∙◌, Bool, true, false, not, Option, none, some, List,
  [], ◌∷◌, inl, inr, ◌⊎◌, arith, if◌then◌else◌, length, Bool-cases, Option-cases, if_cases,
}
use mathlib.Core.Path.{subst}
use tiny_kv_distributed_stor.Prelude.Text.{Text, text_eq, text_eq_iff, text_eq_refl}
use tiny_kv_distributed_stor.Prelude.Dict.{find, erase, find-erase}
use tiny_kv_distributed_stor.Prelude.Int.{◌≤ℤ◌, ltb_ℤ, eq_ℤ_iff}
use tiny_kv_distributed_stor.Storage.ExpiryManager.{
  TimePoint, HeapEntry, ExpiryManager, expiry_of, is_live, sweep_round, sweep_rounds, add_fired,
}
use tiny_kv_distributed_stor.Storage.ExpiryManager.Sweep.{Holds, IsSorted, IsValid, All-Holds}

-- The schedule has come due, or none was there.
abbrev pub is_due : TimePoint → Option TimePoint → Bool
is_due now none = false
is_due now (some t) = not (ltb_ℤ now t)

-- The schedule that is left when what is due has gone.
abbrev pub not_yet_due : TimePoint → Option TimePoint → Option TimePoint
not_yet_due now none = none
not_yet_due now (some t) = if ltb_ℤ now t then some t else none

unfoldable pub times : Text → List Text → ℕ
times k [] = 0
times k (x ∷ l) = let rest = times k l in if text_eq x k then suc rest else rest

module _ (e : HeapEntry) (rest : List HeapEntry) (s : ExpiryManager) where
  -- A live top is taken off the heap together with its schedule.
  live_popped : ExpiryManager
  live_popped = record s { heap = rest; current_expiry = erase e.key s.current_expiry }

  -- A stale one alone.
  stale_popped : ExpiryManager
  stale_popped = record s { heap = rest }

  Holds-rest :
      (j : Text) (u : TimePoint)
      → IsValid s
      → s.heap ≡ e ∷ rest
      → find j s.current_expiry ≡ some u
      → (e ≡ record { when = u; key = j }) ⊎ Holds (record { when = u; key = j }) rest
  Holds-rest j u v top found =
      subst (Holds (record { when = u; key = j })) top (v.covered j u found)

  live_popped-IsValid : IsValid s → s.heap ≡ e ∷ rest → IsValid live_popped
  unfolding live_popped
  live_popped-IsValid v top = record {
    sorted = (subst IsSorted top v.sorted).1;
    covered = λ j u found.
        elim (Holds-rest j u v top (ground (arith, find-erase e.key j s.current_expiry, found))) [
          | inl here ↦ absurd (
              ground (arith, find-erase e.key j s.current_expiry, found, text_eq_iff e.key j, here))
          | inr later ↦ later
        ];
  }

  stale_popped-IsValid : is_live e s ≡ false → IsValid s → s.heap ≡ e ∷ rest → IsValid stale_popped
  unfolding stale_popped is_live
  stale_popped-IsValid stale v top = record {
    sorted = (subst IsSorted top v.sorted).1;
    covered = λ j u found. elim (Holds-rest j u v top found) [
      | inl here ↦ absurd (ground (arith, here, found, eq_ℤ_iff u e.when, stale))
      | inr later ↦ later
    ];
  }

  -- While the top is not due, nothing is.
  none_due :
      (now : TimePoint) (k : Text)
      → IsValid s
      → s.heap ≡ e ∷ rest
      → ltb_ℤ now e.when ≡ true
      → (not_yet_due now (expiry_of k s) ≡ expiry_of k s) × (is_due now (expiry_of k s) ≡ false)
  unfolding expiry_of
  none_due now k v top early = elim (Option-cases (find k s.current_expiry)) [
    | inl absent ↦ rw absent (refl, refl)
    | inr (t, found) ↦
        let first : e.when ≤ℤ t = elim (Holds-rest k t v top found) [
          | inl here ↦ ground (arith, here)
          | inr later ↦ All-Holds e.when _ rest (subst IsSorted top v.sorted).0 later
        ] in
        rw found (ground arith, ground arith)
  ]

-- A round that leaves the store as it is, and fires nothing, leaves it so for ever.
quiet_rounds :
    (n : ℕ) (now : TimePoint) (s : ExpiryManager)
    → sweep_round now s ≡ (none, s)
    → sweep_rounds n now s ≡ ([], s)
unfolding sweep_rounds
quiet_rounds zero now s q = refl
quiet_rounds (suc n) now s q = rw (q, quiet_rounds n now s q)

-- What is still to fire for a key: one call, or none.
abbrev pub owed : TimePoint → Option TimePoint → ℕ
owed now o = if is_due now o then 1 else 0

-- A round that changes something: what it fires is no longer owed, and all else is as it was.
record Progress (now : TimePoint) (s : ExpiryManager) (fired : Option Text) (s' : ExpiryManager)
    : Type 0 where
  round : sweep_round now s ≡ (fired, s')
  valid : IsValid s'
  running : s'.stopped ≡ false
  shorter : suc (length s'.heap) ≡ length s.heap
  left : (k : Text) → not_yet_due now (expiry_of k s') ≡ not_yet_due now (expiry_of k s)
  paid :
      (k : Text)
      → times k (add_fired fired []) + owed now (expiry_of k s') ≡ owed now (expiry_of k s)

record Quiet (now : TimePoint) (s : ExpiryManager) : Type 0 where
  round : sweep_round now s ≡ (none, s)
  left : (k : Text) → expiry_of k s ≡ not_yet_due now (expiry_of k s)
  paid : (k : Text) → owed now (expiry_of k s) ≡ 0

empty-Quiet :
    (now : TimePoint) (s : ExpiryManager)
    → IsValid s
    → s.stopped ≡ false
    → s.heap ≡ []
    → Quiet now s
unfolding expiry_of
empty-Quiet now s v running empty = record {
  round = unfold sweep_round in rw (running, empty);
  left = λ k. ap (λ o. o) (ground (arith, no_schedule k));
  paid = λ k. ground (arith, no_schedule k);
}
  where
    no_schedule : (k : Text) → find k s.current_expiry ≡ none
    no_schedule k = elim (Option-cases (find k s.current_expiry)) [
      | inl absent ↦ absent
      | inr (t, found) ↦
          absurd (subst (Holds (record { when = t; key = k })) empty (v.covered k t found))
    ]

live_schedule :
    (e : HeapEntry) (s : ExpiryManager)
    → is_live e s ≡ true
    → find e.key s.current_expiry ≡ some e.when
unfolding is_live
live_schedule e s live = elim (Option-cases (find e.key s.current_expiry)) [
  | inl absent ↦ ground arith
  | inr (t, found) ↦ ground (arith, found, eq_ℤ_iff t e.when)
]

module _ (now : TimePoint) (e : HeapEntry) (rest : List HeapEntry) (s : ExpiryManager)
    (v : IsValid s) (running : s.stopped ≡ false) (top : s.heap ≡ e ∷ rest) where
  early-Quiet : ltb_ℤ now e.when ≡ true → Quiet now s
  early-Quiet early = record {
    round = unfold sweep_round in rw (running, top, early);
    left = λ k. sym (none_due e rest s now k v top early).0;
    paid = λ k. ap (λ b. if b then 1 else 0) (none_due e rest s now k v top early).1;
  }

  live-Progress :
      ltb_ℤ now e.when ≡ false
      → is_live e s ≡ true
      → Progress now s (some e.key) (live_popped e rest s)
  live-Progress due live = record {
    round = unfold sweep_round live_popped in rw (running, top, due, live);
    valid = live_popped-IsValid e rest s v top;
    running = unfold live_popped in running;
    shorter = unfold live_popped in sym (ap length top);
    left = λ k.
        unfold expiry_of live_popped in
        ground (
          arith,
          find-erase e.key k s.current_expiry,
          due,
          live_schedule e s live,
          text_eq_iff e.key k,
        );
    paid = λ k.
        unfold expiry_of live_popped times in
        ground (
          arith,
          find-erase e.key k s.current_expiry,
          due,
          live_schedule e s live,
          text_eq_iff e.key k,
        );
  }

  stale-Progress :
      ltb_ℤ now e.when ≡ false → is_live e s ≡ false → Progress now s none (stale_popped e rest s)
  stale-Progress due stale = record {
    round = unfold sweep_round stale_popped in rw (running, top, due, stale);
    valid = stale_popped-IsValid e rest s stale v top;
    running = unfold stale_popped in running;
    shorter = unfold stale_popped in sym (ap length top);
    left = λ k. unfold expiry_of stale_popped in refl;
    paid = λ k. unfold expiry_of stale_popped times in omega arith;
  }

heap-cases :
    (h : List HeapEntry) → (h ≡ []) ⊎ ((e : HeapEntry) × (rest : List HeapEntry) × (h ≡ e ∷ rest))
heap-cases [] = inl refl
heap-cases (e ∷ rest) = inr (e, rest, refl)

abbrev Round : TimePoint → ExpiryManager → Type 0
Round now s = Quiet now s ⊎ ((fired : Option Text) × (s' : ExpiryManager) × Progress now s fired s')

Round-cases : (now : TimePoint) (s : ExpiryManager) → IsValid s → s.stopped ≡ false → Round now s
Round-cases now s v running = elim (heap-cases s.heap) [
  | inl empty ↦ inl (empty-Quiet now s v running empty)
  | inr (e, rest, top) ↦ elim (Bool-cases (ltb_ℤ now e.when)) [
    | inl early ↦ inl (early-Quiet now e rest s v running top early)
    | inr due ↦ elim (Bool-cases (is_live e s)) [
      | inl live ↦
          inr (some e.key, live_popped e rest s, live-Progress now e rest s v running top due live)
      | inr stale ↦
          inr (none, stale_popped e rest s, stale-Progress now e rest s v running top due stale)
    ]
  ]
]

times-add_fired :
    (k : Text) (fired : Option Text) (keys : List Text)
    → times k (add_fired fired keys) ≡ times k (add_fired fired []) + times k keys
unfolding times
times-add_fired k none keys = omega arith
times-add_fired k (some x) keys = ground arith

next_round :
    (n : ℕ) (now : TimePoint) (s : ExpiryManager) (fired : Option Text) (s' : ExpiryManager)
    → sweep_round now s ≡ (fired, s')
    → sweep_rounds (suc n) now s
      ≡ (add_fired fired (sweep_rounds n now s').0, (sweep_rounds n now s').1)
unfolding sweep_rounds
next_round n now s fired s' e = rw e

-- As many sweeper rounds at one time as the heap has entries, or more, from a valid manager that was
-- not stopped, call `on_expire` for a key exactly once if its schedule is due at that time, and never
-- otherwise. They leave the schedules that are not due yet, and only those.
pub sweep_rounds_lem :
    (n : ℕ) (now : TimePoint) (s : ExpiryManager)
    → IsValid s
    → s.stopped ≡ false
    → length s.heap ≤ n
    → (k : Text)
    → (times k (sweep_rounds n now s).0 ≡ (if is_due now (expiry_of k s) then 1 else 0))
      × (expiry_of k (sweep_rounds n now s).1 ≡ not_yet_due now (expiry_of k s))
sweep_rounds_lem zero now s v running h k = elim (Round-cases now s v running) [
  | inl q ↦ (unfold sweep_rounds times in sym (q.paid k), unfold sweep_rounds in q.left k)
  | inr (fired, s', p) ↦ absurd (omega (arith, p.shorter))
]
sweep_rounds_lem (suc n) now s v running h k = elim (Round-cases now s v running) [
  | inl q ↦ rw (quiet_rounds (suc n) now s q.round) (unfold times in sym (q.paid k), q.left k)
  | inr (fired, s', p) ↦
      let (fires, leaves) =
        sweep_rounds_lem n now s' p.valid p.running (omega (arith, p.shorter)) k in
      rw (next_round n now s fired s' p.round)
        (rw times-add_fired (omega (arith, fires, p.paid k)), leaves ∙ p.left k)
]

stopped_round :
    (now : TimePoint) (s : ExpiryManager) → s.stopped ≡ true → sweep_round now s ≡ (none, s)
unfolding sweep_round
stopped_round now s stopped =
    if_cases (λ (r : Option Text × ExpiryManager). r ≡ (none, s)) s.stopped (λ _. refl)
      (λ running. absurd (ground (arith, stopped, running)))

-- A round keeps the heap in order and every live schedule in it, also once the manager was stopped.
pub sweep_round-IsValid :
    (now : TimePoint) (s : ExpiryManager) → IsValid s → IsValid (sweep_round now s).1
sweep_round-IsValid now s v = elim (Bool-cases s.stopped) [
  | inl stopped ↦ subst (λ r. IsValid r.1) (sym (stopped_round now s stopped)) v
  | inr running ↦ elim (Round-cases now s v running) [
    | inl q ↦ subst (λ r. IsValid r.1) (sym q.round) v
    | inr (fired, s', p) ↦ subst (λ r. IsValid r.1) (sym p.round) p.valid
  ]
]

-- A round fires only a key whose schedule is due.
pub sweep_round-is_due :
    (now : TimePoint) (s : ExpiryManager) (key : Text)
    → IsValid s
    → (sweep_round now s).0 ≡ some key
    → is_due now (expiry_of key s) ≡ true
sweep_round-is_due now s key v fired = elim (Bool-cases s.stopped) [
  | inl stopped ↦ absurd (ground (arith, stopped_round now s stopped, fired))
  | inr running ↦ elim (Round-cases now s v running) [
    | inl q ↦ absurd (ground (arith, q.round, fired))
    | inr (o, s', p) ↦
        let same : o ≡ some key = ap (λ r. r.0) (sym p.round) ∙ fired in
        let once : times key (add_fired o []) ≡ 1 =
          ap (λ x. times key (add_fired x [])) same
          ∙ (unfold times in ground (arith, text_eq_refl key)) in
        ground (arith, p.paid key, once)
  ]
]
