-- ===== src/Storage/ExpiryManager.antt =====
-- `ExpiryManager` (src/storage/expiry_manager.cpp, include/tinykv/storage/expiry_manager.hpp).
-- A time point of the steady clock is an integer, its count of nanoseconds. The priority queue is
-- a list with the earliest deadline first; of equal deadlines the standard promises no order, and
-- the list keeps the older one first. The sweeper's loop is a function of the time at which
-- `wait_until` returns: it reports a timeout from the deadline on, and before that an early wake.
pub mod Sweep
pub mod Rounds
use tiny_kv_distributed_stor.Prelude.{
  ℕ, zero, suc, ◌≡◌, Bool, true, false, ◌&&◌, Option, none, some, List, [], ◌∷◌, ltb, ◌==◌,
  if◌then◌else◌,
}
use tiny_kv_distributed_stor.Prelude.Text.{Text}
use tiny_kv_distributed_stor.Prelude.Dict.{Dict, find, insert, erase}
use tiny_kv_distributed_stor.Prelude.Int.{ℤ, ltb_ℤ, eq_ℤ}

abbrev pub TimePoint : Type 0
TimePoint = ℤ

pub record HeapEntry : Type 0 where
  pub when : TimePoint
  pub key : Text

pub record ExpiryManager : Type 0 where
  pub heap : List HeapEntry
  pub current_expiry : Dict TimePoint
  pub stopped : Bool

unfoldable pub init : ExpiryManager
init = record { heap = []; current_expiry = []; stopped = false }

-- `heap_.push`, ordered by `HeapEntryCompare`.
unfoldable pub push : HeapEntry → List HeapEntry → List HeapEntry
push e [] = e ∷ []
push e (x ∷ h) = if ltb_ℤ e.when x.when then e ∷ x ∷ h else x ∷ push e h

unfoldable pub schedule : Text → TimePoint → ExpiryManager → ExpiryManager
schedule key expires_at s = record s {
  current_expiry = insert key expires_at s.current_expiry;
  heap = push (record { when = expires_at; key = key }) s.heap;
}

unfoldable pub cancel : Text → ExpiryManager → ExpiryManager
cancel key s = record s { current_expiry = erase key s.current_expiry }

unfoldable pub expiry_of : Text → ExpiryManager → Option TimePoint
expiry_of key s = find key s.current_expiry

unfoldable pub stop : ExpiryManager → ExpiryManager
stop s = record s { stopped = true }

-- Is the entry the live schedule of its key?
unfoldable pub is_live : HeapEntry → ExpiryManager → Bool
is_live e s = elim (find e.key s.current_expiry) [ none ↦ false | some t ↦ eq_ℤ t e.when ]

-- The body of the loop for a heap, after the wait on its top has returned at time `now`. The first
-- part is the key that `onExpire` is then called with, once the lock is released.
unfoldable pub pop_due : TimePoint → List HeapEntry → ExpiryManager → Option Text × ExpiryManager
unfolding is_live
pop_due now [] s = (none, s)
pop_due now (e ∷ rest) s =
    if ltb_ℤ now e.when
    then (none, s)
    else if is_live e s
    then (some e.key, record s { heap = rest; current_expiry = erase e.key s.current_expiry })
    else (none, record s { heap = rest })

-- One round of `sweepLoop`; nothing happens once `stop` was called.
unfoldable pub sweep_round : TimePoint → ExpiryManager → Option Text × ExpiryManager
unfolding pop_due
sweep_round now s = if s.stopped then (none, s) else pop_due now s.heap s

abbrev pub add_fired : Option Text → List Text → List Text
add_fired none keys = keys
add_fired (some k) keys = k ∷ keys

-- The rounds of `sweepLoop` at one time, with the keys that it calls `onExpire` with.
unfoldable pub sweep_rounds : ℕ → TimePoint → ExpiryManager → List Text × ExpiryManager
unfolding sweep_round
sweep_rounds zero now s = ([], s)
sweep_rounds (suc rounds) now s =
    let (fired, s') = sweep_round now s in
    let (keys, s'') = sweep_rounds rounds now s' in (add_fired fired keys, s'')
