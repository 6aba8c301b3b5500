-- ===== src/Tests/Stores.antt =====
-- A store with a capacity and an expiry manager with a replaced schedule (src/storage).
use mathlib.Core.Path.{subst}
use tiny_kv_distributed_stor.Prelude.{
  ◌≤◌, ◌≡◌, refl, sym, false, some, [], ◌∷◌, length, arith, if◌then◌else◌,
}
use tiny_kv_distributed_stor.Prelude.Text.{Text, codes, text_eq}
use tiny_kv_distributed_stor.Prelude.Int.{pos, ◌+ℤ◌}
use tiny_kv_distributed_stor.Prelude.Decimal.{stoll}
use tiny_kv_distributed_stor.Prelude.Dict.{find, insert, erase, is_found}
use tiny_kv_distributed_stor.Storage.KvStore
use tiny_kv_distributed_stor.Storage.KvStore.{KvStore}
use tiny_kv_distributed_stor.Storage.KvStore.Nodes.{
  deref, unlink, splice, back, pop_back, set_value,
}
use tiny_kv_distributed_stor.Storage.KvStore.Valid.{
  IsValid, trim, looked_up, set-refines, get-refines, del-refines, init-IsValid,
}
use tiny_kv_distributed_stor.Storage.KvStore.Contents.{
  contents, number_of, SumFits, sum_with, with_number, increment_by-refines,
}
use tiny_kv_distributed_stor.Storage.ExpiryManager
use tiny_kv_distributed_stor.Storage.ExpiryManager.{ExpiryManager}
use tiny_kv_distributed_stor.Storage.ExpiryManager.Sweep.{
  IsValid as ExpiryIsValid, init-IsValid as expiry-init-IsValid, schedule-IsValid,
}
use tiny_kv_distributed_stor.Storage.ExpiryManager.Rounds.{
  is_due, not_yet_due, times, sweep_rounds_lem,
}

abbrev a : Text
a = codes "a"

abbrev b : Text
b = codes "b"

abbrev two_keys : KvStore
two_keys = KvStore.set b (codes "20") (KvStore.set a (codes "7") (KvStore.init 2))

two_keys-IsValid : IsValid two_keys
two_keys-IsValid =
    (set-refines (KvStore.set a (codes "7") (KvStore.init 2)) b (codes "20")
      (set-refines (KvStore.init 2) a (codes "7") (init-IsValid 2).0).0).0

two_keys-entries : KvStore.entries two_keys ≡ (b, codes "20") ∷ (a, codes "7") ∷ []
unfolding KvStore.set KvStore.init KvStore.entries find insert text_eq
two_keys-entries = refl

-- At capacity 2, the least recently used of three keys goes.
evicted :
    KvStore.entries (KvStore.set (codes "c") (codes "1") (KvStore.get a two_keys).1)
    ≡ (codes "c", codes "1") ∷ (a, codes "7") ∷ []
unfolding KvStore.set KvStore.get KvStore.init KvStore.entries find insert erase text_eq splice
    unlink deref back pop_back
evicted = refl

set-refines_example :
    IsValid (KvStore.set (codes "c") (codes "1") two_keys)
    × ((KvStore.set (codes "c") (codes "1") two_keys).capacity ≡ two_keys.capacity)
    × (KvStore.entries (KvStore.set (codes "c") (codes "1") two_keys)
        ≡ trim two_keys.capacity
            ((codes "c", codes "1") ∷ erase (codes "c") (KvStore.entries two_keys)))
set-refines_example = set-refines two_keys (codes "c") (codes "1") two_keys-IsValid

get-refines_example :
    IsValid (KvStore.get a two_keys).1
    × ((KvStore.get a two_keys).1.capacity ≡ two_keys.capacity)
    × ((KvStore.get a two_keys).0 ≡ find a (KvStore.entries two_keys))
    × (KvStore.entries (KvStore.get a two_keys).1 ≡ looked_up a (KvStore.entries two_keys))
get-refines_example = get-refines two_keys a two_keys-IsValid

del-refines_example :
    IsValid (KvStore.del a two_keys).1
    × ((KvStore.del a two_keys).1.capacity ≡ two_keys.capacity)
    × ((KvStore.del a two_keys).0 ≡ is_found (find a (KvStore.entries two_keys)))
    × (KvStore.entries (KvStore.del a two_keys).1 ≡ erase a (KvStore.entries two_keys))
del-refines_example = del-refines two_keys a two_keys-IsValid

-- The value of the key b is no numeral, but it begins with one.
abbrev with_tail : KvStore
with_tail = KvStore.set b (codes " 12abc") two_keys

with_tail-IsValid : IsValid with_tail
with_tail-IsValid = (set-refines two_keys b (codes " 12abc") two_keys-IsValid).0

with_tail-number : number_of (contents with_tail b) ≡ some (pos 12)
unfolding KvStore.set KvStore.init KvStore.entries find insert erase text_eq splice unlink deref
    back pop_back set_value stoll
with_tail-number = refl

thirteen-SumFits : SumFits (pos 1) (number_of (contents with_tail b))
unfolding ◌+ℤ◌
thirteen-SumFits = subst (SumFits (pos 1)) (sym with_tail-number) (omega arith)

increment_by-refines_example :
    IsValid (KvStore.increment_by b (pos 1) with_tail).1
    × ((KvStore.increment_by b (pos 1) with_tail).1.capacity ≡ with_tail.capacity)
    × ((KvStore.increment_by b (pos 1) with_tail).0
        ≡ sum_with (pos 1) (number_of (contents with_tail b)))
    × (KvStore.entries (KvStore.increment_by b (pos 1) with_tail).1
        ≡ with_number with_tail.capacity b
            (KvStore.entries with_tail)
            (sum_with (pos 1) (number_of (contents with_tail b))))
increment_by-refines_example =
    increment_by-refines with_tail b (pos 1) with_tail-IsValid thirteen-SumFits

-- The key is due at 10, and the heap still has the schedule at 5 that this one has replaced.
abbrev rescheduled : ExpiryManager
rescheduled =
    ExpiryManager.schedule a (pos 10) (ExpiryManager.schedule a (pos 5) ExpiryManager.init)

rescheduled-IsValid : ExpiryIsValid rescheduled
rescheduled-IsValid =
    schedule-IsValid (ExpiryManager.schedule a (pos 5) ExpiryManager.init) a (pos 10)
      (schedule-IsValid ExpiryManager.init a (pos 5) expiry-init-IsValid)

running : rescheduled.stopped ≡ false
unfolding ExpiryManager.schedule ExpiryManager.init
running = refl

two_entries : length rescheduled.heap ≤ 2
unfolding ExpiryManager.schedule ExpiryManager.init ExpiryManager.push
two_entries = omega arith

sweep_rounds_lem_example :
    (times a (ExpiryManager.sweep_rounds 2 (pos 10) rescheduled).0
      ≡ (if is_due (pos 10) (ExpiryManager.expiry_of a rescheduled) then 1 else 0))
    × (ExpiryManager.expiry_of a (ExpiryManager.sweep_rounds 2 (pos 10) rescheduled).1
        ≡ not_yet_due (pos 10) (ExpiryManager.expiry_of a rescheduled))
sweep_rounds_lem_example =
    sweep_rounds_lem 2 (pos 10) rescheduled rescheduled-IsValid running two_entries a
