-- ===== src/Server/Events/Clean.antt =====
-- The words of the store under the events of `tinykv-server` (src/server_main.cpp).
use mathlib.Core.Path.{subst}
use tiny_kv_distributed_stor.Prelude.{sym, Option, none, some, List, [], ◌∷◌}
use tiny_kv_distributed_stor.Prelude.Text.{Text}
use tiny_kv_distributed_stor.Storage.KvStore
use tiny_kv_distributed_stor.Storage.KvStore.Valid.{del-refines}
use tiny_kv_distributed_stor.Executor.{Executor}
use tiny_kv_distributed_stor.Storage.ExpiryManager.{TimePoint}
use tiny_kv_distributed_stor.Executor.Words.{AreWords, AreWords-erase}
use tiny_kv_distributed_stor.Server.{on_expire, end_sync}
use tiny_kv_distributed_stor.Server.Framing.{IsClean, handle_line-IsClean, apply_replicated-IsClean}
use tiny_kv_distributed_stor.Server.Events.{
  Machine, Event, sweep_from, call_back, pass_second, on_event, run,
}
use tiny_kv_distributed_stor.Server.Events.Invariant.{on_event-Follows}

on_expire-words :
    (key : Text) (s : Executor) → IsClean s → AreWords (KvStore.entries (on_expire key s).store)
unfolding on_expire
on_expire-words key s h =
    let (_, _, _, gone) = del-refines s.store key h.valid.stored in
    subst AreWords (sym gone) (AreWords-erase key (KvStore.entries s.store) h.words)

call_back-words :
    (o : Option Text) (m : Machine)
    → IsClean m.executor
    → AreWords (KvStore.entries (call_back o m).executor.store)
unfolding call_back
call_back-words none m h = h.words
call_back-words (some key) m h = on_expire-words key m.executor h

sweep_from-words :
    (o : Option Text) (now : TimePoint) (m : Machine)
    → IsClean m.executor
    → AreWords (KvStore.entries (sweep_from o now m).executor.store)
unfolding sweep_from
sweep_from-words none now m h = h.words
sweep_from-words (some key) now m h = h.words

on_event-words :
    (e : Event) (m : Machine)
    → IsClean m.executor
    → AreWords (KvStore.entries (on_event e m).executor.store)
unfolding on_event
on_event-words (Event.request r) m h = (handle_line-IsClean m.executor h r.now r.fd r.line).words
on_event-words (Event.replica_gone fd) m h = unfold end_sync in h.words
on_event-words (Event.replicated now line) m h =
    (apply_replicated-IsClean m.executor h now line).words
on_event-words (Event.swept now) m h = sweep_from-words m.firing now m h
on_event-words Event.called_back m h = call_back-words m.firing m h
on_event-words Event.second_passed m h = unfold pass_second in h.words

-- Whatever lines clients and a primary send, and in whatever order the threads of a server act: if
-- the server was valid and held only keys and values that are words (not empty, no white space), it
-- still is and does.
pub run-IsClean :
    (events : List Event) (m : Machine) → IsClean m.executor → IsClean (run events m).executor
unfolding run
run-IsClean [] m h = h
run-IsClean (e ∷ events) m h =
    run-IsClean events (on_event e m)
      (record { valid = (on_event-Follows e m h.valid).0; words = on_event-words e m h })
