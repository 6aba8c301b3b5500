-- ===== src/Server/Events/Race.antt =====
-- The two halves of an expiry in src/storage/expiry_manager.cpp: the sweeper's pop, and the callback
-- of src/server_main.cpp.
use tiny_kv_distributed_stor.Prelude.{
  ◌≡◌, refl, sym, ap, ◌∙◌, if◌then◌else◌, Bool, true, false, Option, none, some, List, [], ◌∷◌, All,
}
use tiny_kv_distributed_stor.Prelude.Text.{Text, text_eq_refl}
use tiny_kv_distributed_stor.Storage.KvStore.Contents.{contents, contents-del}
use tiny_kv_distributed_stor.Storage.ExpiryManager.{TimePoint, expiry_of, sweep_round}
use tiny_kv_distributed_stor.Storage.ExpiryManager.Rounds.{is_due, sweep_round-is_due}
use tiny_kv_distributed_stor.Executor.Keeps.{IsValid}
use tiny_kv_distributed_stor.Server.{on_expire}
use tiny_kv_distributed_stor.Server.Events.{
  Machine, Event, sweep_from, call_back, pass_second, on_event, run,
}
use tiny_kv_distributed_stor.Server.Events.Invariant.{on_event-Follows}

-- Any event but the end of the callback.
abbrev pub is_callback : Event → Bool
is_callback Event.called_back = true
is_callback _ = false

on_event-firing :
    (e : Event) (m : Machine) (key : Text)
    → is_callback e ≡ false
    → m.firing ≡ some key
    → (on_event e m).firing ≡ some key
unfolding on_event
on_event-firing (Event.request r) m key h f = f
on_event-firing (Event.replica_gone fd) m key h f = f
on_event-firing (Event.replicated now line) m key h f = f
on_event-firing (Event.swept now) m key h f = rw (f, sweep_from) refl
on_event-firing Event.called_back m key h f = cc
on_event-firing Event.second_passed m key h f = unfold pass_second in f

call_back-deletes :
    (m : Machine) (key : Text)
    → IsValid m.executor
    → m.firing ≡ some key
    → contents (on_event Event.called_back m).executor.store key ≡ none
unfolding on_event
call_back-deletes m key h f =
    rw (f, call_back)
      (unfold on_expire in
        contents-del m.executor.store key key h.stored
        ∙ ap (λ b. if b then none else contents m.executor.store key) (text_eq_refl key))

-- Once the sweeper has taken a key's schedule from the heap of a valid server, nothing that is done
-- before its callback keeps the key: neither a SET that was answered with +OK nor an EXPIRE. After
-- the callback the key has no value.
pub called_back_deletes :
    (events : List Event) (m : Machine) (key : Text)
    → IsValid m.executor
    → m.firing ≡ some key
    → All (λ e. is_callback e ≡ false) events
    → contents (on_event Event.called_back (run events m)).executor.store key ≡ none
unfolding run
called_back_deletes [] m key h f between = call_back-deletes m key h f
called_back_deletes (e ∷ events) m key h f between =
    called_back_deletes events (on_event e m) key (on_event-Follows e m h).0
      (on_event-firing e m key between.0 f) between.1

sweep_from-firing :
    (o : Option Text) (now : TimePoint) (m : Machine)
    → o ≡ none
    → (sweep_from o now m).firing ≡ (sweep_round now m.executor.expiry).0
unfolding sweep_from
sweep_from-firing none now m idle = refl
sweep_from-firing (some key) now m idle = cc

-- The sweeper of a valid server takes a key only if the key's schedule is due at that time.
pub swept_only_due :
    (now : TimePoint) (m : Machine) (key : Text)
    → IsValid m.executor
    → m.firing ≡ none
    → (on_event (Event.swept now) m).firing ≡ some key
    → is_due now (expiry_of key m.executor.expiry) ≡ true
unfolding on_event
swept_only_due now m key h idle fired =
    sweep_round-is_due now m.executor.expiry key h.scheduled
      (sym (sweep_from-firing m.firing now m idle) ∙ fired)
