-- ===== src/Server/Events.antt =====
-- The threads of `tinykv-server` (src/server_main.cpp) as a sequence of events, in the order in
-- which they take their locks: connections, the link to a primary, the sweeper, and the timer with
-- the tasks that it submits. The sweeper calls back after it has released its lock, so its two
-- halves are two events, and anything may come between them.
pub mod Invariant
pub mod Race
pub mod Clean
use tiny_kv_distributed_stor.Prelude.{ℕ, Bool, true, false, Option, none, some, List, [], ◌∷◌}
use tiny_kv_distributed_stor.Prelude.Text.{Text}
use tiny_kv_distributed_stor.Storage.ExpiryManager.{TimePoint, sweep_round}
use tiny_kv_distributed_stor.Persistence.Manager.{timer_round}
use tiny_kv_distributed_stor.Executor.{Executor}
use tiny_kv_distributed_stor.Server.{Request, handle_line, end_sync, apply_replicated, on_expire}

-- `firing` is the key between the sweeper's unlock and the end of its callback.
pub record Machine : Type 0 where
  pub executor : Executor
  pub firing : Option Text
  pub seconds_since_snapshot : ℕ

pub data Event : Type 0 where
  request : Request → Event
  replica_gone : ℕ → Event
  replicated : TimePoint → Text → Event
  swept : TimePoint → Event
  called_back : Event
  second_passed : Event

-- A round of the sweeper's loop, which does not begin before its callback has returned.
unfoldable pub sweep_from : Option Text → TimePoint → Machine → Machine
unfolding sweep_round
sweep_from none now m =
    let (fired, expiry) = sweep_round now m.executor.expiry in
    record m { executor = record m.executor { expiry = expiry }; firing = fired }
sweep_from (some key) now m = m

unfoldable pub call_back : Option Text → Machine → Machine
unfolding on_expire
call_back none m = m
call_back (some key) m = record m { executor = on_expire key m.executor; firing = none }

-- A second of the timer, its flush and snapshot run at once.
unfoldable pub pass_second : Machine → Machine
unfolding timer_round
pass_second m =
    let (seconds, files) =
      timer_round m.executor.store (m.seconds_since_snapshot, m.executor.persistence) in
    record m {
      executor = record m.executor { persistence = files };
      seconds_since_snapshot = seconds;
    }

unfoldable pub on_event : Event → Machine → Machine
unfolding handle_line end_sync apply_replicated sweep_from call_back pass_second
on_event (Event.request r) m = record m {
  executor = (handle_line r.now r.fd r.line m.executor).state;
}
on_event (Event.replica_gone fd) m = record m { executor = end_sync fd m.executor }
on_event (Event.replicated now line) m = record m {
  executor = (apply_replicated now line m.executor).1;
}
on_event (Event.swept now) m = sweep_from m.firing now m
on_event Event.called_back m = call_back m.firing m
on_event Event.second_passed m = pass_second m

unfoldable pub run : List Event → Machine → Machine
unfolding on_event
run [] m = m
run (e ∷ events) m = run events (on_event e m)
