-- ===== src/Server/Events/Invariant.antt =====
-- What every event of `tinykv-server` (src/server_main.cpp) keeps.
use tiny_kv_distributed_stor.Prelude.{
  ℕ, ◌≤◌, ◌≡◌, ◌≢◌, refl, sym, ap, ◌∙◌, ◌&&◌, Option, none, some, List, [], ◌∷◌, arith, if_cases,
  length,
}
use tiny_kv_distributed_stor.Prelude.Text.{Text}
use tiny_kv_distributed_stor.Storage.KvStore
use tiny_kv_distributed_stor.Storage.KvStore.Valid.{del-refines, exists_size, length-entries}
use tiny_kv_distributed_stor.Storage.ExpiryManager.{TimePoint}
use tiny_kv_distributed_stor.Storage.ExpiryManager.Rounds.{sweep_round-IsValid}
use tiny_kv_distributed_stor.Protocol.Command.{Command, is_write_command}
use tiny_kv_distributed_stor.Protocol.Parser.{ParseResult, parsed, protocol_error, parse}
use tiny_kv_distributed_stor.Executor.{Executor, execute}
use tiny_kv_distributed_stor.Executor.Keeps.{IsValid, Follows, execute-Keeps}
use tiny_kv_distributed_stor.Server.{
  Served, succeeded, execute_and_record, end_sync, is_sync, is_replica, handle_command,
  handle_parsed, handle_line, apply_parsed, apply_replicated, on_expire,
}
use tiny_kv_distributed_stor.Server.Events.{
  Machine, Event, sweep_from, call_back, pass_second, on_event, run,
}

module _ (s : Executor) (h : IsValid s) where
  -- Only the files, the replication state or the counters differ.
  same_data-Follows : (t : Executor) → t.store ≡ s.store → t.expiry ≡ s.expiry → Follows s t
  same_data-Follows t p q =
      (record { stored = rw p h.stored; scheduled = rw q h.scheduled }, ap (λ x. x.capacity) p)

  executed-Follows :
      (now : TimePoint) (cmd : Command) (line : Text)
      → Follows s (execute_and_record now cmd line s).2
  unfolding execute_and_record
  executed-Follows now cmd line =
      let (valid, cap) = execute-Keeps now cmd s h in
      if_cases (λ (r : List (ℕ × Text) × Executor). Follows s r.1)
        (succeeded (execute now cmd s).0 && is_write_command cmd.type)
        (λ _. (record { stored = valid.stored; scheduled = valid.scheduled }, cap))
        (λ _. (valid, cap))

  handle_command-Follows :
      (now : TimePoint) (fd : ℕ) (cmd : Command) (line : Text)
      → Follows s (handle_command now fd cmd line s).state
  unfolding handle_command
  handle_command-Follows now fd cmd line =
      if_cases (λ (r : Served). Follows s r.state) (is_sync cmd.type)
        (λ _. same_data-Follows _ refl refl)
        (λ _.
          if_cases (λ (r : Served). Follows s r.state)
            (is_write_command cmd.type && is_replica s.replication.role) (λ _. (h, refl))
            (λ _. executed-Follows now cmd line))

  handle_parsed-Follows :
      (now : TimePoint) (fd : ℕ) (r : ParseResult) (line : Text)
      → Follows s (handle_parsed now fd r line s).state
  unfolding handle_parsed
  handle_parsed-Follows now fd (parsed cmd) line = handle_command-Follows now fd cmd line
  handle_parsed-Follows now fd (protocol_error message) line = (h, refl)

  handle_line-Follows :
      (now : TimePoint) (fd : ℕ) (line : Text) → Follows s (handle_line now fd line s).state
  unfolding handle_line
  handle_line-Follows now fd [] = (h, refl)
  handle_line-Follows now fd (c ∷ line) = handle_parsed-Follows now fd (parse (c ∷ line)) (c ∷ line)

  apply_parsed-Follows :
      (now : TimePoint) (r : ParseResult) (line : Text) → Follows s (apply_parsed now r line s).1
  unfolding apply_parsed
  apply_parsed-Follows now (parsed cmd) line = executed-Follows now cmd line
  apply_parsed-Follows now (protocol_error message) line = (h, refl)

  on_expire-Follows : (key : Text) → Follows s (on_expire key s)
  unfolding on_expire
  on_expire-Follows key =
      let (stored, cap, _, _) = del-refines s.store key h.stored in
      (record { stored = stored; scheduled = h.scheduled }, cap)

sweep_from-Follows :
    (o : Option Text) (now : TimePoint) (m : Machine)
    → IsValid m.executor
    → Follows m.executor (sweep_from o now m).executor
unfolding sweep_from
sweep_from-Follows none now m h = (
  record { stored = h.stored; scheduled = sweep_round-IsValid now m.executor.expiry h.scheduled },
  refl,
)
sweep_from-Follows (some key) now m h = (h, refl)

call_back-Follows :
    (o : Option Text) (m : Machine)
    → IsValid m.executor
    → Follows m.executor (call_back o m).executor
unfolding call_back
call_back-Follows none m h = (h, refl)
call_back-Follows (some key) m h = on_expire-Follows m.executor h key

pub on_event-Follows :
    (e : Event) (m : Machine) → IsValid m.executor → Follows m.executor (on_event e m).executor
unfolding on_event
on_event-Follows (Event.request r) m h = handle_line-Follows m.executor h r.now r.fd r.line
on_event-Follows (Event.replica_gone fd) m h =
    unfold end_sync in same_data-Follows m.executor h _ refl refl
on_event-Follows (Event.replicated now line) m h =
    unfold apply_replicated in apply_parsed-Follows m.executor h now (parse line) line
on_event-Follows (Event.swept now) m h = sweep_from-Follows m.firing now m h
on_event-Follows Event.called_back m h = call_back-Follows m.firing m h
on_event-Follows Event.second_passed m h =
    unfold pass_second in same_data-Follows m.executor h _ refl refl

pub run-Follows :
    (events : List Event) (m : Machine)
    → IsValid m.executor
    → Follows m.executor (run events m).executor
unfolding run
run-Follows [] m h = (h, refl)
run-Follows (e ∷ events) m h =
    let (valid, cap) = on_event-Follows e m h in
    let (valid', cap') = run-Follows events (on_event e m) valid in (valid', cap' ∙ cap)

-- Whatever happens to a valid server with a capacity limit, in any order, it never holds more keys
-- than its capacity at the start, neither in the list nor in the index.
pub run_within_capacity :
    (events : List Event) (m : Machine)
    → IsValid m.executor
    → m.executor.store.capacity ≢ 0
    → (KvStore.size (run events m).executor.store ≤ m.executor.store.capacity)
      × (length (KvStore.entries (run events m).executor.store) ≤ m.executor.store.capacity)
run_within_capacity events m h limited =
    let (valid, cap) = run-Follows events m h in
    let fits = valid.stored.bounded (λ e. limited (sym cap ∙ e)) in
    let (_, counted) = exists_size (run events m).executor.store [] valid.stored in
    let entries = length-entries (run events m).executor.store in
    (omega (arith, cap), omega (arith, cap))
