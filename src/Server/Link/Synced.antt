-- ===== src/Server/Link/Synced.antt =====
-- What a primary (src/server_main.cpp) sends to one replica while it serves a request, and its own
-- values.
use tiny_kv_distributed_stor.Prelude.{
  ℕ, suc, ◌≡◌, ◌≢◌, refl, sym, ap, ◌∙◌, false, ◌&&◌, List, [], ◌∷◌, map, arith, inl, inr, ◌==◌,
  if◌then◌else◌, if_cases, Bool-cases,
}
use tiny_kv_distributed_stor.Prelude.Text.{Text}
use tiny_kv_distributed_stor.Storage.KvStore.Contents.{contents}
use tiny_kv_distributed_stor.Storage.ExpiryManager.{TimePoint}
use tiny_kv_distributed_stor.Protocol.Command.{Command, is_write_command}
use tiny_kv_distributed_stor.Protocol.Parser.{ParseResult, parsed, protocol_error, parse}
use tiny_kv_distributed_stor.Replication.Registry.{ReplicaRegistry, add, propagate}
use tiny_kv_distributed_stor.Executor.{Executor, execute}
use tiny_kv_distributed_stor.Executor.Keeps.{IsValid, execute-Keeps}
use tiny_kv_distributed_stor.Executor.Effect.{Values, effect, execute-effect}
use tiny_kv_distributed_stor.Executor.Untouched.{execute-registry}
use tiny_kv_distributed_stor.Executor.Errors.{execute-ErrorKeeps}
use tiny_kv_distributed_stor.Recovery.Values.{parsed_effect, line_effect, lines_effect}
use tiny_kv_distributed_stor.Server.{
  Served, succeeded, execute_and_record, is_sync, is_replica, handle_command, handle_parsed,
  handle_line,
}
use tiny_kv_distributed_stor.Server.ReadOnly.{execute-SameValues}
use tiny_kv_distributed_stor.Server.Durable.Step.{not-succeeded}
use tiny_kv_distributed_stor.Server.Link.{sent_to}

-- How often the socket is registered.
abbrev pub times_in : ℕ → ReplicaRegistry → ℕ
times_in fd [] = 0
times_in fd (x ∷ r) = let rest = times_in fd r in if x == fd then suc rest else rest

times_in-add : (fd x : ℕ) (r : ReplicaRegistry) → x ≢ fd → times_in fd (add x r) ≡ times_in fd r
unfolding add
times_in-add fd x [] h = ground arith
times_in-add fd x (y ∷ r) h = ground (arith, times_in-add fd x r h)

pub times_in-add_self :
    (fd : ℕ) (r : ReplicaRegistry) → times_in fd r ≡ 0 → times_in fd (add fd r) ≡ 1
unfolding add
times_in-add_self fd [] h = ground arith
times_in-add_self fd (y ∷ r) h = ground (arith, times_in-add_self fd r)

sent_to-none :
    (fd : ℕ) (line : Text) (r : ReplicaRegistry)
    → times_in fd r ≡ 0
    → sent_to fd (map (λ x. (x, line)) r) ≡ []
unfolding sent_to
sent_to-none fd line [] h = refl
sent_to-none fd line (x ∷ r) h = ground (arith, sent_to-none fd line r)

pub sent_to-propagate :
    (fd : ℕ) (line : Text) (r : ReplicaRegistry)
    → times_in fd r ≡ 1
    → sent_to fd (propagate line r) ≡ line ∷ []
unfolding sent_to propagate
sent_to-propagate fd line [] h = cc
sent_to-propagate fd line (x ∷ r) h =
    ground (arith, sent_to-propagate fd line r, sent_to-none fd line r)

-- A valid server without a capacity limit, in whose registry the socket stands once.
pub record IsSource (fd : ℕ) (s : Executor) : Type 0 where
  pub valid : IsValid s
  pub unbounded : s.store.capacity ≡ 0
  pub registered : times_in fd s.replication.registry ≡ 1

-- After this, the server is still a source, and what it sent to the socket accounts for its values.
pub record Streams (fd : ℕ) (s : Executor) (sent : List (ℕ × Text)) (t : Executor) : Type 0 where
  pub source : IsSource fd t
  pub values : contents t.store ≡ lines_effect (sent_to fd sent) (contents s.store)

propagated_effect :
    (fd : ℕ) (line : Text) (m : Values) (r : ReplicaRegistry)
    → times_in fd r ≡ 1
    → lines_effect (sent_to fd (propagate line r)) m ≡ line_effect line m
unfolding lines_effect
propagated_effect fd line m r once = ap (λ l. lines_effect l m) (sent_to-propagate fd line r once)

-- A command that was not recorded has changed no value.
unrecorded-contents :
    (now : TimePoint) (cmd : Command) (s : Executor)
    → IsValid s
    → (succeeded (execute now cmd s).0 && is_write_command cmd.type) ≡ false
    → contents (execute now cmd s).1.store ≡ contents s.store
unrecorded-contents now cmd s h e = elim (Bool-cases (is_write_command cmd.type)) [
  | inr read ↦ (execute-SameValues now cmd s h read).0
  | inl write ↦
      let failed = not-succeeded (execute now cmd s).0 (ground arith) in
      ap contents (execute-ErrorKeeps now cmd s h failed).store
]

module _ (fd : ℕ) (s : Executor) (src : IsSource fd s) (now : TimePoint) where
  same-Streams :
      (t : Executor)
      → t.store ≡ s.store
      → t.expiry ≡ s.expiry
      → times_in fd t.replication.registry ≡ 1
      → Streams fd s [] t
  same-Streams t p q r = record {
    source = record {
      valid = record { stored = rw p src.valid.stored; scheduled = rw q src.valid.scheduled };
      unbounded = rw p src.unbounded;
      registered = r;
    };
    values = unfold lines_effect sent_to in ap contents p;
  }

  executed-IsSource : (cmd : Command) → IsSource fd (execute now cmd s).1
  executed-IsSource cmd =
      let (valid, cap) = execute-Keeps now cmd s src.valid in
      record {
        valid = valid;
        unbounded = cap ∙ src.unbounded;
        registered = ap (times_in fd) (execute-registry now cmd s) ∙ src.registered;
      }

  executed-Streams :
      (cmd : Command) (line : Text)
      → ((m : Values) → line_effect line m ≡ effect cmd.type cmd.args m)
      → Streams fd s (execute_and_record now cmd line s).1 (execute_and_record now cmd line s).2
  unfolding execute_and_record
  executed-Streams cmd line same_effect =
      let after = executed-IsSource cmd in
      if_cases (λ (r : List (ℕ × Text) × Executor). Streams fd s r.0 r.1)
        (succeeded (execute now cmd s).0 && is_write_command cmd.type)
        (λ _. record {
          source = record {
            valid = record { stored = after.valid.stored; scheduled = after.valid.scheduled };
            unbounded = after.unbounded;
            registered = after.registered;
          };
          values =
              execute-effect now cmd s src.valid src.unbounded
              ∙ (sym (same_effect (contents s.store))
                  ∙ sym (
                      propagated_effect fd line (contents s.store)
                        (execute now cmd s).1.replication.registry after.registered));
        })
        (λ e. record {
          source = after;
          values =
              unrecorded-contents now cmd s src.valid e ∙ (unfold lines_effect sent_to in refl);
        })

  handle_command-Streams :
      (x : ℕ) (cmd : Command) (line : Text)
      → x ≢ fd
      → ((m : Values) → line_effect line m ≡ effect cmd.type cmd.args m)
      → Streams fd s (handle_command now x cmd line s).sent (handle_command now x cmd line s).state
  unfolding handle_command
  handle_command-Streams x cmd line other same_effect =
      if_cases (λ (r : Served). Streams fd s r.sent r.state) (is_sync cmd.type)
        (λ _.
          same-Streams _ refl refl
            (times_in-add fd x s.replication.registry other ∙ src.registered))
        (λ _.
          if_cases (λ (r : Served). Streams fd s r.sent r.state)
            (is_write_command cmd.type && is_replica s.replication.role)
            (λ _. same-Streams s refl refl src.registered)
            (λ _. executed-Streams cmd line same_effect))

  handle_parsed-Streams :
      (x : ℕ) (r : ParseResult) (line : Text)
      → x ≢ fd
      → ((m : Values) → line_effect line m ≡ parsed_effect r m)
      → Streams fd s (handle_parsed now x r line s).sent (handle_parsed now x r line s).state
  unfolding handle_parsed
  handle_parsed-Streams x (parsed cmd) line other same_effect =
      handle_command-Streams x cmd line other same_effect
  handle_parsed-Streams x (protocol_error message) line other same_effect =
      same-Streams s refl refl src.registered

  pub handle_line-Streams :
      (x : ℕ) (line : Text)
      → x ≢ fd
      → Streams fd s (handle_line now x line s).sent (handle_line now x line s).state
  unfolding handle_line line_effect
  handle_line-Streams x [] other = same-Streams s refl refl src.registered
  handle_line-Streams x (c ∷ line) other =
      handle_parsed-Streams x (parse (c ∷ line)) (c ∷ line) other (λ m. refl)
