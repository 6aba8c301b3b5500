-- ===== src/Server/ReadOnly.antt =====
-- The lines that clients send to a replica (src/server_main.cpp), and the commands of
-- src/command_executor.cpp that are no writes.
use mathlib.Core.Path.{fun_ext}
use tiny_kv_distributed_stor.Prelude.{
  ℕ, ◌≡◌, refl, false, not, ◌&&◌, Option, none, some, List, [], ◌∷◌, arith, if_cases,
}
use tiny_kv_distributed_stor.Prelude.Text.{Text}
use tiny_kv_distributed_stor.Prelude.Int.{ℤ}
use tiny_kv_distributed_stor.Prelude.Decimal.{stoi}
use tiny_kv_distributed_stor.Storage.KvStore
use tiny_kv_distributed_stor.Storage.KvStore.Contents.{contents, contents-get}
use tiny_kv_distributed_stor.Storage.ExpiryManager.{TimePoint}
use tiny_kv_distributed_stor.Protocol.Command.{Command, CommandType, is_write_command}
use tiny_kv_distributed_stor.Protocol.Parser.{ParseResult, parsed, protocol_error, parse}
use tiny_kv_distributed_stor.Replication.Manager.{ServerRole}
use tiny_kv_distributed_stor.Executor.{
  Executor, get_reply, execute_get, execute_ping, execute_ttl, execute_save, replicate_from,
  execute_replicaof, dispatch, execute,
}
use tiny_kv_distributed_stor.Executor.Keeps.{IsValid}
use tiny_kv_distributed_stor.Server.{
  Served, succeeded, execute_and_record, is_sync, is_replica, handle_command, handle_parsed,
  handle_line,
}

-- The same value for every key, and the same schedules.
abbrev pub SameValues : Executor → Executor → Type 0
SameValues s t = (contents t.store ≡ contents s.store) × (t.expiry ≡ s.expiry)

abbrev ReadKeeps : Executor → Text × Executor → Type 0
ReadKeeps s r = SameValues s r.1

module _ (s : Executor) (h : IsValid s) where
  execute_get-SameValues : (cmd : Command) (args : List Text) → ReadKeeps s (execute_get cmd args s)
  unfolding execute_get
  execute_get-SameValues cmd (k ∷ []) =
      replied (KvStore.get k s.store).0 (record s { store = (KvStore.get k s.store).1 })
        (fun_ext λ j. contents-get s.store k j h.stored, refl)
    where
      replied : (o : Option Text) (t : Executor) → SameValues s t → ReadKeeps s (get_reply o t)
      replied none t e = e
      replied (some x) t e = e
  execute_get-SameValues cmd _ = (refl, refl)

  execute_ping-SameValues :
      (cmd : Command) (args : List Text) → ReadKeeps s (execute_ping cmd args s)
  unfolding execute_ping
  execute_ping-SameValues cmd [] = (refl, refl)
  execute_ping-SameValues cmd (_ ∷ _) = (refl, refl)

  execute_ttl-SameValues :
      (now : TimePoint) (cmd : Command) (args : List Text)
      → ReadKeeps s (execute_ttl now cmd args s)
  unfolding execute_ttl
  execute_ttl-SameValues now cmd (k ∷ []) =
      if_cases (ReadKeeps s) (KvStore.exists k s.store) (λ _. (refl, refl)) (λ _. (refl, refl))
  execute_ttl-SameValues now cmd _ = (refl, refl)

  execute_save-SameValues :
      (cmd : Command) (args : List Text) → ReadKeeps s (execute_save cmd args s)
  unfolding execute_save
  execute_save-SameValues cmd [] =
      if_cases (ReadKeeps s) s.has_persistence (λ _. (refl, refl)) (λ _. (refl, refl))
  execute_save-SameValues cmd (_ ∷ _) = (refl, refl)

  replicate_from-SameValues :
      (host : Text) (port : Option ℤ) → ReadKeeps s (replicate_from host port s)
  unfolding replicate_from
  replicate_from-SameValues host none = (refl, refl)
  replicate_from-SameValues host (some port) = (refl, refl)

  execute_replicaof-SameValues :
      (cmd : Command) (args : List Text) → ReadKeeps s (execute_replicaof cmd args s)
  unfolding execute_replicaof
  execute_replicaof-SameValues cmd (host ∷ port ∷ []) =
      if_cases (ReadKeeps s) (not s.has_replication) (λ _. (refl, refl))
        (λ _.
          if_cases (ReadKeeps s) _ (λ _. (refl, refl))
            (λ _. replicate_from-SameValues host (stoi port)))
  execute_replicaof-SameValues cmd _ = (refl, refl)

  dispatch-SameValues :
      (t : CommandType) (now : TimePoint) (cmd : Command)
      → is_write_command t ≡ false
      → ReadKeeps s (dispatch t now cmd s)
  unfolding dispatch is_write_command
  dispatch-SameValues CommandType.get now cmd r = execute_get-SameValues cmd cmd.args
  dispatch-SameValues CommandType.ping now cmd r = execute_ping-SameValues cmd cmd.args
  dispatch-SameValues CommandType.ttl now cmd r = execute_ttl-SameValues now cmd cmd.args
  dispatch-SameValues CommandType.save now cmd r = execute_save-SameValues cmd cmd.args
  dispatch-SameValues CommandType.replicaof now cmd r = execute_replicaof-SameValues cmd cmd.args
  dispatch-SameValues CommandType.set now cmd r = cc
  dispatch-SameValues CommandType.del now cmd r = cc
  dispatch-SameValues CommandType.incr now cmd r = cc
  dispatch-SameValues CommandType.decr now cmd r = cc
  dispatch-SameValues CommandType.expire now cmd r = cc
  dispatch-SameValues CommandType.persist now cmd r = cc
  dispatch-SameValues _ now cmd r = (refl, refl)

pub execute-SameValues :
    (now : TimePoint) (cmd : Command) (s : Executor)
    → IsValid s
    → is_write_command cmd.type ≡ false
    → SameValues s (execute now cmd s).1
unfolding execute
execute-SameValues now cmd s h read =
    let h' : IsValid _ = record { stored = h.stored; scheduled = h.scheduled } in
    dispatch-SameValues _ h' cmd.type now cmd read

-- What a line to a replica leaves: the values, the schedules, and the streams of its own replicas.
abbrev pub IsReadOnly : Executor → Served → Type 0
IsReadOnly s r = SameValues s r.state × (r.sent ≡ [])

module _ (s : Executor) (h : IsValid s) (replica : s.replication.role ≡ ServerRole.replica)
    (now : TimePoint) (fd : ℕ) where
  executed-IsReadOnly :
      (cmd : Command) (line : Text)
      → is_write_command cmd.type ≡ false
      → SameValues s (execute_and_record now cmd line s).2
        × ((execute_and_record now cmd line s).1 ≡ [])
  unfolding execute_and_record
  executed-IsReadOnly cmd line read =
      if_cases (λ (r : List (ℕ × Text) × Executor). SameValues s r.1 × (r.0 ≡ []))
        (succeeded (execute now cmd s).0 && is_write_command cmd.type)
        (λ write. absurd (ground (arith, read, write)))
        (λ _. (execute-SameValues now cmd s h read, refl))

  handle_command-IsReadOnly :
      (cmd : Command) (line : Text) → IsReadOnly s (handle_command now fd cmd line s)
  unfolding handle_command
  handle_command-IsReadOnly cmd line =
      if_cases (IsReadOnly s) (is_sync cmd.type) (λ _. ((refl, refl), refl))
        (λ _.
          if_cases (IsReadOnly s) (is_write_command cmd.type && is_replica s.replication.role)
            (λ _. ((refl, refl), refl))
            (λ e. executed-IsReadOnly cmd line (ground (arith, e, replica))))

  handle_parsed-IsReadOnly :
      (r : ParseResult) (line : Text) → IsReadOnly s (handle_parsed now fd r line s)
  unfolding handle_parsed
  handle_parsed-IsReadOnly (parsed cmd) line = handle_command-IsReadOnly cmd line
  handle_parsed-IsReadOnly (protocol_error message) line = ((refl, refl), refl)

-- Whatever line a client sends to a valid replica, no value and no schedule changes, and nothing is
-- sent on to replicas of its own.
pub handle_line-IsReadOnly :
    (now : TimePoint) (fd : ℕ) (line : Text) (s : Executor)
    → IsValid s
    → s.replication.role ≡ ServerRole.replica
    → IsReadOnly s (handle_line now fd line s)
unfolding handle_line
handle_line-IsReadOnly now fd [] s h replica = ((refl, refl), refl)
handle_line-IsReadOnly now fd (c ∷ line) s h replica =
    handle_parsed-IsReadOnly s h replica now fd (parse (c ∷ line)) (c ∷ line)
