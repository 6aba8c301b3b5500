-- ===== src/Server/Durable/Overlap.antt =====
-- A save of src/persistence/persistence_manager.cpp with requests between its two halves: `save` holds
-- `saveMutex_`, which `recordWrite` does not take.
use mathlib.Core.List.{append-nil}
use mathlib.Core.Path.{subst}
use tiny_kv_distributed_stor.Prelude.{
  Bool, false, ◌&&◌, ◌∷◌, if_cases, ℕ, ◌≡◌, refl, sym, ap, ◌∙◌, true, some, List, [], All, arith,
}
use tiny_kv_distributed_stor.Storage.KvStore
use tiny_kv_distributed_stor.Storage.KvStore.Contents.{contents}
use tiny_kv_distributed_stor.Storage.ExpiryManager.{TimePoint}
use tiny_kv_distributed_stor.Persistence.Files.{AofWriter, append, flush, reset, save_snapshot}
use tiny_kv_distributed_stor.Persistence.Manager.{PersistenceManager, record_write, save_to_file}
use tiny_kv_distributed_stor.Prelude.Text.{Text}
use tiny_kv_distributed_stor.Protocol.Command.{Command, is_write_command}
use tiny_kv_distributed_stor.Protocol.Parser.{ParseResult, parsed, protocol_error, parse}
use tiny_kv_distributed_stor.Executor.Untouched.{execute-persistence}
use tiny_kv_distributed_stor.Protocol.Command.{is_save}
use tiny_kv_distributed_stor.Executor.{Executor, execute}
use tiny_kv_distributed_stor.Executor.Effect.{Values}
use tiny_kv_distributed_stor.Recovery.{recover}
use tiny_kv_distributed_stor.Recovery.Values.{lines_effect}
use tiny_kv_distributed_stor.Recovery.Snapshot.{Storable}
use tiny_kv_distributed_stor.Server.{
  Request, serve, Served, succeeded, execute_and_record, start_sync, is_sync, is_replica,
  handle_command, handle_parsed, handle_line,
}
use tiny_kv_distributed_stor.Server.Durable.Step.{Journal, Logged, saves, serve-Journal}
use tiny_kv_distributed_stor.Server.Durable.Restart.{boot, shut_down, Loads, recover-Has}
use tiny_kv_distributed_stor.Server.Durable.Save.{Loads-save_snapshot}

unfoldable pub begin_save : Executor → Executor
unfolding save_to_file
begin_save s = record s { persistence = (save_to_file s.store s.persistence).1 }

unfoldable pub end_save : Executor → Executor
unfolding reset
end_save s = record s {
  persistence = record s.persistence { aof_writer = reset s.persistence.aof_writer };
}

-- `save` in a background task, while connections are served.
unfoldable pub save_around : List Request → Executor → Executor
unfolding begin_save end_save serve
save_around requests s = end_save (serve requests (begin_save s))

-- The file system's answer to opening the AOF, which nothing changes.
abbrev can_reopen : Executor → Bool
can_reopen s = s.persistence.aof_writer.can_open

record_write-can_open :
    (line : Text) (p : PersistenceManager)
    → (record_write line p).aof_writer.can_open ≡ p.aof_writer.can_open
unfolding record_write append
record_write-can_open line p = ground arith

module _ (now : TimePoint) (fd : ℕ) (s : Executor) where
  executed-can_reopen :
      (cmd : Command) (line : Text)
      → is_save cmd.type ≡ false
      → can_reopen (execute_and_record now cmd line s).2 ≡ can_reopen s
  unfolding execute_and_record
  executed-can_reopen cmd line no_save =
      let kept = ap (λ p. p.aof_writer.can_open) (execute-persistence now cmd s no_save) in
      if_cases (λ (r : List (ℕ × Text) × Executor). can_reopen r.1 ≡ can_reopen s)
        (succeeded (execute now cmd s).0 && is_write_command cmd.type)
        (λ _. record_write-can_open line (execute now cmd s).1.persistence ∙ kept) (λ _. kept)

  handle_parsed-can_reopen :
      (r : ParseResult) (line : Text)
      → saves r ≡ false
      → can_reopen (handle_parsed now fd r line s).state ≡ can_reopen s
  unfolding handle_parsed handle_command start_sync
  handle_parsed-can_reopen (protocol_error message) line no_save = refl
  handle_parsed-can_reopen (parsed cmd) line no_save =
      if_cases (λ (r : Served). can_reopen r.state ≡ can_reopen s) (is_sync cmd.type) (λ _. refl)
        (λ _.
          if_cases (λ (r : Served). can_reopen r.state ≡ can_reopen s)
            (is_write_command cmd.type && is_replica s.replication.role) (λ _. refl)
            (λ _. executed-can_reopen cmd line no_save))

  handle_line-can_reopen :
      (line : Text)
      → saves (parse line) ≡ false
      → can_reopen (handle_line now fd line s).state ≡ can_reopen s
  unfolding handle_line
  handle_line-can_reopen [] no_save = refl
  handle_line-can_reopen (c ∷ line) no_save =
      handle_parsed-can_reopen (parse (c ∷ line)) (c ∷ line) no_save

serve-can_reopen :
    (requests : List Request) (s : Executor)
    → All Logged requests
    → can_reopen (serve requests s) ≡ can_reopen s
unfolding serve
serve-can_reopen [] s logged = refl
serve-can_reopen (r ∷ requests) s logged =
    serve-can_reopen requests (handle_line r.now r.fd r.line s).state logged.1
    ∙ handle_line-can_reopen r.now r.fd s r.line logged.0.1

begin_save-can_reopen : (s : Executor) → can_reopen (begin_save s) ≡ can_reopen s
unfolding begin_save save_to_file
begin_save-can_reopen s = ground arith

begin_save-Journal :
    (base : Values) (s : Executor)
    → s.persistence.can_write_snapshot ≡ true
    → Journal base s.persistence.snapshot s
    → Journal base (some (save_snapshot s.store)) (begin_save s)
unfolding begin_save save_to_file
begin_save-Journal base s writable j = record {
  lines = j.lines;
  has = rw writable (record {
    valid = record { stored = j.has.valid.stored; scheduled = j.has.valid.scheduled };
    unbounded = j.has.unbounded;
    values = j.has.values;
  });
  written = rw writable j.written;
  are_lines = j.are_lines;
  logging = rw writable j.logging;
  opened = rw writable j.opened;
  kept = rw writable refl;
}

reset-emptied :
    (w : AofWriter) → w.can_open ≡ true → w.is_open ≡ true → (flush (reset w)).on_disk ≡ []
unfolding reset flush
reset-emptied w can_open opened = ground (arith, can_open, opened, append-nil {A = ℕ} [])

-- While a snapshot has been written and the AOF is about to be reset, a valid server without a capacity
-- limit, whose files hold its values, whose AOF can be opened and whose entries are each two words with a snapshot line within the
-- parser's limit, serves any lines but SAVE. Then the reset drops them from the AOF: after an orderly end
-- and a restart, every key has the value that it had when the snapshot was written.
pub save_around_loses :
    (c d : ℕ → TimePoint) (base : Values) (s : Executor) (requests : List Request)
    → Journal base s.persistence.snapshot s
    → s.persistence.can_write_snapshot ≡ true
    → s.persistence.aof_writer.can_open ≡ true
    → All Storable (KvStore.entries s.store)
    → All Logged requests
    → (contents (save_around requests s).store ≡ contents (serve requests (begin_save s)).store)
      × (contents (recover c d (boot (shut_down (save_around requests s)))).store
          ≡ contents s.store)
unfolding save_around end_save shut_down lines_effect
save_around_loses c d base s requests j writable can_open storable logged =
    let served =
      serve-Journal base (some (save_snapshot s.store)) requests (begin_save s) logged
        (begin_save-Journal base s writable j) in
    let reopens =
      serve-can_reopen requests (begin_save s) logged ∙ (begin_save-can_reopen s ∙ can_open) in
    (
      refl,
      (recover-Has c d (contents s.store) [] (shut_down (save_around requests s)) served.logging
          (subst (Loads (contents s.store)) (sym served.kept)
            (Loads-save_snapshot s.store j.has.valid.stored storable))
          tt
          (reset-emptied (serve requests (begin_save s)).persistence.aof_writer reopens
            served.opened)).values,
    )
