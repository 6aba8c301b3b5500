-- ===== src/Server/Link/Overlap.antt =====
-- A SYNC that comes between the two halves of a write: `execute` and `recordAndPropagateIfWrite` are
-- two calls of src/server_main.cpp, and no lock is held from one to the other.
use tiny_kv_distributed_stor.Prelude.{
  ℕ, ◌≡◌, refl, sym, ap, ◌∙◌, true, ◌&&◌, List, [], ◌∷◌, ◌++◌, All,
}
use tiny_kv_distributed_stor.Prelude.Text.{Text}
use tiny_kv_distributed_stor.Storage.KvStore.{entries}
use tiny_kv_distributed_stor.Storage.KvStore.Contents.{contents}
use tiny_kv_distributed_stor.Storage.ExpiryManager.{TimePoint}
use tiny_kv_distributed_stor.Protocol.Command.{Command, is_write_command}
use tiny_kv_distributed_stor.Protocol.Parser.{parsed, parse}
use tiny_kv_distributed_stor.Persistence.Files.{save_snapshot}
use tiny_kv_distributed_stor.Executor.{Executor, execute}
use tiny_kv_distributed_stor.Executor.Keeps.{IsValid, execute-Keeps}
use tiny_kv_distributed_stor.Executor.Effect.{execute-effect}
use tiny_kv_distributed_stor.Executor.Untouched.{execute-registry}
use tiny_kv_distributed_stor.Recovery.{get_lines}
use tiny_kv_distributed_stor.Recovery.Values.{
  Has, parsed_effect, line_effect, lines_effect, lines_effect-append,
}
use tiny_kv_distributed_stor.Recovery.Snapshot.{
  Storable, no_values, get_lines-save_snapshot, snapshot_effect_empty,
}
use tiny_kv_distributed_stor.Server.{succeeded, record_and_propagate_if_write, start_sync}
use tiny_kv_distributed_stor.Server.Link.{apply_lines, sent_to}
use tiny_kv_distributed_stor.Server.Link.Synced.{times_in, times_in-add_self, sent_to-propagate}
use tiny_kv_distributed_stor.Server.Link.Converges.{apply_lines-Has, line_effect-parse}

-- The dump that the replica at the socket gets, the lines after it, and the primary at the end.
pub record Overlapped : Type 0 where
  pub dump : Text
  pub live : List Text
  pub primary : Executor

unfoldable pub overlapped : ℕ → TimePoint → Command → Text → Executor → Overlapped
unfolding start_sync record_and_propagate_if_write sent_to
overlapped fd now cmd line s =
    let (response, executed) = execute now cmd s in
    let synced = (start_sync fd executed).state in
    let (sent, recorded) = record_and_propagate_if_write cmd line response synced in
    record { dump = save_snapshot synced.store; live = sent_to fd sent; primary = recorded }

module _ (fd : ℕ) (now : TimePoint) (cmd : Command) (line : Text) (p : Executor)
    (wrote : (succeeded (execute now cmd p).0 && is_write_command cmd.type) ≡ true) where
  overlapped-store : (overlapped fd now cmd line p).primary.store ≡ (execute now cmd p).1.store
  unfolding overlapped record_and_propagate_if_write start_sync
  overlapped-store = rw wrote refl

  overlapped-live :
      times_in fd p.replication.registry ≡ 0 → (overlapped fd now cmd line p).live ≡ line ∷ []
  unfolding overlapped record_and_propagate_if_write start_sync
  overlapped-live absent = rw wrote (
      sent_to-propagate fd line _ (
        times_in-add_self fd (execute now cmd p).1.replication.registry
          (ap (times_in fd) (execute-registry now cmd p) ∙ absent)))

  overlapped-dump : (overlapped fd now cmd line p).dump ≡ save_snapshot (execute now cmd p).1.store
  unfolding overlapped start_sync
  overlapped-dump = refl

-- A write that a valid primary without a capacity limit has executed, whose replica registers and gets
-- its dump before the write is sent on: if the entries can be dumped and the replica was empty, the
-- primary has applied the line once, and the replica, after the dump and the line, has applied it twice.
pub overlapped_twice :
    (clock : ℕ → TimePoint) (i fd : ℕ) (now : TimePoint) (cmd : Command) (line : Text)
    (p r : Executor)
    → IsValid p
    → p.store.capacity ≡ 0
    → parse line ≡ parsed cmd
    → (succeeded (execute now cmd p).0 && is_write_command cmd.type) ≡ true
    → All Storable (entries (execute now cmd p).1.store)
    → times_in fd p.replication.registry ≡ 0
    → Has no_values r
    → (contents (overlapped fd now cmd line p).primary.store ≡ line_effect line (contents p.store))
      × (contents
            (apply_lines clock i
              (get_lines (overlapped fd now cmd line p).dump ++ (overlapped fd now cmd line p).live)
              r).store
          ≡ line_effect line (line_effect line (contents p.store)))
unfolding lines_effect
overlapped_twice clock i fd now cmd line p r v unbounded parses wrote storable absent fresh =
    let o = overlapped fd now cmd line p in
    let store = (execute now cmd p).1.store in
    let valid = (execute-Keeps now cmd p v).0 in
    let once : contents store ≡ line_effect line (contents p.store) =
      execute-effect now cmd p v unbounded
      ∙ sym (
          line_effect-parse line (contents p.store)
          ∙ ap (λ x. parsed_effect x (contents p.store)) parses) in
    let dumped : lines_effect (get_lines o.dump) no_values ≡ contents store =
      ap (λ d. lines_effect (get_lines d) no_values) (overlapped-dump fd now cmd line p wrote)
      ∙ (ap (λ l. lines_effect l no_values) (get_lines-save_snapshot store storable)
          ∙ snapshot_effect_empty store valid.stored storable) in
    (
      ap contents (overlapped-store fd now cmd line p wrote) ∙ once,
      (apply_lines-Has clock i (get_lines o.dump ++ o.live) no_values r fresh).values
          ∙ (lines_effect-append (get_lines o.dump) o.live no_values
              ∙ (ap (lines_effect o.live) (dumped ∙ once)
                  ∙ ap (λ l. lines_effect l (line_effect line (contents p.store)))
                      (overlapped-live fd now cmd line p wrote absent))),
    )
