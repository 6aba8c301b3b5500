-- ===== src/Server/Link/Converges.antt =====
-- A replica's stream (src/replication/replica_link.cpp) and the values of its primary.
use tiny_kv_distributed_stor.Prelude.{
  ℕ, suc, ◌≡◌, ◌≢◌, refl, sym, ap, ◌∙◌, List, [], ◌∷◌, ◌++◌, All, ◌&&◌, if_cases,
}
use mathlib.Core.Path.{subst}
use tiny_kv_distributed_stor.Prelude.Text.{Text}
use tiny_kv_distributed_stor.Storage.KvStore.{entries}
use tiny_kv_distributed_stor.Storage.KvStore.Contents.{contents}
use tiny_kv_distributed_stor.Storage.ExpiryManager.{TimePoint}
use tiny_kv_distributed_stor.Protocol.Command.{is_write_command}
use tiny_kv_distributed_stor.Protocol.Parser.{ParseResult, parsed, protocol_error, parse}
use tiny_kv_distributed_stor.Persistence.Files.{save_snapshot}
use tiny_kv_distributed_stor.Executor.{Executor, execute}
use tiny_kv_distributed_stor.Executor.Keeps.{IsValid, execute-Keeps}
use tiny_kv_distributed_stor.Executor.Effect.{Values, effect, execute-effect}
use tiny_kv_distributed_stor.Recovery.{get_lines}
use tiny_kv_distributed_stor.Recovery.Values.{
  Has, parsed_effect, line_effect, lines_effect, lines_effect-append,
}
use tiny_kv_distributed_stor.Recovery.Snapshot.{
  Storable, no_values, or_before, get_lines-save_snapshot, snapshot_effect, snapshot_effect_empty,
}
use tiny_kv_distributed_stor.Server.{
  Request, succeeded, execute_and_record, start_sync, handle_line, apply_parsed, apply_replicated,
  serve,
}
use tiny_kv_distributed_stor.Server.Link.{apply_lines, served_lines, sent_to}
use tiny_kv_distributed_stor.Server.Link.Synced.{
  times_in, times_in-add_self, IsSource, handle_line-Streams,
}

empty_effect : (m : Values) → line_effect [] m ≡ parsed_effect (parse []) m
unfolding line_effect parse
empty_effect m = refl

pub line_effect-parse :
    (line : Text) (m : Values) → line_effect line m ≡ parsed_effect (parse line) m
unfolding line_effect
line_effect-parse [] m = empty_effect m
line_effect-parse (c ∷ line) m = refl

apply_parsed-Has :
    (now : TimePoint) (r : ParseResult) (line : Text) (m : Values) (s : Executor)
    → Has m s
    → Has (parsed_effect r m) (apply_parsed now r line s).1
unfolding apply_parsed execute_and_record
apply_parsed-Has now (parsed cmd) line m s h =
    let (valid, cap) = execute-Keeps now cmd s h.valid in
    let values =
      execute-effect now cmd s h.valid h.unbounded ∙ ap (effect cmd.type cmd.args) h.values in
    if_cases (λ (r : List (ℕ × Text) × Executor). Has (effect cmd.type cmd.args m) r.1)
      (succeeded (execute now cmd s).0 && is_write_command cmd.type)
      (λ _. record {
        valid = record { stored = valid.stored; scheduled = valid.scheduled };
        unbounded = cap ∙ h.unbounded;
        values = values;
      })
      (λ _. record { valid = valid; unbounded = cap ∙ h.unbounded; values = values })
apply_parsed-Has now (protocol_error message) line m s h = h

pub apply_lines-Has :
    (clock : ℕ → TimePoint) (i : ℕ) (lines : List Text) (m : Values) (s : Executor)
    → Has m s
    → Has (lines_effect lines m) (apply_lines clock i lines s)
unfolding apply_lines lines_effect
apply_lines-Has clock i [] m s h = h
apply_lines-Has clock i (line ∷ lines) m s h =
    apply_lines-Has clock (suc i) lines (line_effect line m) (apply_replicated (clock i) line s).1 (
      unfold apply_replicated in
      subst (λ v. Has v (apply_parsed (clock i) (parse line) line s).1)
        (sym (line_effect-parse line m)) (apply_parsed-Has (clock i) (parse line) line m s h))

served_effect :
    (fd : ℕ) (requests : List Request) (s : Executor)
    → IsSource fd s
    → All (λ q. q.fd ≢ fd) requests
    → contents (serve requests s).store
      ≡ lines_effect (served_lines fd requests s) (contents s.store)
unfolding serve served_lines
served_effect fd [] s src others = unfold lines_effect in refl
served_effect fd (q ∷ requests) s src others =
    let st = handle_line-Streams fd s src q.now q.fd q.line others.0 in
    served_effect fd requests (handle_line q.now q.fd q.line s).state st.source others.1
    ∙ (ap (lines_effect (served_lines fd requests (handle_line q.now q.fd q.line s).state))
          st.values
        ∙ sym (
            lines_effect-append (sent_to fd (handle_line q.now q.fd q.line s).sent)
              (served_lines fd requests (handle_line q.now q.fd q.line s).state)
              (contents s.store)))

-- A dump of a valid primary whose entries are each two words with a line within the parser's limit,
-- applied by a valid replica without a capacity limit: a key of the primary has the primary's value
-- there, and any other key keeps the value that the replica had before.
pub resync_overwrites :
    (clock : ℕ → TimePoint) (i : ℕ) (p r : Executor) (key : Text)
    → IsValid p
    → All Storable (entries p.store)
    → IsValid r
    → r.store.capacity ≡ 0
    → contents (apply_lines clock i (get_lines (save_snapshot p.store)) r).store key
      ≡ or_before (contents p.store key) (contents r.store key)
resync_overwrites clock i p r key v storable valid unbounded =
    let h : Has (contents r.store) r = record {
      valid = valid;
      unbounded = unbounded;
      values = refl;
    } in
    let lines = get_lines (save_snapshot p.store) in
    ap (λ (m : Values). m key) (apply_lines-Has clock i lines (contents r.store) r h).values
    ∙ (ap (λ l. lines_effect l (contents r.store) key) (get_lines-save_snapshot p.store storable)
        ∙ snapshot_effect p.store (contents r.store) key v.stored storable)

-- A valid replica without a capacity limit or values applies the dump of a valid primary without a
-- capacity limit, whose entries are each two words with a line within the parser's limit and where
-- the replica's socket is not registered yet, and then every line that the primary sends to that
-- socket while it serves requests of other sockets, and no key expires on either. At the end the
-- two have the same value for every key, whatever their clocks show.
pub sync_converges :
    (clock : ℕ → TimePoint) (i fd : ℕ) (p r : Executor) (requests : List Request)
    → IsValid p
    → p.store.capacity ≡ 0
    → All Storable (entries p.store)
    → times_in fd p.replication.registry ≡ 0
    → All (λ q. q.fd ≢ fd) requests
    → Has no_values r
    → contents
        (apply_lines clock i
          (get_lines (save_snapshot p.store) ++ served_lines fd requests (start_sync fd p).state)
          r).store
      ≡ contents (serve requests (start_sync fd p).state).store
sync_converges clock i fd p r requests v unbounded storable absent others fresh =
    let p' = (start_sync fd p).state in
    let dump = get_lines (save_snapshot p.store) in
    let live = served_lines fd requests p' in
    let dumped : lines_effect dump no_values ≡ contents p.store =
      ap (λ l. lines_effect l no_values) (get_lines-save_snapshot p.store storable)
      ∙ snapshot_effect_empty p.store v.stored storable in
    (apply_lines-Has clock i (dump ++ live) no_values r fresh).values
    ∙ (lines_effect-append dump live no_values
        ∙ (ap (lines_effect live) (dumped ∙ started)
            ∙ sym (served_effect fd requests p' source others)))
  where
    source : IsSource fd (start_sync fd p).state
    source =
        unfold start_sync in
        record {
          valid = record { stored = v.stored; scheduled = v.scheduled };
          unbounded = unbounded;
          registered = times_in-add_self fd p.replication.registry absent;
        }

    started : contents p.store ≡ contents (start_sync fd p).state.store
    started = unfold start_sync in refl
