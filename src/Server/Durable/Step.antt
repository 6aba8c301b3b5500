-- ===== src/Server/Durable/Step.antt =====
-- One request of src/server_main.cpp and the AOF: what the file's lines say of the stored values.
use mathlib.Core.List.{append_assoc}
use mathlib.Core.Path.{subst}
use tiny_kv_distributed_stor.Prelude.{
  ℕ, ◌&&◌, ◌≡◌, refl, sym, ap, ◌∙◌, Bool, true, false, Option, List, [], ◌∷◌, ◌++◌, inl, inr, arith,
  All, All-append, if_cases, Bool-cases,
}
use tiny_kv_distributed_stor.Prelude.Text.{Text}
use tiny_kv_distributed_stor.Storage.KvStore.Contents.{contents}
use tiny_kv_distributed_stor.Storage.ExpiryManager.{TimePoint}
use tiny_kv_distributed_stor.Protocol.Command.{Command, CommandType, is_write_command, is_save}
use tiny_kv_distributed_stor.Executor.Untouched.{execute-persistence}
use tiny_kv_distributed_stor.Protocol.Parser.{ParseResult, parsed, protocol_error, parse}
use tiny_kv_distributed_stor.Persistence.Files.{AofWriter, append, aof_content}
use tiny_kv_distributed_stor.Persistence.Manager.{PersistenceManager, record_write}
use tiny_kv_distributed_stor.Executor.{Executor, execute}
use tiny_kv_distributed_stor.Executor.Keeps.{execute-Keeps}
use tiny_kv_distributed_stor.Executor.Effect.{Values, effect, execute-effect}
use tiny_kv_distributed_stor.Executor.Errors.{is_error, execute-ErrorKeeps}
use tiny_kv_distributed_stor.Recovery.Lines.{IsLine, unlines, unlines-append}
use tiny_kv_distributed_stor.Recovery.Values.{
  Has, parsed_effect, line_effect, lines_effect, lines_effect-append,
}
use tiny_kv_distributed_stor.Server.{
  Request, Served, succeeded, execute_and_record, is_sync, is_replica, handle_command,
  handle_parsed, handle_line, serve,
}

-- The values of the snapshot and the lines of the AOF, flushed or not, give the stored values.
pub record Journal (base : Values) (snapshot : Option Text) (s : Executor) : Type 0 where
  pub lines : List Text
  pub has : Has (lines_effect lines base) s
  pub written : aof_content s.persistence.aof_writer ≡ unlines lines
  pub are_lines : All IsLine lines
  pub logging : s.persistence.append_only ≡ true
  pub opened : s.persistence.aof_writer.is_open ≡ true
  pub kept : s.persistence.snapshot ≡ snapshot

-- Only the registry, the role or the counters differ.
Journal-same :
    (base : Values) (snapshot : Option Text) (s t : Executor)
    → t.store ≡ s.store
    → t.expiry ≡ s.expiry
    → t.persistence ≡ s.persistence
    → Journal base snapshot s
    → Journal base snapshot t
Journal-same base snapshot s t p q r j = record {
  lines = j.lines;
  has = record {
    valid = record { stored = rw p j.has.valid.stored; scheduled = rw q j.has.valid.scheduled };
    unbounded = rw p j.has.unbounded;
    values = rw p j.has.values;
  };
  written = rw r j.written;
  are_lines = j.are_lines;
  logging = rw r j.logging;
  opened = rw r j.opened;
  kept = rw r j.kept;
}

-- A line that is recorded is one more line of the AOF.
append-content :
    (w : AofWriter) (line : Text) (lines : List Text)
    → w.is_open ≡ true
    → aof_content w ≡ unlines lines
    → (aof_content (append line w) ≡ unlines (lines ++ line ∷ []))
      × ((append line w).is_open ≡ true)
unfolding append
append-content w line lines opened e = rw opened (
  sym (append_assoc w.on_disk w.buffered (line ++ 10 ∷ []))
      ∙ (ap (λ t. t ++ (line ++ 10 ∷ [])) e ∙ sym (unlines-append lines line)),
  refl,
)

record_write-content :
    (p : PersistenceManager) (line : Text) (lines : List Text)
    → p.append_only ≡ true
    → p.aof_writer.is_open ≡ true
    → aof_content p.aof_writer ≡ unlines lines
    → (aof_content (record_write line p).aof_writer ≡ unlines (lines ++ line ∷ []))
      × ((record_write line p).append_only ≡ true)
      × ((record_write line p).aof_writer.is_open ≡ true)
      × ((record_write line p).snapshot ≡ p.snapshot)
unfolding record_write
record_write-content p line lines logging opened e =
    let (content, still_open) = append-content p.aof_writer line lines opened e in
    simp logging (content, refl, still_open, refl)

Has-files :
    (m : Values) (t : Executor) (p : PersistenceManager)
    → Has m t
    → Has m (record t { persistence = p })
Has-files m t p h = record {
  valid = record { stored = h.valid.stored; scheduled = h.valid.scheduled };
  unbounded = h.unbounded;
  values = h.values;
}

-- What is not a write command has no effect on the values.
pub effect-read :
    (t : CommandType) (args : List Text) (m : Values)
    → is_write_command t ≡ false
    → effect t args m ≡ m
unfolding is_write_command
effect-read CommandType.set args m h = cc
effect-read CommandType.del args m h = cc
effect-read CommandType.incr args m h = cc
effect-read CommandType.decr args m h = cc
effect-read _ args m h = refl

pub not-succeeded : (r : Text) → succeeded r ≡ false → is_error r ≡ true
not-succeeded [] h = refl
not-succeeded (c ∷ r) h = ground arith

module _ (base : Values) (snapshot : Option Text) (s : Executor) (j : Journal base snapshot s)
    (now : TimePoint) (cmd : Command) (line : Text) (no_save : is_save cmd.type ≡ false) where
  after : Executor
  after = (execute now cmd s).1

  files_kept : after.persistence ≡ s.persistence
  unfolding after
  files_kept = execute-persistence now cmd s no_save

  after-Has : Has (effect cmd.type cmd.args (lines_effect j.lines base)) after
  unfolding after
  after-Has =
      let (valid, cap) = execute-Keeps now cmd s j.has.valid in
      record {
        valid = valid;
        unbounded = cap ∙ j.has.unbounded;
        values =
            execute-effect now cmd s j.has.valid j.has.unbounded
            ∙ ap (effect cmd.type cmd.args) j.has.values;
      }

  -- A line that is not recorded has changed no value.
  unrecorded :
      (succeeded (execute now cmd s).0 && is_write_command cmd.type) ≡ false
      → effect cmd.type cmd.args (lines_effect j.lines base) ≡ lines_effect j.lines base
  unfolding after
  unrecorded e = elim (Bool-cases (is_write_command cmd.type)) [
    | inr read ↦ effect-read cmd.type cmd.args _ read
    | inl write ↦
        let failed = not-succeeded (execute now cmd s).0 (ground arith) in
        let d = execute-ErrorKeeps now cmd s j.has.valid failed in
        sym after-Has.values ∙ (ap contents d.store ∙ j.has.values)
  ]

  unrecorded-Journal :
      (succeeded (execute now cmd s).0 && is_write_command cmd.type) ≡ false
      → Journal base snapshot after
  unrecorded-Journal e = record {
    lines = j.lines;
    has = subst (λ m. Has m after) (unrecorded e) after-Has;
    written = rw files_kept j.written;
    are_lines = j.are_lines;
    logging = rw files_kept j.logging;
    opened = rw files_kept j.opened;
    kept = rw files_kept j.kept;
  }

  recorded-Journal :
      IsLine line
      → ((m : Values) → line_effect line m ≡ effect cmd.type cmd.args m)
      → Journal base snapshot (record after { persistence = record_write line after.persistence })
  recorded-Journal is_line same_effect =
      let (content, logging, opened, kept) =
        record_write-content after.persistence line j.lines (rw files_kept j.logging)
          (rw files_kept j.opened) (rw files_kept j.written) in
      let one_more : lines_effect (j.lines ++ line ∷ []) base
          ≡ effect cmd.type cmd.args (lines_effect j.lines base) =
        lines_effect-append j.lines (line ∷ []) base
        ∙ (unfold lines_effect in same_effect (lines_effect j.lines base)) in
      record {
        lines = j.lines ++ line ∷ [];
        has =
            subst (λ m. Has m (record after { persistence = record_write line after.persistence }))
              (sym one_more) (Has-files _ after (record_write line after.persistence) after-Has);
        written = content;
        are_lines = All-append _ j.lines (line ∷ []) j.are_lines (is_line, tt);
        logging = logging;
        opened = opened;
        kept = kept ∙ rw files_kept j.kept;
      }

  executed-Journal :
      IsLine line
      → ((m : Values) → line_effect line m ≡ effect cmd.type cmd.args m)
      → Journal base snapshot (execute_and_record now cmd line s).2
  unfolding execute_and_record after
  executed-Journal is_line same_effect =
      elim (Bool-cases (succeeded (execute now cmd s).0 && is_write_command cmd.type)) [
        | inl e ↦ rw e (recorded-Journal is_line same_effect)
        | inr e ↦ rw e (unrecorded-Journal e)
      ]

-- A request line of the protocol that is not SAVE.
abbrev pub saves : ParseResult → Bool
saves (parsed cmd) = is_save cmd.type
saves (protocol_error message) = false

abbrev pub Logged : Request → Type 0
Logged r = IsLine r.line × (saves (parse r.line) ≡ false)

module _ (base : Values) (snapshot : Option Text) (s : Executor) (j : Journal base snapshot s)
    (now : TimePoint) (fd : ℕ) where
  handle_command-Journal :
      (cmd : Command) (line : Text)
      → IsLine line
      → is_save cmd.type ≡ false
      → ((m : Values) → line_effect line m ≡ effect cmd.type cmd.args m)
      → Journal base snapshot (handle_command now fd cmd line s).state
  unfolding handle_command
  handle_command-Journal cmd line is_line no_save same_effect =
      if_cases (λ (r : Served). Journal base snapshot r.state) (is_sync cmd.type)
        (λ _. Journal-same base snapshot s _ refl refl refl j)
        (λ _.
          if_cases (λ (r : Served). Journal base snapshot r.state)
            (is_write_command cmd.type && is_replica s.replication.role) (λ _. j)
            (λ _. executed-Journal base snapshot s j now cmd line no_save is_line same_effect))

  handle_parsed-Journal :
      (r : ParseResult) (line : Text)
      → IsLine line
      → saves r ≡ false
      → ((m : Values) → line_effect line m ≡ parsed_effect r m)
      → Journal base snapshot (handle_parsed now fd r line s).state
  unfolding handle_parsed
  handle_parsed-Journal (parsed cmd) line is_line no_save same_effect =
      handle_command-Journal cmd line is_line no_save same_effect
  handle_parsed-Journal (protocol_error message) line is_line no_save same_effect = j

  handle_line-Journal :
      (line : Text)
      → IsLine line
      → saves (parse line) ≡ false
      → Journal base snapshot (handle_line now fd line s).state
  unfolding handle_line line_effect
  handle_line-Journal [] is_line no_save = j
  handle_line-Journal (c ∷ line) is_line no_save =
      handle_parsed-Journal (parse (c ∷ line)) (c ∷ line) is_line no_save (λ m. refl)

-- Whatever is served, other than SAVE, the AOF keeps up with the stored values.
pub serve-Journal :
    (base : Values) (snapshot : Option Text) (requests : List Request) (s : Executor)
    → All Logged requests
    → Journal base snapshot s
    → Journal base snapshot (serve requests s)
unfolding serve
serve-Journal base snapshot [] s h j = j
serve-Journal base snapshot (r ∷ requests) s h j =
    serve-Journal base snapshot requests _ h.1
      (handle_line-Journal base snapshot s j r.now r.fd r.line h.0.0 h.0.1)
