-- ===== src/Server/Framing.antt =====
-- The lines that src/server_main.cpp writes to its clients, and the words in its store.
use tiny_kv_distributed_stor.Prelude.{
  ℕ, ◌≡◌, ◌≢◌, refl, Bool, true, false, ◌&&◌, List, [], ◌∷◌, All, arith, if_cases, ltb, length,
}
use tiny_kv_distributed_stor.Prelude.Text.{Text, codes}
use tiny_kv_distributed_stor.Storage.KvStore
use tiny_kv_distributed_stor.Storage.ExpiryManager.{TimePoint}
use tiny_kv_distributed_stor.Protocol.Command.{Command, is_write_command}
use tiny_kv_distributed_stor.Protocol.Reply
use tiny_kv_distributed_stor.Protocol.Parser.{
  ParseResult, parsed, protocol_error, parse, tokenize, command_of, max_line_length,
}
use tiny_kv_distributed_stor.Protocol.Parser.Tokens.{IsToken, tokenize-AreTokens}
use tiny_kv_distributed_stor.Recovery.Lines.{IsLine}
use tiny_kv_distributed_stor.Executor.{Executor, execute}
use tiny_kv_distributed_stor.Executor.Keeps.{IsValid, execute-Keeps}
use tiny_kv_distributed_stor.Executor.Words.{AreWords, literal-IsLine, error-IsLine}
use tiny_kv_distributed_stor.Executor.Words.Dispatch.{execute-Answers}
use tiny_kv_distributed_stor.Server.{
  Served, Outcome, skipped, replied, became_replica, succeeded, execute_and_record, start_sync,
  is_sync, is_replica, handle_command, handle_parsed, handle_line, apply_parsed, apply_replicated,
}

-- A valid server whose keys and values are words.
pub record IsClean (s : Executor) : Type 0 where
  pub valid : IsValid s
  pub words : AreWords (KvStore.entries s.store)

abbrev pub IsReply : Outcome → Type 0
IsReply skipped = ⊥
IsReply (replied reply) = IsLine reply
IsReply (became_replica dump) = ⊥

-- A command of words, or a message that is a line.
abbrev IsCleanResult : ParseResult → Type 0
IsCleanResult (parsed cmd) = IsToken cmd.name × All IsToken cmd.args
IsCleanResult (protocol_error message) = IsLine message

command_of-IsCleanResult : (ws : List Text) → All IsToken ws → IsCleanResult (command_of ws)
unfolding command_of
command_of-IsCleanResult [] h = literal-IsLine "empty command" refl
command_of-IsCleanResult (name ∷ args) h = (h.0, h.1)

parse-IsCleanResult : (line : Text) → IsCleanResult (parse line)
unfolding parse
parse-IsCleanResult line =
    if_cases IsCleanResult (ltb max_line_length (length line))
      (λ _. literal-IsLine "line too long (max 8192 bytes)" refl)
      (λ _. command_of-IsCleanResult (tokenize line) (tokenize-AreTokens line))

-- What a line that is too long gets: an error, and nothing else changes.
abbrev pub IsRefused : Bool → Executor → Served → Type 0
IsRefused true s r =
    (r.outcome ≡ replied (Reply.error (codes "line too long (max 8192 bytes)"))) × (r.state ≡ s)
IsRefused false s r = Unit

pub parse_too_long :
    (line : Text)
    → ltb max_line_length (length line) ≡ true
    → parse line ≡ protocol_error (codes "line too long (max 8192 bytes)")
unfolding parse
parse_too_long line e = rw (e, parse) refl

handle_parsed-IsRefused :
    (now : TimePoint) (fd : ℕ) (line : Text) (s : Executor) (b : Bool)
    → ltb max_line_length (length line) ≡ b
    → IsRefused b s (handle_parsed now fd (parse line) line s)
unfolding handle_parsed
handle_parsed-IsRefused now fd line s true e = rw (parse_too_long line e) (refl, refl)
handle_parsed-IsRefused now fd line s false e = tt

-- Whether a line turns its connection into a replica's.
abbrev pub syncs : ParseResult → Bool
syncs (parsed cmd) = is_sync cmd.type
syncs (protocol_error message) = false

module _ (s : Executor) (h : IsClean s) (now : TimePoint) where
  executed-IsClean :
      (cmd : Command) (line : Text)
      → IsToken cmd.name
      → All IsToken cmd.args
      → IsLine (execute_and_record now cmd line s).0 × IsClean (execute_and_record now cmd line s).2
  unfolding execute_and_record
  executed-IsClean cmd line n a =
      let (valid, _) = execute-Keeps now cmd s h.valid in
      let answers = execute-Answers now cmd s h.valid h.words n a in
      (
        answers.line,
        if_cases (λ (r : List (ℕ × Text) × Executor). IsClean r.1)
            (succeeded (execute now cmd s).0 && is_write_command cmd.type)
            (λ _. record {
              valid = record { stored = valid.stored; scheduled = valid.scheduled };
              words = answers.words;
            })
            (λ _. record { valid = valid; words = answers.words }),
      )

  handle_command-IsClean :
      (fd : ℕ) (cmd : Command) (line : Text)
      → IsToken cmd.name
      → All IsToken cmd.args
      → IsClean (handle_command now fd cmd line s).state
        × (is_sync cmd.type ≡ false → IsReply (handle_command now fd cmd line s).outcome)
  unfolding handle_command start_sync
  handle_command-IsClean fd cmd line n a =
      if_cases (λ (r : Served). IsClean r.state × (is_sync cmd.type ≡ false → IsReply r.outcome))
        (is_sync cmd.type)
        (λ syncing. (
          record {
            valid = record { stored = h.valid.stored; scheduled = h.valid.scheduled };
            words = h.words;
          },
          λ e. absurd (ground (arith, syncing, e)),
        ))
        (λ _.
          if_cases
            (λ (r : Served). IsClean r.state × (is_sync cmd.type ≡ false → IsReply r.outcome))
            (is_write_command cmd.type && is_replica s.replication.role) (λ _. (h, λ _. read_only))
            (λ _. ((executed-IsClean cmd line n a).1, λ _. (executed-IsClean cmd line n a).0)))
    where
      read_only : IsLine Reply.read_only_error
      read_only =
          unfold Reply.read_only_error in
          literal-IsLine "-READONLY You can't write against a replica." refl

  handle_parsed-IsClean :
      (fd : ℕ) (r : ParseResult) (line : Text)
      → IsCleanResult r
      → IsClean (handle_parsed now fd r line s).state
        × (syncs r ≡ false → IsReply (handle_parsed now fd r line s).outcome)
  unfolding handle_parsed
  handle_parsed-IsClean fd (parsed cmd) line c = handle_command-IsClean fd cmd line c.0 c.1
  handle_parsed-IsClean fd (protocol_error message) line c = (h, λ _. error-IsLine message c)

  apply_parsed-IsClean :
      (r : ParseResult) (line : Text) → IsCleanResult r → IsClean (apply_parsed now r line s).1
  unfolding apply_parsed
  apply_parsed-IsClean (parsed cmd) line c = (executed-IsClean cmd line c.0 c.1).1
  apply_parsed-IsClean (protocol_error message) line c = h

  pub apply_replicated-IsClean : (line : Text) → IsClean (apply_replicated now line s).1
  unfolding apply_replicated
  apply_replicated-IsClean line = apply_parsed-IsClean (parse line) line (parse-IsCleanResult line)

  pub handle_line-IsClean : (fd : ℕ) (line : Text) → IsClean (handle_line now fd line s).state
  unfolding handle_line
  handle_line-IsClean fd [] = h
  handle_line-IsClean fd (c ∷ line) =
      (handle_parsed-IsClean fd (parse (c ∷ line)) (c ∷ line) (parse-IsCleanResult (c ∷ line))).0

  -- A valid server that holds only words answers a line that is not empty and no SYNC with exactly one
  -- line. If the line has more than 8192 bytes, the answer is the error "line too long" and the server
  -- does not change.
  pub handle_line-IsReply :
      (fd : ℕ) (line : Text)
      → line ≢ []
      → syncs (parse line) ≡ false
      → IsReply (handle_line now fd line s).outcome
        × IsRefused (ltb max_line_length (length line)) s (handle_line now fd line s)
  unfolding handle_line
  handle_line-IsReply fd [] ne no_sync = absurd (ne refl)
  handle_line-IsReply fd (c ∷ line) ne no_sync = (
    (handle_parsed-IsClean fd (parse (c ∷ line)) (c ∷ line) (parse-IsCleanResult (c ∷ line))).1
        no_sync,
    handle_parsed-IsRefused now fd (c ∷ line) s _ refl,
  )
