-- ===== src/Server/Connection/Serves.antt =====
-- A connection's bytes under `handleConnection` (src/server_main.cpp): the lines that it delivers as
-- requests, and the lines that are written to it as replies.
use mathlib.Core.Path.{subst}
use mathlib.Core.List.{append-nil}
use tiny_kv_distributed_stor.Prelude.{
  ℕ, suc, ◌+◌, ◌≤◌, ◌≡◌, refl, sym, ap, ◌∙◌, true, false, ◌&&◌, none, some, List, [], ◌∷◌, ◌++◌,
  arith, if_cases, length, inl, inr,
}
use tiny_kv_distributed_stor.Prelude.Text.{Text}
use tiny_kv_distributed_stor.Protocol.Command.{is_write_command}
use tiny_kv_distributed_stor.Protocol.Parser.{ParseResult, parsed, protocol_error, parse}
use tiny_kv_distributed_stor.Storage.ExpiryManager.{TimePoint}
use tiny_kv_distributed_stor.Recovery.Lines.{unlines}
use tiny_kv_distributed_stor.Executor.{Executor}
use tiny_kv_distributed_stor.Net.LineProtocol.{strip_cr, read_line, write_line}
use tiny_kv_distributed_stor.Net.LineProtocol.Chunks.{joined}
use tiny_kv_distributed_stor.Net.TcpClient.{write_raw}
use tiny_kv_distributed_stor.Net.TcpClient.Writes.{write_raw-fits}
use tiny_kv_distributed_stor.Server.{
  Request, Served, Outcome, skipped, replied, became_replica, is_sync, is_replica, handle_command,
  handle_parsed, handle_line,
}
use tiny_kv_distributed_stor.Server.Framing.{syncs}
use tiny_kv_distributed_stor.Server.Connection.{
  Connection, served_line, after_last_line, written, handle_connection,
}
use tiny_kv_distributed_stor.Server.Connection.Ends.{Outcome-cases}

abbrev pub reply_of : Outcome → List Text
reply_of skipped = []
reply_of (replied reply) = reply ∷ []
reply_of (became_replica dump) = []

-- The replies to requests that are served one after the other.
abbrev pub replies : List Request → Executor → List Text
replies [] s = []
replies (r ∷ requests) s =
    reply_of (handle_line r.now r.fd r.line s).outcome
    ++ replies requests (handle_line r.now r.fd r.line s).state

-- The lines that replicas are sent meanwhile.
abbrev pub propagated : List Request → Executor → List (ℕ × Text)
propagated [] s = []
propagated (r ∷ requests) s =
    (handle_line r.now r.fd r.line s).sent
    ++ propagated requests (handle_line r.now r.fd r.line s).state

-- The requests in the lines of one connection.
abbrev pub requests_of : (ℕ → TimePoint) → ℕ → ℕ → List Text → List Request
requests_of clock fd i [] = []
requests_of clock fd i (line ∷ lines) =
    record { now = clock i; fd = fd; line = strip_cr line } ∷ requests_of clock fd (suc i) lines

abbrev pub NoSync : Text → Type 0
NoSync line = syncs (parse (strip_cr line)) ≡ false

abbrev IsNoDump : Outcome → Type 0
IsNoDump (became_replica dump) = ⊥
IsNoDump _ = Unit

handle_parsed-IsNoDump :
    (now : TimePoint) (fd : ℕ) (r : ParseResult) (line : Text) (s : Executor)
    → syncs r ≡ false
    → IsNoDump (handle_parsed now fd r line s).outcome
unfolding handle_parsed handle_command
handle_parsed-IsNoDump now fd (parsed cmd) line s e =
    if_cases (λ (r : Served). IsNoDump r.outcome) (is_sync cmd.type)
      (λ q. absurd (ground (arith, e, q)))
      (λ _.
        if_cases (λ (r : Served). IsNoDump r.outcome)
          (is_write_command cmd.type && is_replica s.replication.role) (λ _. tt) (λ _. tt))
handle_parsed-IsNoDump now fd (protocol_error message) line s e = tt

pub handle_line-IsNoDump :
    (now : TimePoint) (fd : ℕ) (line : Text) (s : Executor)
    → syncs (parse line) ≡ false
    → IsNoDump (handle_line now fd line s).outcome
unfolding handle_line
handle_line-IsNoDump now fd [] s e = tt
handle_line-IsNoDump now fd (c ∷ line) s e =
    handle_parsed-IsNoDump now fd (parse (c ∷ line)) (c ∷ line) s e

module _ (clock : ℕ → TimePoint) (fd fuel i : ℕ) (c : Connection) where
  pub handle_connection-end :
      (read_line c.buffer c.socket.incoming).0 ≡ none
      → handle_connection clock fd (suc fuel) i c ≡ some (after_last_line c)
  unfolding handle_connection
  handle_connection-end e = rw (e, handle_connection) refl

  handle_connection-skipped :
      (line : Text)
      → (read_line c.buffer c.socket.incoming).0 ≡ some line
      → (handle_line (clock i) fd line c.server).outcome ≡ skipped
      → handle_connection clock fd (suc fuel) i c
        ≡ handle_connection clock fd fuel (suc i) (served_line (clock i) fd line c)
  unfolding handle_connection
  handle_connection-skipped line e q = rw (e, q, handle_connection) refl

  handle_connection-replied :
      (line reply : Text)
      → (read_line c.buffer c.socket.incoming).0 ≡ some line
      → (handle_line (clock i) fd line c.server).outcome ≡ replied reply
      → (write_raw (write_line reply) (served_line (clock i) fd line c).socket).0 ≡ true
      → handle_connection clock fd (suc fuel) i c
        ≡ handle_connection clock fd fuel (suc i) (written reply (served_line (clock i) fd line c))
  unfolding handle_connection
  handle_connection-replied line reply e q w = rw (e, q, w, handle_connection) refl

-- What is left to do after one line: `u` is the connection then.
pub record Stepped (clock : ℕ → TimePoint) (fd fuel i : ℕ) (line rest : Text) (c u : Connection)
    : Type 0 where
  pub goes_on :
      handle_connection clock fd (suc fuel) i c ≡ handle_connection clock fd fuel (suc i) u
  pub server : u.server ≡ (handle_line (clock i) fd line c.server).state
  pub to_replicas : u.to_replicas ≡ c.to_replicas ++ (handle_line (clock i) fd line c.server).sent
  pub sent :
      u.socket.sent
      ≡ c.socket.sent ++ unlines (reply_of (handle_line (clock i) fd line c.server).outcome)
  pub left : u.buffer ++ joined u.socket.incoming ≡ rest
  pub room :
      length (unlines (reply_of (handle_line (clock i) fd line c.server).outcome)) + u.socket.room
      ≡ c.socket.room

module _ (clock : ℕ → TimePoint) (fd fuel i : ℕ) (line rest : Text) (c : Connection)
    (is_read : (read_line c.buffer c.socket.incoming).0 ≡ some line)
    (left : (read_line c.buffer c.socket.incoming).1
        ++ joined (read_line c.buffer c.socket.incoming).2
      ≡ rest) where
  abbrev outcome : Outcome
  outcome = (handle_line (clock i) fd line c.server).outcome

  Stepped-skipped : outcome ≡ skipped → (u : Connection) × Stepped clock fd fuel i line rest c u
  unfolding served_line
  Stepped-skipped q =
      let nothing = ap (λ o. unlines (reply_of o)) q in
      (
        served_line (clock i) fd line c,
        record {
          goes_on = handle_connection-skipped clock fd fuel i c line is_read q;
          server = refl;
          to_replicas = refl;
          sent = sym (ap (λ t. c.socket.sent ++ t) nothing ∙ append-nil c.socket.sent);
          left = left;
          room = let no_bytes = ap length nothing in omega (arith, no_bytes);
        },
      )

  Stepped-replied :
      (reply : Text)
      → outcome ≡ replied reply
      → length (unlines (reply_of outcome)) ≤ c.socket.room
      → (u : Connection) × Stepped clock fd fuel i line rest c u
  unfolding served_line write_line
  Stepped-replied reply q takes =
      let one : unlines (reply_of outcome) ≡ write_line reply =
        ap (λ o. unlines (reply_of o)) q ∙ append-nil _ in
      let size = ap length one in
      let t = served_line (clock i) fd line c in
      let fits = write_raw-fits (write_line reply) t.socket (omega (arith, takes, size)) in
      (
        written reply t,
        record {
          goes_on =
              handle_connection-replied clock fd fuel i c line reply is_read q (ap (λ p. p.0) fits);
          server = refl;
          to_replicas = refl;
          sent = ap (λ p. p.1.sent) fits ∙ ap (λ x. c.socket.sent ++ x) (sym one);
          left = ap (λ p. t.buffer ++ joined p.1.incoming) fits ∙ left;
          room = let after = ap (λ p. p.1.room) fits in omega (arith, after, takes, size);
        },
      )

  pub stepped :
      syncs (parse line) ≡ false
      → length (unlines (reply_of outcome)) ≤ c.socket.room
      → (u : Connection) × Stepped clock fd fuel i line rest c u
  stepped no_sync takes = elim (Outcome-cases outcome) [
    | inl q ↦ Stepped-skipped q
    | inr (inl (reply, q)) ↦ Stepped-replied reply q takes
    | inr (inr (dump, q)) ↦
        absurd (subst IsNoDump q (handle_line-IsNoDump (clock i) fd line c.server no_sync))
  ]
