-- ===== src/Server/Conversation.antt =====
-- `tinykv-cli` (src/cli_main.cpp) in conversation with `tinykv-server` (src/server_main.cpp): what one
-- of them writes arrives at the other in chunks of any size.
use tiny_kv_distributed_stor.Prelude.{
  ℕ, false, suc, ◌≤◌, ◌<◌, ◌≡◌, ◌≢◌, refl, sym, ap, ◌∙◌, none, some, List, [], ◌∷◌, ◌++◌, map, All,
  All-append, arith, length, length-append,
}
use mathlib.Core.List.{append-nil}
use tiny_kv_distributed_stor.Prelude.Text.{Text}
use tiny_kv_distributed_stor.Protocol.Parser.{parse}
use tiny_kv_distributed_stor.Storage.ExpiryManager.{TimePoint}
use tiny_kv_distributed_stor.Recovery.Lines.{IsLine, unlines}
use tiny_kv_distributed_stor.Executor.{Executor}
use tiny_kv_distributed_stor.Net.LineProtocol.{max_line, strip_cr}
use tiny_kv_distributed_stor.Net.LineProtocol.Chunks.{joined}
use tiny_kv_distributed_stor.Net.TcpClient.{Socket}
use tiny_kv_distributed_stor.Server.{
  Request, Outcome, skipped, replied, became_replica, handle_line, serve,
}
use tiny_kv_distributed_stor.Server.Framing.{
  IsClean, IsReply, syncs, handle_line-IsClean, handle_line-IsReply,
}
use tiny_kv_distributed_stor.Server.Connection.{Connection, handle_connection}
use tiny_kv_distributed_stor.Server.Connection.Serves.{reply_of, replies, requests_of, NoSync}
use tiny_kv_distributed_stor.Server.Connection.Answers.{connection_serves}
use tiny_kv_distributed_stor.Startup.CliMain.{repl}
use tiny_kv_distributed_stor.Startup.CliMain.Replies.{commands, over, sent_on, repl_prints}

-- A line that is answered.
abbrev pub IsAsked : Text → Type 0
IsAsked line = (line ≢ []) × (syncs (parse line) ≡ false)

one_reply : (o : Outcome) → IsReply o → All IsLine (reply_of o) × (length (reply_of o) ≡ 1)
one_reply skipped h = absurd h
one_reply (replied reply) h = ((h, tt), refl)
one_reply (became_replica dump) h = absurd h

-- To every line that is asked of a clean server there is one reply, which is a line.
replies-AreLines :
    (requests : List Request) (s : Executor)
    → IsClean s
    → All (λ r. IsAsked r.line) requests
    → All IsLine (replies requests s) × (length (replies requests s) ≡ length requests)
replies-AreLines [] s h asked = (tt, refl)
replies-AreLines (r ∷ requests) s h asked =
    let served = handle_line r.now r.fd r.line s in
    let (line, one) =
      one_reply served.outcome (handle_line-IsReply s h r.now r.fd r.line asked.0.0 asked.0.1).0 in
    let (lines, same) =
      replies-AreLines requests served.state (handle_line-IsClean s h r.now r.fd r.line) asked.1 in
    let sum = length-append (reply_of served.outcome) (replies requests served.state) in
    (All-append _ (reply_of served.outcome) _ line lines, omega (arith, one, same, sum))

requests_of-AreAsked :
    (clock : ℕ → TimePoint) (fd i : ℕ) (lines : List Text)
    → All NoSync lines
    → All (λ line. strip_cr line ≢ []) lines
    → All (λ r. IsAsked r.line) (requests_of clock fd i lines)
      × (length (requests_of clock fd i lines) ≡ length lines)
requests_of-AreAsked clock fd i [] h ne = (tt, refl)
requests_of-AreAsked clock fd i (line ∷ lines) h ne =
    let (asked, same) = requests_of-AreAsked clock fd (suc i) lines h.1 ne.1 in
    (((ne.0, h.0), asked), omega (arith, same))

some_inj : (c d : Connection) → some c ≡ some d → c ≡ d
some_inj c d e = ap (λ o. elim o [ none ↦ c | some x ↦ x ]) e

-- A connection that was just accepted.
abbrev pub accepted : List Text → ℕ → Executor → Connection
accepted incoming room s = record {
  socket = record { incoming = incoming; sent = []; room = room };
  buffer = [];
  to_replicas = [];
  server = s;
}

abbrev pub dialled : List Text → ℕ → Socket
dialled incoming room = record { incoming = incoming; sent = []; room = room }

module _ (clock : ℕ → TimePoint) (fd : ℕ) (inputs : List Text) (s : Executor) where
  -- The requests in the lines that the client sends.
  abbrev pub asked : List Request
  asked = requests_of clock fd 0 (commands inputs)

  -- A client and a valid server that holds only words, on a connection that delivers to each of them,
  -- in whatever chunks, what the other one wrote, and that takes all that they write. If the client's
  -- commands (its input before a `quit` or `exit`, less empty lines) are lines of at most 8192 bytes,
  -- none a SYNC or just a carriage return, no reply is longer than 8192 bytes, and the handler has
  -- more fuel than there are commands, then the client prints one reply for each command, each less a
  -- last carriage return: those that serving the commands in order gives, which is also what the
  -- handler, once it has returned, did to the server.
  pub conversation :
      (fuel room room' : ℕ) (up down : List Text) (d : Connection)
      → IsClean s
      → All IsLine (commands inputs)
      → All (λ line. length line ≤ max_line) (commands inputs)
      → All NoSync (commands inputs)
      → All (λ line. strip_cr line ≢ []) (commands inputs)
      → All (λ reply. length reply ≤ max_line) (replies asked s)
      → length (unlines (replies asked s)) ≤ room
      → length (unlines (commands inputs)) ≤ room'
      → length (commands inputs) < fuel
      → joined up ≡ unlines (commands inputs)
      → handle_connection clock fd fuel 0 (accepted up room s) ≡ some d
      → joined down ≡ d.socket.sent
      → ((repl inputs (over (dialled down room') [])).printed ≡ map strip_cr (replies asked s))
        × (sent_on (repl inputs (over (dialled down room') [])).client.fd ≡ joined up)
        × (length (replies asked s) ≡ length (commands inputs))
        × (d.server ≡ serve asked s)
  conversation fuel room room' up down d h are_lines fit no_sync ne short takes takes' enough
        arrives handled returns =
      let (d', e, server, sent, _) =
        connection_serves clock fd (commands inputs) fuel 0 (accepted up room s) are_lines fit
          no_sync arrives takes enough in
      let same : d' ≡ d = some_inj d' d (sym e ∙ handled) in
      let (each, counted) = requests_of-AreAsked clock fd 0 (commands inputs) no_sync ne in
      let (lines, one_each) = replies-AreLines asked s h each in
      let bytes : [] ++ joined down ≡ unlines (replies asked s) ++ [] =
        returns ∙ (ap (λ x. x.socket.sent) (sym same) ∙ (sent ∙ sym (append-nil _))) in
      let (printed, written) =
        repl_prints inputs (replies asked s) [] (dialled down room') [] (one_each ∙ counted) lines
          short bytes takes' in
      (printed, written ∙ sym arrives, one_each ∙ counted, ap (λ x. x.server) (sym same) ∙ server)
