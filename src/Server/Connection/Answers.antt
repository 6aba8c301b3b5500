-- ===== src/Server/Connection/Answers.antt =====
-- A connection's bytes under `handleConnection` (src/server_main.cpp): the lines that it delivers as
-- requests, and the lines that are written to it as replies.
use mathlib.Core.List.{append-nil, append_assoc}
use tiny_kv_distributed_stor.Prelude.{
  ℕ, zero, suc, ◌+◌, ◌≤◌, ◌<◌, ◌≡◌, refl, sym, ap, ◌∙◌, some, List, [], ◌∷◌, ◌++◌, All, arith,
  length, length-append,
}
use tiny_kv_distributed_stor.Prelude.Text.{Text}
use tiny_kv_distributed_stor.Storage.ExpiryManager.{TimePoint}
use tiny_kv_distributed_stor.Recovery.Lines.{IsLine, unlines, unlines-++}
use tiny_kv_distributed_stor.Net.LineProtocol.{max_line, strip_cr, write_line}
use tiny_kv_distributed_stor.Net.LineProtocol.Chunks.{joined, read_line-line, read_line-nothing}
use tiny_kv_distributed_stor.Server.{Request, handle_line, serve}
use tiny_kv_distributed_stor.Server.Connection.{Connection, after_last_line, handle_connection}
use tiny_kv_distributed_stor.Server.Connection.Serves.{
  reply_of, replies, propagated, requests_of, NoSync, Stepped, stepped, handle_connection-end,
}

-- What a connection's handler has done to these requests, from `c` to `d`.
record Answered (requests : List Request) (c d : Connection) : Type 0 where
  server : d.server ≡ serve requests c.server
  sent : d.socket.sent ≡ c.socket.sent ++ unlines (replies requests c.server)
  to_replicas : d.to_replicas ≡ c.to_replicas ++ propagated requests c.server

Answered-step :
    (clock : ℕ → TimePoint) (fd fuel i : ℕ) (line rest : Text) (requests : List Request)
    (c u d : Connection)
    → Stepped clock fd fuel i line rest c u
    → Answered requests u d
    → Answered (record { now = clock i; fd = fd; line = line } ∷ requests) c d
unfolding serve
Answered-step clock fd fuel i line rest requests c u d p a =
    let r = handle_line (clock i) fd line c.server in
    record {
      server = a.server ∙ ap (serve requests) p.server;
      sent =
          a.sent
          ∙ ((ap (λ x. x ++ unlines (replies requests u.server)) p.sent
                ∙ ap
                    (λ s.
                      (c.socket.sent ++ unlines (reply_of r.outcome))
                      ++ unlines (replies requests s))
                    p.server)
              ∙ (append_assoc c.socket.sent (unlines (reply_of r.outcome)) _
                  ∙ ap (λ t. c.socket.sent ++ t)
                      (sym (unlines-++ (reply_of r.outcome) (replies requests r.state)))));
      to_replicas =
          a.to_replicas
          ∙ ((ap (λ x. x ++ propagated requests u.server) p.to_replicas
                ∙ ap (λ s. (c.to_replicas ++ r.sent) ++ propagated requests s) p.server)
              ∙ append_assoc c.to_replicas r.sent (propagated requests r.state));
    }

module _ (clock : ℕ → TimePoint) (fd : ℕ) where
  answers :
      (lines : List Text) (fuel i : ℕ) (c : Connection)
      → All IsLine lines
      → All (λ line. length line ≤ max_line) lines
      → All NoSync lines
      → c.buffer ++ joined c.socket.incoming ≡ unlines lines
      → length (unlines (replies (requests_of clock fd i lines) c.server)) ≤ c.socket.room
      → length lines < fuel
      → (d : Connection) × (handle_connection clock fd fuel i c ≡ some d)
        × Answered (requests_of clock fd i lines) c d
  unfolding serve after_last_line
  answers lines zero i c are_lines fit no_sync arrive takes enough = absurd (omega arith)
  answers [] (suc fuel) i c are_lines fit no_sync arrive takes enough = (
    after_last_line c,
    handle_connection-end clock fd fuel i c (read_line-nothing c.buffer c.socket.incoming arrive),
    record {
      server = refl;
      sent = sym (append-nil c.socket.sent);
      to_replicas = sym (append-nil c.to_replicas);
    },
  )
  answers (line ∷ lines) (suc fuel) i c are_lines fit no_sync arrive takes enough =
      let (read, left) =
        read_line-line line (unlines lines) c.buffer c.socket.incoming are_lines.0 fit.0
          (unfold write_line in arrive) in
      let r = handle_line (clock i) fd (strip_cr line) c.server in
      let more = replies (requests_of clock fd (suc i) lines) r.state in
      let sum : length (unlines (reply_of r.outcome ++ more))
          ≡ length (unlines (reply_of r.outcome)) + length (unlines more) =
        ap length (unlines-++ (reply_of r.outcome) more)
        ∙ length-append (unlines (reply_of r.outcome)) (unlines more) in
      let (u, p) =
        stepped clock fd fuel i (strip_cr line) (unlines lines) c read left no_sync.0
          (omega (arith, takes, sum)) in
      let room = p.room in
      let same =
        ap (λ s. length (unlines (replies (requests_of clock fd (suc i) lines) s))) p.server in
      let (d, e, a) =
        answers lines fuel (suc i) u are_lines.1 fit.1 no_sync.1 p.left
          (omega (arith, takes, sum, room, same)) (omega (arith, enough)) in
      (
        d,
        p.goes_on ∙ e,
        Answered-step clock fd fuel i (strip_cr line) (unlines lines)
            (requests_of clock fd (suc i) lines) c u d p a,
      )

  -- A connection that delivers lines of at most 8192 bytes, none of them a SYNC, in whatever chunks, and
  -- that takes the replies: given more fuel than there are lines, its handler returns, once the socket
  -- has no more lines. The server is then as if the lines, each less a last carriage return, had been
  -- served one after the other, the replies went out in order, each with its newline, and the replicas
  -- were sent just the lines of those requests that propagate.
  pub connection_serves :
      (lines : List Text) (fuel i : ℕ) (c : Connection)
      → All IsLine lines
      → All (λ line. length line ≤ max_line) lines
      → All NoSync lines
      → c.buffer ++ joined c.socket.incoming ≡ unlines lines
      → length (unlines (replies (requests_of clock fd i lines) c.server)) ≤ c.socket.room
      → length lines < fuel
      → (d : Connection) × (handle_connection clock fd fuel i c ≡ some d)
        × (d.server ≡ serve (requests_of clock fd i lines) c.server)
        × (d.socket.sent
            ≡ c.socket.sent ++ unlines (replies (requests_of clock fd i lines) c.server))
        × (d.to_replicas ≡ c.to_replicas ++ propagated (requests_of clock fd i lines) c.server)
  connection_serves lines fuel i c are_lines fit no_sync arrive takes enough =
      let (d, e, a) = answers lines fuel i c are_lines fit no_sync arrive takes enough in
      (d, e, a.server, a.sent, a.to_replicas)
