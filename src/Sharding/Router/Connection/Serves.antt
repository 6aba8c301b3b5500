-- ===== src/Sharding/Router/Connection/Serves.antt =====
-- The lines that a connection of the router (src/sharding/router.cpp) delivers, and its replies.
use mathlib.Core.List.{append-nil, append_assoc}
use tiny_kv_distributed_stor.Prelude.{
  ℕ, zero, suc, ◌+◌, ◌≤◌, ◌<◌, ◌≡◌, refl, sym, ap, ◌∙◌, Option, none, some, List, [], ◌∷◌, ◌++◌,
  All, arith, length, length-append, inl, inr, Option-cases,
}
use tiny_kv_distributed_stor.Prelude.Text.{Text}
use tiny_kv_distributed_stor.Recovery.Lines.{IsLine, unlines, unlines-++}
use tiny_kv_distributed_stor.Net.LineProtocol.{max_line, strip_cr, read_line, write_line}
use tiny_kv_distributed_stor.Net.LineProtocol.Chunks.{joined, read_line-line, read_line-nothing}
use tiny_kv_distributed_stor.Net.TcpClient.Writes.{write_raw-fits}
use tiny_kv_distributed_stor.Sharding.Router.{Router, Network, route_line}
use tiny_kv_distributed_stor.Sharding.Router.Connection.{
  RouterConnection, after_read, routed_line, replied_to, route_connection,
}

abbrev reply_in : Option Text → List Text
reply_in none = []
reply_in (some reply) = reply ∷ []

-- The replies to lines that are routed one after the other, and the router after them.
abbrev pub route_replies : (ℕ → Network) → ℕ → List Text → Router → List Text
route_replies nets i [] r = []
route_replies nets i (line ∷ lines) r =
    reply_in (route_line (nets i) (strip_cr line) r).0
    ++ route_replies nets (suc i) lines (route_line (nets i) (strip_cr line) r).1

abbrev pub route_all : (ℕ → Network) → ℕ → List Text → Router → Router
route_all nets i [] r = r
route_all nets i (line ∷ lines) r =
    route_all nets (suc i) lines (route_line (nets i) (strip_cr line) r).1

-- What is left to do after one line: `u` is the connection then.
record Stepped (nets : ℕ → Network) (fuel i : ℕ) (line rest : Text) (c u : RouterConnection)
    : Type 0 where
  goes_on : route_connection nets (suc fuel) i c ≡ route_connection nets fuel (suc i) u
  router : u.router ≡ (route_line (nets i) line c.router).1
  sent : u.socket.sent ≡ c.socket.sent ++ unlines (reply_in (route_line (nets i) line c.router).0)
  left : u.buffer ++ joined u.socket.incoming ≡ rest
  room :
      length (unlines (reply_in (route_line (nets i) line c.router).0)) + u.socket.room
      ≡ c.socket.room

module _ (nets : ℕ → Network) (fuel i : ℕ) (line rest : Text) (c : RouterConnection)
    (is_read : (read_line c.buffer c.socket.incoming).0 ≡ some line)
    (left : (read_line c.buffer c.socket.incoming).1
        ++ joined (read_line c.buffer c.socket.incoming).2
      ≡ rest) where
  abbrev answer : Option Text
  answer = (route_line (nets i) line c.router).0

  Stepped-empty : answer ≡ none → (u : RouterConnection) × Stepped nets fuel i line rest c u
  unfolding routed_line after_read route_connection
  Stepped-empty q =
      let nothing = ap (λ o. unlines (reply_in o)) q in
      (
        routed_line (nets i) line c,
        record {
          goes_on = rw (is_read, q, route_connection) refl;
          router = refl;
          sent = sym (ap (λ t. c.socket.sent ++ t) nothing ∙ append-nil c.socket.sent);
          left = left;
          room = let no_bytes = ap length nothing in omega (arith, no_bytes);
        },
      )

  Stepped-reply :
      (reply : Text)
      → answer ≡ some reply
      → length (unlines (reply_in answer)) ≤ c.socket.room
      → (u : RouterConnection) × Stepped nets fuel i line rest c u
  unfolding routed_line after_read route_connection write_line
  Stepped-reply reply q takes =
      let one : unlines (reply_in answer) ≡ write_line reply =
        ap (λ o. unlines (reply_in o)) q ∙ append-nil _ in
      let size = ap length one in
      let t = routed_line (nets i) line c in
      let fits = write_raw-fits (write_line reply) t.socket (omega (arith, takes, size)) in
      let written = ap (λ p. p.0) fits in
      (
        replied_to reply t,
        record {
          goes_on = rw (is_read, q, written, route_connection) refl;
          router = refl;
          sent = ap (λ p. p.1.sent) fits ∙ ap (λ x. c.socket.sent ++ x) (sym one);
          left = ap (λ p. t.buffer ++ joined p.1.incoming) fits ∙ left;
          room = let after = ap (λ p. p.1.room) fits in omega (arith, after, takes, size);
        },
      )

  stepped :
      length (unlines (reply_in answer)) ≤ c.socket.room
      → (u : RouterConnection) × Stepped nets fuel i line rest c u
  stepped takes = elim (Option-cases answer) [
    | inl q ↦ Stepped-empty q
    | inr (reply, q) ↦ Stepped-reply reply q takes
  ]

-- A connection of the router that delivers lines of at most 8192 bytes, in whatever chunks, and that takes
-- the replies: given more fuel than there are lines, its handler returns, once the socket has no more
-- lines. The router is then as if the lines, each less a last carriage return, had been routed one after
-- the other, and the replies went out in order, each with its newline.
pub route_connection_serves :
    (nets : ℕ → Network) (lines : List Text) (fuel i : ℕ) (c : RouterConnection)
    → All IsLine lines
    → All (λ line. length line ≤ max_line) lines
    → c.buffer ++ joined c.socket.incoming ≡ unlines lines
    → length (unlines (route_replies nets i lines c.router)) ≤ c.socket.room
    → length lines < fuel
    → (d : RouterConnection) × (route_connection nets fuel i c ≡ some d)
      × (d.router ≡ route_all nets i lines c.router)
      × (d.socket.sent ≡ c.socket.sent ++ unlines (route_replies nets i lines c.router))
unfolding route_connection after_read
route_connection_serves nets lines zero i c are_lines fit arrive takes enough = absurd (omega arith)
route_connection_serves nets [] (suc fuel) i c are_lines fit arrive takes enough =
    let nothing = read_line-nothing c.buffer c.socket.incoming arrive in
    (after_read c, rw (nothing, route_connection) refl, refl, sym (append-nil c.socket.sent))
route_connection_serves nets (line ∷ lines) (suc fuel) i c are_lines fit arrive takes enough =
    let (read, left) =
      read_line-line line (unlines lines) c.buffer c.socket.incoming are_lines.0 fit.0
        (unfold write_line in arrive) in
    let r = route_line (nets i) (strip_cr line) c.router in
    let more = route_replies nets (suc i) lines r.1 in
    let sum : length (unlines (reply_in r.0 ++ more))
        ≡ length (unlines (reply_in r.0)) + length (unlines more) =
      ap length (unlines-++ (reply_in r.0) more)
      ∙ length-append (unlines (reply_in r.0)) (unlines more) in
    let (u, p) =
      stepped nets fuel i (strip_cr line) (unlines lines) c read left (omega (arith, takes, sum)) in
    let room = p.room in
    let same = ap (λ x. length (unlines (route_replies nets (suc i) lines x))) p.router in
    let (d, e, router, sent) =
      route_connection_serves nets lines fuel (suc i) u are_lines.1 fit.1 p.left
        (omega (arith, takes, sum, room, same)) (omega (arith, enough)) in
    (
      d,
      p.goes_on ∙ e,
      router ∙ ap (route_all nets (suc i) lines) p.router,
      sent
          ∙ (ap (λ x. u.socket.sent ++ unlines (route_replies nets (suc i) lines x)) p.router
              ∙ (ap (λ x. x ++ unlines more) p.sent
                  ∙ (append_assoc c.socket.sent (unlines (reply_in r.0)) (unlines more)
                      ∙ ap (λ t. c.socket.sent ++ t) (sym (unlines-++ (reply_in r.0) more))))),
    )
