-- ===== src/Server/Connection/Ends.antt =====
-- The loops of `handleConnection` (src/server_main.cpp) and the bytes that a socket delivers.
use mathlib.Core.Path.{subst}
use tiny_kv_distributed_stor.Prelude.{
  ◌⊎◌, ℕ, zero, suc, ◌+◌, ◌<◌, ◌≡◌, refl, ap, Option, none, some, List, [], ◌∷◌, ◌++◌, if_cases,
  arith, ltb, ◌==◌, length, length-append, inl, inr, Bool-cases, Option-cases,
}
use tiny_kv_distributed_stor.Prelude.Text.{Text}
use tiny_kv_distributed_stor.Net.LineProtocol.{write_line, max_line, before, split_line, read_line}
use tiny_kv_distributed_stor.Net.LineProtocol.Chunks.{joined}
use tiny_kv_distributed_stor.Net.TcpClient.{Socket, write_raw}
use tiny_kv_distributed_stor.Net.TcpClient.Writes.{incoming-write_raw}
use tiny_kv_distributed_stor.Storage.ExpiryManager.{TimePoint}
use tiny_kv_distributed_stor.Server.{Outcome, skipped, replied, became_replica, handle_line}
use tiny_kv_distributed_stor.Server.Connection.{
  Connection, drain, disconnect, drained, stream, served_line, written, handle_connection,
  after_last_line,
}

-- The bytes that a reader has buffered or will still get.
abbrev pub unread : Text → List Text → ℕ
unread buffer chunks = length buffer + length (joined chunks)

abbrev Shorter : ℕ → Option (Text × Text) → Type 0
Shorter n none = Unit
Shorter n (some (line, rest)) = length rest < n

before-Shorter : (c n : ℕ) (o : Option (Text × Text)) → Shorter n o → Shorter (suc n) (before c o)
before-Shorter c n none h = tt
before-Shorter c n (some (line, rest)) h = omega arith

split_line-Shorter : (s : Text) → Shorter (length s) (split_line s)
unfolding split_line
split_line-Shorter [] = tt
split_line-Shorter (c ∷ s) = elim (Bool-cases (c == 10)) [
  | inl e ↦ rw (e, split_line) (omega arith)
  | inr e ↦ rw (e, split_line) (before-Shorter c (length s) (split_line s) (split_line-Shorter s))
]

-- A line that is read takes at least its newline.
abbrev Takes : ℕ → Option Text × Text × List Text → Type 0
Takes n (none, _, _) = Unit
Takes n (some line, buffer, chunks) = unread buffer chunks < n

found-Shorter : (s line rest : Text) → split_line s ≡ some (line, rest) → length rest < length s
found-Shorter s line rest e = subst (Shorter (length s)) e (split_line-Shorter s)

unread-chunk :
    (buffer chunk : Text) (chunks : List Text)
    → unread (buffer ++ chunk) chunks ≡ unread buffer (chunk ∷ chunks)
unread-chunk buffer chunk chunks =
    let a = length-append buffer chunk in
    let b = length-append chunk (joined chunks) in omega (arith, a, b)

read_line-Takes :
    (chunks : List Text) (buffer : Text) → Takes (unread buffer chunks) (read_line buffer chunks)
unfolding read_line
read_line-Takes [] buffer = elim (Option-cases (split_line buffer)) [
  | inl e ↦ rw (e, read_line) tt
  | inr ((line, rest), e) ↦
      let shorter = found-Shorter buffer line rest e in rw (e, read_line) (omega (arith, shorter))
]
read_line-Takes (chunk ∷ chunks) buffer = elim (Option-cases (split_line buffer)) [
  | inr ((line, rest), e) ↦
      let shorter = found-Shorter buffer line rest e in rw (e, read_line) (omega (arith, shorter))
  | inl e ↦
      rw (e, read_line)
        (if_cases (Takes (unread buffer (chunk ∷ chunks))) (ltb max_line (length buffer)) (λ _. tt)
          (λ _.
            subst (λ n. Takes n (read_line (buffer ++ chunk) chunks))
              (unread-chunk buffer chunk chunks) (read_line-Takes chunks (buffer ++ chunk))))
]

Takes-some :
    (n : ℕ) (r : Option Text × Text × List Text) (line : Text)
    → r.0 ≡ some line
    → Takes n r
    → unread r.1 r.2 < n
Takes-some n (none, buffer, chunks) line e h = absurd (ground (arith, e))
Takes-some n (some l, buffer, chunks) line e h = h

read_line_shortens :
    (buffer : Text) (chunks : List Text) (line : Text)
    → (read_line buffer chunks).0 ≡ some line
    → unread (read_line buffer chunks).1 (read_line buffer chunks).2 < unread buffer chunks
read_line_shortens buffer chunks line e =
    Takes-some (unread buffer chunks) (read_line buffer chunks) line e
      (read_line-Takes chunks buffer)

abbrev Returns {ℓ} : {A : Type ℓ} → Option A → Type ℓ
Returns {A = A} o = (a : A) × (o ≡ some a)

drain-Returns :
    (fuel : ℕ) (buffer : Text) (chunks : List Text)
    → unread buffer chunks < fuel
    → Returns (drain fuel buffer chunks)
unfolding drain
drain-Returns zero buffer chunks h = absurd (omega arith)
drain-Returns (suc fuel) buffer chunks h = elim (Option-cases (read_line buffer chunks).0) [
  | inl e ↦ rw (e, drain) ((read_line buffer chunks).2, refl)
  | inr (line, e) ↦
      let shorter = read_line_shortens buffer chunks line e in
      rw (e, drain)
        (drain-Returns fuel (read_line buffer chunks).1 (read_line buffer chunks).2
          (omega (arith, shorter)))
]

drained-Returns :
    (fd : ℕ) (socket : Socket) (c : Connection) (o : Option (List Text))
    → Returns o
    → Returns (drained fd socket c o)
drained-Returns fd socket c none (chunks, e) = absurd (ground (arith, e))
drained-Returns fd socket c (some chunks) h =
    (disconnect fd (record socket { incoming = chunks }) c, refl)

stream-Returns :
    (fd fuel : ℕ) (dump : Text) (c : Connection)
    → length (joined c.socket.incoming) < fuel
    → Returns (stream fd fuel dump c)
unfolding stream
stream-Returns fd fuel dump c h = elim (Bool-cases (write_raw dump c.socket).0) [
  | inl e ↦
      let same = ap (λ x. length (joined x)) (incoming-write_raw dump c.socket) in
      let enough : unread [] (write_raw dump c.socket).1.incoming < fuel = omega (arith, same, h) in
      rw (e, stream)
        (drained-Returns fd (write_raw dump c.socket).1 c _
          (drain-Returns fuel [] (write_raw dump c.socket).1.incoming enough))
  | inr e ↦ rw (e, stream) (disconnect fd (write_raw dump c.socket).1 c, refl)
]

pub Outcome-cases :
    (o : Outcome)
    → (o ≡ skipped)
      ⊎ (((reply : Text) × (o ≡ replied reply)) ⊎ ((dump : Text) × (o ≡ became_replica dump)))
Outcome-cases skipped = inl refl
Outcome-cases (replied reply) = inr (inl (reply, refl))
Outcome-cases (became_replica dump) = inr (inr (dump, refl))

-- With more fuel than there are bytes for the connection to read, its handler returns.
pub handle_connection_returns :
    (clock : ℕ → TimePoint) (fd fuel i : ℕ) (c : Connection)
    → unread c.buffer c.socket.incoming < fuel
    → (d : Connection) × (handle_connection clock fd fuel i c ≡ some d)
unfolding handle_connection served_line
handle_connection_returns clock fd zero i c h = absurd (omega arith)
handle_connection_returns clock fd (suc fuel) i c h =
    elim (Option-cases (read_line c.buffer c.socket.incoming).0) [
      | inl e ↦ rw (e, handle_connection) (after_last_line c, refl)
      | inr (line, e) ↦
          let shorter = read_line_shortens c.buffer c.socket.incoming line e in
          elim (Outcome-cases (handle_line (clock i) fd line c.server).outcome) [
            | inl q ↦
                rw (e, q, handle_connection)
                  (handle_connection_returns clock fd fuel (suc i) (served_line (clock i) fd line c)
                    (omega (arith, shorter)))
            | inr (inl (reply, q)) ↦
                let t = served_line (clock i) fd line c in
                elim (Bool-cases (write_raw (write_line reply) t.socket).0) [
                  | inl w ↦
                      let same =
                        ap (λ x. length (joined x))
                          (incoming-write_raw (write_line reply) t.socket) in
                      rw (e, q, w, handle_connection)
                        (handle_connection_returns clock fd fuel (suc i) (written reply t)
                          (omega (arith, shorter, same)))
                  | inr w ↦ rw (e, q, w, handle_connection) (written reply t, refl)
                ]
            | inr (inr (dump, q)) ↦
                rw (e, q, handle_connection)
                  (stream-Returns fd fuel dump (served_line (clock i) fd line c)
                    (omega (arith, shorter)))
          ]
    ]
