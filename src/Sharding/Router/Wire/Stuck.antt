-- ===== src/Sharding/Router/Wire/Stuck.antt =====
-- The line reader of a backend's `TcpClient` (src/net/tcp_client.cpp) under src/sharding/router.cpp: its
-- buffer outlives the connection that filled it.
use mathlib.Core.Path.{subst}
use mathlib.Core.List.{append-nil, append_assoc}
use tiny_kv_distributed_stor.Prelude.{
  ◌<◌, ◌≡◌, refl, sym, ap, Bool, true, false, Option, none, some, List, [], ◌∷◌, ◌++◌, arith, ltb,
  length, if_cases, inl, inr, Bool-cases,
}
use tiny_kv_distributed_stor.Prelude.Text.{Text, text_eq}
use tiny_kv_distributed_stor.Prelude.Int.{ℤ}
use tiny_kv_distributed_stor.Recovery.Lines.{IsLine}
use tiny_kv_distributed_stor.Net.LineProtocol.{max_line, before, split_line, read_line}
use tiny_kv_distributed_stor.Net.LineProtocol.Chunks.{joined}
use tiny_kv_distributed_stor.Net.TcpClient.{
  Socket, TcpClient, connect, close, is_connected, send_line, send_on, receive_line, receive_on,
}
use tiny_kv_distributed_stor.Sharding.Health.Probe.{HostNetwork, split_address}
use tiny_kv_distributed_stor.Sharding.Router.Wire.{
  WireBackend, wire_at, dial, open_client, close_unless, receive_after, ask_on, exchange_line,
}

-- More bytes than a line may have, and no newline.
abbrev pub IsStuck : Text → Type 0
IsStuck buffer = (split_line buffer ≡ none) × (ltb max_line (length buffer) ≡ true)

split_line-none : (s : Text) → IsLine s → split_line s ≡ none
unfolding split_line
split_line-none [] h = refl
split_line-none (c ∷ s) h = rw (h.0, split_line) (ap (before c) (split_line-none s h.1))

IsLine-left : (s t : Text) → IsLine (s ++ t) → IsLine s
IsLine-left [] t h = tt
IsLine-left (c ∷ s) t h = (h.0, IsLine-left s t h.1)

read_line-stuck :
    (buffer : Text) (chunks : List Text)
    → IsStuck buffer
    → (read_line buffer chunks).0 ≡ none × ((read_line buffer chunks).1 ≡ buffer)
unfolding read_line
read_line-stuck buffer [] (e, f) = rw (e, read_line) (refl, refl)
read_line-stuck buffer (chunk ∷ chunks) (e, f) = rw (e, f, read_line) (refl, refl)

stuck : (buffer : Text) → IsLine buffer → max_line < length buffer → IsStuck buffer
stuck buffer h long = (split_line-none buffer h, ground (arith, long))

-- Reading stops before the newline when too many bytes came without one.
pub read_line-overlong :
    (buffer : Text) (early late : List Text)
    → IsLine (buffer ++ joined early)
    → max_line < length (buffer ++ joined early)
    → ((read_line buffer (early ++ late)).0 ≡ none) × IsStuck (read_line buffer (early ++ late)).1
unfolding read_line
read_line-overlong buffer [] late h long =
    let held : IsStuck buffer = subst IsStuck (append-nil buffer) (stuck _ h long) in
    let (nothing, same) = read_line-stuck buffer late held in
    (nothing, subst IsStuck (sym same) held)
read_line-overlong buffer (chunk ∷ early) late h long =
    let e = split_line-none buffer (IsLine-left buffer (joined (chunk ∷ early)) h) in
    let same = sym (append_assoc buffer chunk (joined early)) in
    elim (Bool-cases (ltb max_line (length buffer))) [
      | inl f ↦ rw (e, f, read_line) (refl, (e, f))
      | inr f ↦
          rw (e, f, read_line)
            (read_line-overlong (buffer ++ chunk) early late (subst IsLine same h)
              (subst (λ t. max_line < length t) same long))
    ]

-- The client's reader is stuck, whatever it is connected to.
abbrev pub Holds : Option Text × TcpClient → Type 0
Holds (response, c) = (response ≡ none) × IsStuck c.buffer

buffer-close : (c : TcpClient) → (close c).buffer ≡ c.buffer
unfolding close
buffer-close c = refl

buffer-open_client :
    (network : HostNetwork) (address : Text) (c : TcpClient)
    → (open_client network address c).1.buffer ≡ c.buffer
unfolding open_client connect dial
buffer-open_client network address c =
    if_cases (λ (o : Bool × TcpClient). o.1.buffer ≡ c.buffer) (is_connected c) (λ _. refl)
      (λ _. buffer-dial (split_address address))
  where
    buffer-connect : (answer : Option Socket) → (connect answer c).1.buffer ≡ c.buffer
    buffer-connect none = refl
    buffer-connect (some s) = refl

    buffer-dial : (at : Option (Text × ℤ)) → (dial network at c).1.buffer ≡ c.buffer
    buffer-dial none = refl
    buffer-dial (some (host, port)) = buffer-connect (network host port)

buffer-send_on :
    (line : Text) (o : Option Socket) (c : TcpClient) → (send_on line o c).1.buffer ≡ c.buffer
unfolding send_on
buffer-send_on line none c = refl
buffer-send_on line (some s) c = refl

pub close_unless-Holds : (x : Option Text × TcpClient) → Holds x → Holds (close_unless x)
unfolding close
close_unless-Holds (none, c) h = h
close_unless-Holds (some response, c) h = h

receive_on-Holds : (o : Option Socket) (c : TcpClient) → IsStuck c.buffer → Holds (receive_on o c)
unfolding receive_on
receive_on-Holds none c h = (refl, h)
receive_on-Holds (some s) c h =
    let (nothing, same) = read_line-stuck c.buffer s.incoming h in
    (nothing, subst IsStuck (sym same) h)

receive_after-Holds : (x : Bool × TcpClient) → IsStuck x.1.buffer → Holds (receive_after x)
unfolding receive_line close
receive_after-Holds (false, c) h = (refl, h)
receive_after-Holds (true, c) h = close_unless-Holds (receive_on c.fd c) (receive_on-Holds c.fd c h)

pub ask_on-Holds : (line : Text) (o : Bool × TcpClient) → IsStuck o.1.buffer → Holds (ask_on line o)
unfolding ask_on send_line
ask_on-Holds line (false, c) h = (refl, h)
ask_on-Holds line (true, c) h =
    receive_after-Holds (send_on line c.fd c) (subst IsStuck (sym (buffer-send_on line c.fd c)) h)

pub exchange_line-Holds :
    (network : HostNetwork) (line : Text) (b : WireBackend)
    → IsStuck b.client.buffer
    → ((exchange_line network line b).0 ≡ none)
      × IsStuck (exchange_line network line b).1.client.buffer
unfolding exchange_line
exchange_line-Holds network line b h =
    ask_on-Holds line (open_client network b.address b.client)
      (subst IsStuck (sym (buffer-open_client network b.address b.client)) h)

pub buffer-wire_at :
    (address : Text) (b : WireBackend) → (wire_at address b).client.buffer ≡ b.client.buffer
unfolding wire_at close
buffer-wire_at address b =
    if_cases (λ (x : WireBackend). x.client.buffer ≡ b.client.buffer) (text_eq b.address address)
      (λ _. refl) (λ _. refl)
