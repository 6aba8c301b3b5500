-- ===== src/Sharding/Router/Wire/Called.antt =====
-- What a call of `Router::forward` (src/sharding/router.cpp) sends to its shard and gets from it, told
-- from the shard's socket alone.
use mathlib.Core.Path.{subst}
use tiny_kv_distributed_stor.Prelude.{
  ◌≡◌, refl, ap, ◌∙◌, Bool, true, false, Option, none, some, [], ◌∷◌, ◌++◌, leb, length,
  if◌then◌else◌, inl, inr, Bool-cases,
}
use tiny_kv_distributed_stor.Prelude.Text.{Text, text_eq, text_eq_iff, text_eq_refl}
use tiny_kv_distributed_stor.Prelude.Int.{ℤ}
use tiny_kv_distributed_stor.Prelude.Dict.{Dict, find, insert, find-insert}
use tiny_kv_distributed_stor.Net.LineProtocol.{read_line, write_line}
use tiny_kv_distributed_stor.Net.TcpClient.{
  Socket, TcpClient, connect, close, is_connected, write_raw, send_line, send_on, receive_line,
  receive_on,
}
use tiny_kv_distributed_stor.Sharding.Ring.{ConsistentHashRing}
use tiny_kv_distributed_stor.Sharding.Topology.{active_address_for, is_empty}
use tiny_kv_distributed_stor.Sharding.Health.Probe.{HostNetwork, split_address}
use tiny_kv_distributed_stor.Sharding.Router.{Network, forward}
use tiny_kv_distributed_stor.Sharding.Router.Wire.{
  WireBackend, WireRouter, wire_for, wire_or_new, wire_at, dial, open_client, close_unless,
  receive_after, ask_on, exchange_line, forward_line,
}
use tiny_kv_distributed_stor.Sharding.Router.Wire.Forward.{
  view_router, seen, seen_by, used, forward_line-seen,
}

-- The socket that is open to a shard's active address.
abbrev pub open_socket : Text → Option WireBackend → Option Socket
open_socket address none = none
open_socket address (some b) = if text_eq b.address address then b.client.fd else none

-- What the shard's line reader still holds, of whichever connection.
abbrev pub held : Option WireBackend → Text
held none = []
held (some b) = b.client.buffer

abbrev dialled_socket : HostNetwork → Option (Text × ℤ) → Option Socket
dialled_socket network none = none
dialled_socket network (some (host, port)) = network host port

-- The socket of a call: the open one, or what the network answers to a connect.
abbrev pub call_socket : HostNetwork → Text → Option Socket → Option Socket
call_socket network address none = dialled_socket network (split_address address)
call_socket network address (some s) = some s

abbrev pub is_there : Option Socket → Bool
is_there none = false
is_there (some s) = true

-- The next line that the shard sends, if the socket takes the whole of the client's line.
abbrev pub response_over : Text → Text → Option Socket → Option Text
response_over line buffer none = none
response_over line buffer (some s) =
    if leb (length (line ++ 10 ∷ [])) s.room then (read_line buffer s.incoming).0 else none

abbrev network_over : Text → Text → Option Socket → Network
network_over line buffer o = record { accepts = is_there o; response = response_over line buffer o }

abbrev pub socket_of : Text → HostNetwork → WireRouter → Option Socket
socket_of shard_id network r =
    let address = active_address_for shard_id r.topology in
    call_socket network address (open_socket address (find shard_id r.backends))

-- Whether a call has a socket, and the line that comes back on it.
abbrev pub called : Text → Text → HostNetwork → WireRouter → Network
called shard_id line network r =
    network_over line (held (find shard_id r.backends)) (socket_of shard_id network r)

abbrev sent_on : Option Socket → Text
sent_on none = []
sent_on (some s) = s.sent

abbrev pub socket_left : Option WireBackend → Option Socket
socket_left none = none
socket_left (some b) = b.client.fd

-- With a response, the bytes that went out before it are the line and its newline.
abbrev pub IsSent : Text → Option Socket → Option Text → Option Socket → Type 0
IsSent line o none left = Unit
IsSent line o (some response) left = sent_on left ≡ sent_on o ++ (line ++ 10 ∷ [])

abbrev client_on : Text → Option Socket → TcpClient
client_on buffer o = record { fd = o; buffer = buffer }

connect-client_on :
    (buffer : Text) (o : Option Socket)
    → connect o (client_on buffer none) ≡ (is_there o, client_on buffer o)
unfolding connect
connect-client_on buffer none = refl
connect-client_on buffer (some s) = refl

dial-client_on :
    (network : HostNetwork) (at : Option (Text × ℤ)) (buffer : Text)
    → dial network at (client_on buffer none)
      ≡ (is_there (dialled_socket network at), client_on buffer (dialled_socket network at))
unfolding dial
dial-client_on network none buffer = refl
dial-client_on network (some (host, port)) buffer = connect-client_on buffer (network host port)

open_client-client_on :
    (network : HostNetwork) (address buffer : Text) (o : Option Socket)
    → open_client network address (client_on buffer o)
      ≡ (is_there (call_socket network address o), client_on buffer (call_socket network address o))
unfolding open_client is_connected
open_client-client_on network address buffer none =
    dial-client_on network (split_address address) buffer
open_client-client_on network address buffer (some s) = refl

received-IsSent :
    (line buffer : Text) (s : Socket) (before : Text)
    → s.sent ≡ before ++ (line ++ 10 ∷ [])
    → ((receive_after (true, client_on buffer (some s))).0 ≡ (read_line buffer s.incoming).0)
      × IsSent line
          (some (record s { sent = before }))
          (receive_after (true, client_on buffer (some s))).0
          (receive_after (true, client_on buffer (some s))).1.fd
unfolding receive_line receive_on
received-IsSent line buffer s before sent = of_line (read_line buffer s.incoming).0 _ _ sent
  where
    of_line :
        (o : Option Text) (rest : Text) (left : Socket)
        → left.sent ≡ before ++ (line ++ 10 ∷ [])
        → ((close_unless (o, client_on rest (some left))).0 ≡ o)
          × IsSent line
              (some (record s { sent = before }))
              (close_unless (o, client_on rest (some left))).0
              (close_unless (o, client_on rest (some left))).1.fd
    of_line none rest left e = (refl, tt)
    of_line (some response) rest left e = (refl, e)

ask_on-client_on :
    (line buffer : Text) (o : Option Socket)
    → ((ask_on line (true, client_on buffer o)).0 ≡ response_over line buffer o)
      × IsSent line o
          (ask_on line (true, client_on buffer o)).0
          (ask_on line (true, client_on buffer o)).1.fd
unfolding ask_on send_line send_on write_raw write_line
ask_on-client_on line buffer none = (refl, tt)
ask_on-client_on line buffer (some s) = elim (Bool-cases (leb (length (line ++ 10 ∷ [])) s.room)) [
  | inl e ↦ rw e (received-IsSent line buffer _ s.sent refl)
  | inr e ↦ rw e (refl, tt)
]

find_inserted : (k : Text) (b : WireBackend) (d : Dict WireBackend) → find k (insert k b d) ≡ some b
find_inserted k b d =
    find-insert k k b d ∙ ap (λ same. if same then some b else find k d) (text_eq_refl k)

asked-IsSent :
    (line buffer : Text) (o : Option Socket)
    → IsSent line o
        (ask_on line (is_there o, client_on buffer o)).0
        (ask_on line (is_there o, client_on buffer o)).1.fd
unfolding ask_on
asked-IsSent line buffer none = tt
asked-IsSent line buffer (some s) = (ask_on-client_on line buffer (some s)).1

abbrev backend_on : Text → Option WireBackend → WireBackend
backend_on address o = record {
  address = address;
  client = client_on (held o) (open_socket address o);
}

used_on :
    (address : Text) (o : Option WireBackend)
    → wire_at address (wire_or_new o) ≡ backend_on address o
unfolding wire_at close
used_on address none = elim (Bool-cases (text_eq [] address)) [
  | inl e ↦
      rw (e, wire_at)
        (ap (λ a. record { address = a; client = client_on [] none })
          ((text_eq_iff [] address).0 e))
  | inr e ↦ rw (e, wire_at) refl
]
used_on address (some b) = elim (Bool-cases (text_eq b.address address)) [
  | inl e ↦
      rw (e, wire_at) (ap (λ a. record b { address = a }) ((text_eq_iff b.address address).0 e))
  | inr e ↦ rw (e, wire_at) refl
]

opened_on :
    (shard_id : Text) (network : HostNetwork) (r : WireRouter)
    → open_client network (used shard_id r).address (used shard_id r).client ≡ (
      is_there (socket_of shard_id network r),
      client_on (held (find shard_id r.backends)) (socket_of shard_id network r),
    )
unfolding wire_for
opened_on shard_id network r =
    let address = active_address_for shard_id r.topology in
    let o = find shard_id r.backends in
    ap (λ (b : WireBackend). open_client network b.address b.client) (used_on address o)
    ∙ open_client-client_on network address (held o) (open_socket address o)

seen_by-eq-called :
    (shard_id line : Text) (network : HostNetwork) (r : WireRouter)
    → seen_by shard_id line network r ≡ called shard_id line network r
seen_by-eq-called shard_id line network r =
    let o = socket_of shard_id network r in
    ap (seen line) (opened_on shard_id network r)
    ∙ ap (λ response. record { accepts = is_there o; response = response })
        (ask_on-client_on line (held (find shard_id r.backends)) o).0

forward_line-IsSent :
    (shard_id line : Text) (network : HostNetwork) (r : WireRouter)
    → IsSent line
        (socket_of shard_id network r)
        (forward_line shard_id line network r).0
        (socket_left (find shard_id (forward_line shard_id line network r).1.backends))
unfolding forward_line exchange_line
forward_line-IsSent shard_id line network r =
    elim (Bool-cases (is_empty (active_address_for shard_id r.topology))) [
      | inl e ↦ rw (e, forward_line) tt
      | inr e ↦
          rw (e, forward_line, find_inserted shard_id _ r.backends, opened_on shard_id network r)
            (asked-IsSent line (held (find shard_id r.backends)) (socket_of shard_id network r))
    ]

-- A call answers as the `forward` that only knows which connections are open, when that is told whether
-- the call has a socket, and as the response the next line of that socket, after what the reader of the
-- shard still held, if the socket takes the whole line. The two leave the same addresses and open
-- connections behind. With a response, what was sent on the socket is the client's line and its newline.
pub forward_line_refines :
    (shard_id line : Text) (network : HostNetwork) (ring : ConsistentHashRing) (r : WireRouter)
    → ((forward_line shard_id line network r).0
        ≡ (forward shard_id (called shard_id line network r) (view_router ring r)).0)
      × (view_router ring (forward_line shard_id line network r).1
          ≡ (forward shard_id (called shard_id line network r) (view_router ring r)).1)
      × IsSent line
          (socket_of shard_id network r)
          (forward_line shard_id line network r).0
          (socket_left (find shard_id (forward_line shard_id line network r).1.backends))
forward_line_refines shard_id line network ring r =
    let (answers, leaves) =
      subst
        (λ net.
          ((forward_line shard_id line network r).0 ≡ (forward shard_id net (view_router ring r)).0)
          × (view_router ring (forward_line shard_id line network r).1
              ≡ (forward shard_id net (view_router ring r)).1))
        (seen_by-eq-called shard_id line network r)
        (forward_line-seen shard_id line network ring r) in
    (answers, leaves, forward_line-IsSent shard_id line network r)
