-- ===== src/Sharding/Router/Wire/Forward.antt =====
-- `Router::forward` (src/sharding/router.cpp) over its clients, and the `forward` that knows only which
-- connections are open.
use tiny_kv_distributed_stor.Prelude.{
  ◌≡◌, refl, sym, ap, ◌∙◌, Bool, true, false, ◌||◌, Option, none, some, [], ◌∷◌, arith, if_cases,
  inl, inr, Bool-cases,
}
use tiny_kv_distributed_stor.Prelude.Text.{Text, text_eq}
use tiny_kv_distributed_stor.Prelude.Int.{ℤ}
use tiny_kv_distributed_stor.Prelude.Dict.{Dict, find, insert}
use tiny_kv_distributed_stor.Net.TcpClient.{
  Socket, TcpClient, connect, close, is_connected, send_line, send_on, receive_line, receive_on,
}
use tiny_kv_distributed_stor.Sharding.Ring.{ConsistentHashRing}
use tiny_kv_distributed_stor.Sharding.Topology.{active_address_for, is_empty}
use tiny_kv_distributed_stor.Sharding.Health.Probe.{HostNetwork, split_address}
use tiny_kv_distributed_stor.Sharding.Router.{
  BackendConnection, Router, Network, backend_for, found_or_new, pointed_at, exchanged, exchange,
  forward,
}
use tiny_kv_distributed_stor.Sharding.Router.Backends.{is_some}
use tiny_kv_distributed_stor.Sharding.Router.Wire.{
  WireBackend, WireRouter, wire_for, wire_or_new, wire_at, dial, open_client, close_unless,
  receive_after, ask_on, with_client, exchange_line, forward_line,
}

abbrev pub view : WireBackend → BackendConnection
view b = record { address = b.address; connected = is_connected b.client }

abbrev pub view_all : Dict WireBackend → Dict BackendConnection
view_all [] = []
view_all ((k, b) ∷ d) = (k, view b) ∷ view_all d

abbrev pub view_router : ConsistentHashRing → WireRouter → Router
view_router ring r = record { topology = r.topology; ring = ring; backends = view_all r.backends }

abbrev pub viewed : Option Text × WireBackend → Option Text × BackendConnection
viewed (response, b) = (response, view b)

-- What the network does for a call, as the two questions of the `forward` without sockets.
abbrev pub seen : Text → Bool × TcpClient → Network
seen line o = record { accepts = o.0; response = (ask_on line (true, o.1)).0 }

Open : Bool × TcpClient → Type 0
Open o = is_connected o.1 ≡ o.0

connect-Open : (answer : Option Socket) (c : TcpClient) → Open (connect answer c)
unfolding Open connect is_connected
connect-Open none c = refl
connect-Open (some s) c = refl

dial-Open :
    (network : HostNetwork) (at : Option (Text × ℤ)) (c : TcpClient)
    → is_connected c ≡ false
    → Open (dial network at c)
unfolding Open dial
dial-Open network none c closed = closed
dial-Open network (some (host, port)) c closed = connect-Open (network host port) c

open_client-Open :
    (network : HostNetwork) (address : Text) (c : TcpClient)
    → Open (open_client network address c)
      × ((open_client network address c).0 ≡ false → is_connected c ≡ false)
unfolding Open open_client
open_client-Open network address c =
    if_cases (λ (o : Bool × TcpClient). Open o × (o.0 ≡ false → is_connected c ≡ false))
      (is_connected c) (λ e. (e, λ n. absurd (ground (arith, n))))
      (λ e. (dial-Open network (split_address address) c e, λ _. e))

Settled : Option Text × TcpClient → Type 0
Settled (response, c) = is_connected c ≡ is_some response

close_unless-Settled :
    (x : Option Text × TcpClient) → is_connected x.1 ≡ true → Settled (close_unless x)
unfolding Settled close is_connected
close_unless-Settled (none, c) h = refl
close_unless-Settled (some response, c) h = h

receive_on-connected :
    (o : Option Socket) (c : TcpClient)
    → elim o [ none ↦ false | some s ↦ true ] ≡ true
    → is_connected (receive_on o c).1 ≡ true
unfolding receive_on is_connected
receive_on-connected none c h = absurd (ground (arith, h))
receive_on-connected (some s) c h = refl

receive_after-Settled : (x : Bool × TcpClient) → is_connected x.1 ≡ true → Settled (receive_after x)
unfolding Settled close is_connected receive_line
receive_after-Settled (false, c) h = refl
receive_after-Settled (true, c) h =
    close_unless-Settled (receive_line c) (receive_on-connected c.fd c h)

send_on-connected :
    (line : Text) (o : Option Socket) (c : TcpClient)
    → elim o [ none ↦ false | some s ↦ true ] ≡ true
    → is_connected (send_on line o c).1 ≡ true
unfolding send_on is_connected
send_on-connected line none c h = absurd (ground (arith, h))
send_on-connected line (some s) c h = refl

ask_on-Settled :
    (line : Text) (c : TcpClient) → is_connected c ≡ true → Settled (ask_on line (true, c))
unfolding ask_on is_connected send_line
ask_on-Settled line c h = receive_after-Settled (send_line line c) (send_on-connected line c.fd c h)

exchanged-connected :
    (o : Option Text) (b : BackendConnection) (on : Bool)
    → on ≡ is_some o
    → exchanged o b ≡ (o, record b { connected = on })
exchanged-connected none b on e = ap (λ x. (none, record b { connected = x })) (sym e)
exchanged-connected (some response) b on e =
    ap (λ x. (some response, record b { connected = x })) (sym e)

or_true : (b : Bool) → (b || true) ≡ true
or_true b = ground arith

viewed-ask_on :
    (line : Text) (b : WireBackend) (o : Bool × TcpClient)
    → Open o
    → (o.0 ≡ false → is_connected b.client ≡ false)
    → viewed (with_client b (ask_on line o)) ≡ exchange (seen line o) (view b)
unfolding exchange Open ask_on
viewed-ask_on line b (false, c) opened closed =
    let shut = closed refl in rw (opened, shut, exchange) refl
viewed-ask_on line b (true, c) opened closed =
    let settled = ask_on-Settled line c opened in
    let any = or_true (is_connected b.client) in
    rw (any, exchange)
      (sym (
        exchanged-connected (receive_after (send_line line c)).0 (view b)
          (is_connected (receive_after (send_line line c)).1) (unfold Settled in settled)))

viewed-exchange_line :
    (network : HostNetwork) (line : Text) (b : WireBackend)
    → viewed (exchange_line network line b)
      ≡ exchange (seen line (open_client network b.address b.client)) (view b)
unfolding exchange_line
viewed-exchange_line network line b =
    let (opened, closed) = open_client-Open network b.address b.client in
    viewed-ask_on line b (open_client network b.address b.client) opened closed

abbrev view_option : Option WireBackend → Option BackendConnection
view_option none = none
view_option (some b) = some (view b)

find-view_all : (k : Text) (d : Dict WireBackend) → find k (view_all d) ≡ view_option (find k d)
unfolding find
find-view_all k [] = refl
find-view_all k ((j, b) ∷ d) = elim (Bool-cases (text_eq j k)) [
  | inl e ↦ rw (e, find) refl
  | inr e ↦ rw (e, find) (find-view_all k d)
]

view_all-insert :
    (k : Text) (b : WireBackend) (d : Dict WireBackend)
    → view_all (insert k b d) ≡ insert k (view b) (view_all d)
unfolding insert
view_all-insert k b [] = refl
view_all-insert k b ((j, a) ∷ d) = elim (Bool-cases (text_eq j k)) [
  | inl e ↦ rw (e, insert) refl
  | inr e ↦ rw (e, insert) (ap (λ l. (j, view a) ∷ l) (view_all-insert k b d))
]

view-wire_or_new : (o : Option WireBackend) → view (wire_or_new o) ≡ found_or_new (view_option o)
unfolding is_connected
view-wire_or_new none = refl
view-wire_or_new (some b) = refl

view-wire_for :
    (shard_id : Text) (ring : ConsistentHashRing) (r : WireRouter)
    → view (wire_for shard_id r) ≡ backend_for shard_id (view_router ring r)
unfolding wire_for backend_for
view-wire_for shard_id ring r =
    view-wire_or_new (find shard_id r.backends)
    ∙ ap found_or_new (sym (find-view_all shard_id r.backends))

view-wire_at :
    (address : Text) (b : WireBackend) → view (wire_at address b) ≡ pointed_at address (view b)
unfolding wire_at pointed_at close is_connected
view-wire_at address b = elim (Bool-cases (text_eq b.address address)) [
  | inl e ↦ rw (e, wire_at, pointed_at) refl
  | inr e ↦ rw (e, wire_at, pointed_at) refl
]

-- The connection that a call uses, pointed at its shard's active address.
abbrev pub used : Text → WireRouter → WireBackend
used shard_id r = wire_at (active_address_for shard_id r.topology) (wire_for shard_id r)

-- What the network does in a call, as `forward` asks for it.
abbrev pub seen_by : Text → Text → HostNetwork → WireRouter → Network
seen_by shard_id line network r =
    seen line (open_client network (used shard_id r).address (used shard_id r).client)

view-used :
    (shard_id : Text) (ring : ConsistentHashRing) (r : WireRouter)
    → view (used shard_id r)
      ≡ pointed_at
          (active_address_for shard_id r.topology)
          (backend_for shard_id (view_router ring r))
view-used shard_id ring r =
    view-wire_at (active_address_for shard_id r.topology) (wire_for shard_id r)
    ∙ ap (pointed_at (active_address_for shard_id r.topology)) (view-wire_for shard_id ring r)

-- A call, when the other `forward` is told what its own connection gives it.
pub forward_line-seen :
    (shard_id line : Text) (network : HostNetwork) (ring : ConsistentHashRing) (r : WireRouter)
    → ((forward_line shard_id line network r).0
        ≡ (forward shard_id (seen_by shard_id line network r) (view_router ring r)).0)
      × (view_router ring (forward_line shard_id line network r).1
          ≡ (forward shard_id (seen_by shard_id line network r) (view_router ring r)).1)
unfolding forward_line forward
forward_line-seen shard_id line network ring r =
    let net = seen_by shard_id line network r in
    let same =
      viewed-exchange_line network line (used shard_id r)
      ∙ ap (exchange net) (view-used shard_id ring r) in
    elim (Bool-cases (is_empty (active_address_for shard_id r.topology))) [
      | inl e ↦ rw (e, forward_line, forward) (refl, refl)
      | inr e ↦
          rw (e, forward_line, forward)
            (
              ap (λ x. x.0) same,
              ap (λ l. record { topology = r.topology; ring = ring; backends = l })
                  (view_all-insert shard_id _ r.backends
                    ∙ ap (λ x. insert shard_id x.1 (view_all r.backends)) same),
            )
    ]
