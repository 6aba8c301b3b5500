-- ===== src/Sharding/Router/Wire/Silent.antt =====
-- What the calls of `Router::forward` (src/sharding/router.cpp) answer for a shard whose `TcpClient` has
-- a stuck line reader.
use mathlib.Core.Path.{subst}
use tiny_kv_distributed_stor.Prelude.{
  ◌<◌, ◌≤◌, ◌≡◌, refl, sym, ap, ◌∙◌, Bool, true, false, Option, none, some, List, [], ◌∷◌, ◌++◌,
  All, length, if◌then◌else◌, if_cases, inl, inr, Bool-cases,
}
use tiny_kv_distributed_stor.Prelude.Text.{Text, text_eq, text_eq_iff, text_eq_refl}
use tiny_kv_distributed_stor.Prelude.Dict.{find, insert, find-insert}
use tiny_kv_distributed_stor.Recovery.Lines.{IsLine}
use tiny_kv_distributed_stor.Net.LineProtocol.{max_line, read_line, write_line}
use tiny_kv_distributed_stor.Net.LineProtocol.Chunks.{joined}
use tiny_kv_distributed_stor.Net.TcpClient.{
  Socket, TcpClient, write_raw, send_line, send_on, receive_line, receive_on,
}
use tiny_kv_distributed_stor.Net.TcpClient.Writes.{incoming-write_raw, write_raw-fits}
use tiny_kv_distributed_stor.Sharding.Topology.{active_address_for, is_empty}
use tiny_kv_distributed_stor.Sharding.Health.Probe.{HostNetwork}
use tiny_kv_distributed_stor.Sharding.Router.Wire.{
  WireBackend, WireRouter, WireEvent, wire_for, wire_or_new, open_client, receive_after, ask_on,
  exchange_line, forward_line, run_wire,
}
use tiny_kv_distributed_stor.Sharding.Router.Wire.Forward.{used}
use tiny_kv_distributed_stor.Sharding.Router.Wire.Stuck.{
  IsStuck, Holds, exchange_line-Holds, buffer-wire_at, read_line-overlong, close_unless-Holds,
}

-- The shard's reader is stuck.
abbrev pub StuckAt : Text → WireRouter → Type 0
StuckAt shard_id r = IsStuck (wire_for shard_id r).client.buffer

wire_for-insert :
    (k shard_id : Text) (b : WireBackend) (r : WireRouter)
    → wire_for shard_id (record r { backends = insert k b r.backends })
      ≡ (if text_eq k shard_id then b else wire_for shard_id r)
unfolding wire_for
wire_for-insert k shard_id b r = elim (Bool-cases (text_eq k shard_id)) [
  | inl e ↦ rw e (
      ap wire_or_new (
        find-insert k shard_id b r.backends
        ∙ ap (λ t. if t then some b else find shard_id r.backends) e))
  | inr e ↦ rw e (
      ap wire_or_new (
        find-insert k shard_id b r.backends
        ∙ ap (λ t. if t then some b else find shard_id r.backends) e))
]

-- A call for any shard leaves a stuck reader stuck.
forward_line-StuckAt :
    (shard_id k line : Text) (network : HostNetwork) (r : WireRouter)
    → StuckAt shard_id r
    → StuckAt shard_id (forward_line k line network r).1
unfolding forward_line exchange_line
forward_line-StuckAt shard_id k line network r h =
    if_cases (λ (x : Option Text × WireRouter). StuckAt shard_id x.1)
      (is_empty (active_address_for k r.topology)) (λ _. h)
      (λ _. stuck_after (exchange_line network line (used k r)).1 same)
  where
    same : StuckAt k r → IsStuck (exchange_line network line (used k r)).1.client.buffer
    same held =
        (exchange_line-Holds network line (used k r) (
          subst IsStuck (sym (buffer-wire_at (active_address_for k r.topology) (wire_for k r)))
            held)).1

    stuck_after :
        (b : WireBackend)
        → (StuckAt k r → IsStuck b.client.buffer)
        → StuckAt shard_id (record r { backends = insert k b r.backends })
    stuck_after b held =
        subst (λ (x : WireBackend). IsStuck x.client.buffer) (sym (wire_for-insert k shard_id b r))
          (if_cases (λ (x : WireBackend). IsStuck x.client.buffer) (text_eq k shard_id)
            (λ e. held (subst (λ x. StuckAt x r) (sym ((text_eq_iff k shard_id).0 e)) h)) (λ _. h))

-- A call for the shard itself has no response.
forward_line-none :
    (shard_id line : Text) (network : HostNetwork) (r : WireRouter)
    → StuckAt shard_id r
    → (forward_line shard_id line network r).0 ≡ none
unfolding forward_line exchange_line
forward_line-none shard_id line network r h =
    if_cases (λ (x : Option Text × WireRouter). x.0 ≡ none)
      (is_empty (active_address_for shard_id r.topology)) (λ _. refl)
      (λ _.
        (exchange_line-Holds network line (used shard_id r) (
          subst IsStuck
            (sym (buffer-wire_at (active_address_for shard_id r.topology) (wire_for shard_id r)))
            h)).0)

-- The responses for one shard.
abbrev pub responses_to : Text → List (Text × Option Text) → List (Option Text)
responses_to shard_id [] = []
responses_to shard_id ((k, response) ∷ l) =
    let rest = responses_to shard_id l in if text_eq k shard_id then response ∷ rest else rest

run_wire-none :
    (shard_id : Text) (events : List WireEvent) (r : WireRouter)
    → StuckAt shard_id r
    → All (λ o. o ≡ none) (responses_to shard_id (run_wire events r))
unfolding run_wire
run_wire-none shard_id [] r h = tt
run_wire-none shard_id (WireEvent.failed_over topology ∷ events) r h =
    run_wire-none shard_id events (record r { topology = topology }) (unfold wire_for in h)
run_wire-none shard_id (WireEvent.forwarded k line network ∷ events) r h =
    let later =
      run_wire-none shard_id events (forward_line k line network r).1
        (forward_line-StuckAt shard_id k line network r h) in
    if_cases (All (λ (o : Option Text). o ≡ none)) (text_eq k shard_id)
      (λ e. (
        subst (λ x. (forward_line x line network r).0 ≡ none) (sym ((text_eq_iff k shard_id).0 e))
            (forward_line-none shard_id line network r h),
        later,
      ))
      (λ _. later)

forward_line-known :
    (shard_id line : Text) (network : HostNetwork) (r : WireRouter)
    → is_empty (active_address_for shard_id r.topology) ≡ false
    → forward_line shard_id line network r ≡ (
      (exchange_line network line (used shard_id r)).0,
      record r {
        backends = insert shard_id (exchange_line network line (used shard_id r)).1 r.backends;
      },
    )
unfolding forward_line
forward_line-known shard_id line network r known = rw (known, forward_line) refl

StuckAt-insert :
    (shard_id : Text) (b : WireBackend) (r : WireRouter)
    → IsStuck b.client.buffer
    → StuckAt shard_id (record r { backends = insert shard_id b r.backends })
StuckAt-insert shard_id b r held =
    subst (λ (x : WireBackend). IsStuck x.client.buffer)
      (sym (
        wire_for-insert shard_id shard_id b r
        ∙ ap (λ t. if t then b else wire_for shard_id r) (text_eq_refl shard_id)))
      held

-- The connected client that a call uses.
abbrev pub over_socket : Socket → Text → Bool × TcpClient
over_socket s buffer = (true, record { fd = some s; buffer = buffer })

module _ (line buffer : Text) (early late : List Text) (s : Socket)
    (arrives : s.incoming ≡ early ++ late) (no_newline : IsLine (buffer ++ joined early))
    (long : max_line < length (buffer ++ joined early))
    (takes : length (write_line line) ≤ s.room) where
  ask_on-overlong : Holds (ask_on line (over_socket s buffer))
  unfolding ask_on send_line send_on receive_line receive_on
  ask_on-overlong =
      let w = (write_raw (write_line line) s).1 in
      let sent = ap (λ p. p.0) (write_raw-fits (write_line line) s takes) in
      let same = incoming-write_raw (write_line line) s ∙ arrives in
      subst (λ b. Holds (receive_after (b, record { fd = some w; buffer = buffer }))) (sym sent)
        (close_unless-Holds (receive_on (some w) (record { fd = some w; buffer = buffer })) (
          subst (λ x. ((read_line buffer x).0 ≡ none) × IsStuck (read_line buffer x).1) (sym same)
            (read_line-overlong buffer early late no_newline long)))

  -- A call for a shard with an active address uses a connection that takes the line. If more than 8192
  -- bytes without a newline, buffered or in the first chunks, come before a chunk with one, neither
  -- this call nor any later one for the shard has a response, whatever the network does, calls for
  -- other shards come between, and the topology becomes: a new connection does not empty the reader.
  pub silent_for_ever :
      (shard_id : Text) (network : HostNetwork) (r : WireRouter) (events : List WireEvent)
      → is_empty (active_address_for shard_id r.topology) ≡ false
      → open_client network (used shard_id r).address (used shard_id r).client
        ≡ over_socket s buffer
      → All
          (λ o. o ≡ none)
          (responses_to shard_id (run_wire (WireEvent.forwarded shard_id line network ∷ events) r))
  unfolding run_wire
  silent_for_ever shard_id network r events known opened =
      let b = used shard_id r in
      let (nothing, held) = subst (λ o. Holds (ask_on line o)) (sym opened) ask_on-overlong in
      let call = forward_line-known shard_id line network r known in
      let now_stuck : StuckAt shard_id (forward_line shard_id line network r).1 =
        subst (λ x. StuckAt shard_id x.1) (sym call)
          (unfold exchange_line in
            StuckAt-insert shard_id (exchange_line network line b).1 r held) in
      let later =
        run_wire-none shard_id events (forward_line shard_id line network r).1 now_stuck in
      if_cases (All (λ (o : Option Text). o ≡ none)) (text_eq shard_id shard_id)
        (λ _. (ap (λ x. x.0) call ∙ (unfold exchange_line in nothing), later)) (λ _. later)
