-- ===== src/Sharding/Router/Wire.antt =====
-- `Router::forward` (src/sharding/router.cpp) over its `TcpClient`s, where the network answers each
-- connect to a host and a port. The health checker may put another topology in place between two
-- calls.
pub mod Forward
pub mod Called
pub mod Stuck
pub mod Silent
use tiny_kv_distributed_stor.Prelude.{
  Bool, true, false, Option, none, some, List, [], ◌∷◌, if◌then◌else◌,
}
use tiny_kv_distributed_stor.Prelude.Text.{Text, text_eq}
use tiny_kv_distributed_stor.Prelude.Int.{ℤ}
use tiny_kv_distributed_stor.Prelude.Dict.{Dict, find, insert}
use tiny_kv_distributed_stor.Net.TcpClient.{
  TcpClient, new_client, connect, close, is_connected, send_line, receive_line,
}
use tiny_kv_distributed_stor.Sharding.Topology.{ShardTopology, active_address_for, is_empty}
use tiny_kv_distributed_stor.Sharding.Health.Probe.{HostNetwork, split_address}

pub record WireBackend : Type 0 where
  pub address : Text
  pub client : TcpClient

pub record WireRouter : Type 0 where
  pub topology : ShardTopology
  pub backends : Dict WireBackend

abbrev pub wire_or_new : Option WireBackend → WireBackend
wire_or_new none = record { address = []; client = new_client }
wire_or_new (some b) = b

unfoldable pub wire_for : Text → WireRouter → WireBackend
wire_for shard_id r = wire_or_new (find shard_id r.backends)

-- `if (backend.address != address)`
unfoldable pub wire_at : Text → WireBackend → WireBackend
unfolding close
wire_at address b =
    if text_eq b.address address then b else record { address = address; client = close b.client }

unfoldable pub dial : HostNetwork → Option (Text × ℤ) → TcpClient → Bool × TcpClient
unfolding connect
dial network none c = (false, c)
dial network (some (host, port)) c = connect (network host port) c

-- `if (!backend.client.isConnected())`
unfoldable pub open_client : HostNetwork → Text → TcpClient → Bool × TcpClient
unfolding is_connected dial split_address
open_client network address c =
    if is_connected c then (true, c) else dial network (split_address address) c

abbrev pub close_unless : Option Text × TcpClient → Option Text × TcpClient
close_unless (none, c) = (none, close c)
close_unless (some response, c) = (some response, c)

abbrev pub receive_after : Bool × TcpClient → Option Text × TcpClient
receive_after (false, c) = (none, close c)
receive_after (true, c) = close_unless (receive_line c)

-- The line is sent on an open connection, which a failure closes.
unfoldable pub ask_on : Text → Bool × TcpClient → Option Text × TcpClient
unfolding send_line
ask_on line (false, c) = (none, c)
ask_on line (true, c) = receive_after (send_line line c)

abbrev pub with_client : WireBackend → Option Text × TcpClient → Option Text × WireBackend
with_client b (response, c) = (response, record b { client = c })

unfoldable pub exchange_line : HostNetwork → Text → WireBackend → Option Text × WireBackend
unfolding open_client ask_on
exchange_line network line b = with_client b (ask_on line (open_client network b.address b.client))

unfoldable pub forward_line : Text → Text → HostNetwork → WireRouter → Option Text × WireRouter
unfolding wire_for wire_at exchange_line
forward_line shard_id line network r =
    let address = active_address_for shard_id r.topology in
    if is_empty address
    then (none, r)
    else (let (response, b) = exchange_line network line (wire_at address (wire_for shard_id r)) in
        (response, record r { backends = insert shard_id b r.backends }))

pub data WireEvent : Type 0 where
  forwarded : Text → Text → HostNetwork → WireEvent
  failed_over : ShardTopology → WireEvent

-- The shard and the response of each call.
unfoldable pub run_wire : List WireEvent → WireRouter → List (Text × Option Text)
unfolding forward_line
run_wire [] r = []
run_wire (WireEvent.forwarded shard_id line network ∷ events) r =
    (shard_id, (forward_line shard_id line network r).0)
    ∷ run_wire events (forward_line shard_id line network r).1
run_wire (WireEvent.failed_over topology ∷ events) r =
    run_wire events (record r { topology = topology })
