-- ===== src/Sharding/Health/Probe.antt =====
-- How src/sharding/health_checker.cpp asks a node over the network: `splitAddress`, `pingNode` and the
-- `REPLICAOF NO ONE` of `checkShard`. A network answers a connect to a host and a port.
pub mod Answered
use tiny_kv_distributed_stor.Prelude.{
  ℕ, ◌≡◌, refl, Bool, true, false, Option, none, some, List, [], ◌∷◌, ◌==◌, if◌then◌else◌,
}
use tiny_kv_distributed_stor.Prelude.Text.{Text, codes, text_eq}
use tiny_kv_distributed_stor.Prelude.Int.{ℤ, pos}
use tiny_kv_distributed_stor.Prelude.Decimal.{stoi}
use tiny_kv_distributed_stor.Net.TcpClient.{
  Socket, TcpClient, new_client, connect, send_line, receive_line,
}
use tiny_kv_distributed_stor.Sharding.Topology.{ShardTopology, primary_address, replica_address}
use tiny_kv_distributed_stor.Sharding.Health.{Answers, check_shard}

abbrev pub HostNetwork : Type 0
HostNetwork = Text → ℤ → Option Socket

-- The last ':' of the rest, or this character.
abbrev pub or_here : ℕ → Text → Option (Text × Text) → Option (Text × Text)
or_here c s (some (host, port)) = some (c ∷ host, port)
or_here c s none = if c == 58 then some ([], s) else none

-- What stands before the last ':' and after it.
unfoldable pub split_last : Text → Option (Text × Text)
split_last [] = none
split_last (c ∷ s) = or_here c s (split_last s)

abbrev pub with_port : Text → Option ℤ → Option (Text × ℤ)
with_port host none = none
with_port host (some port) = some (host, port)

abbrev pub read_port : Option (Text × Text) → Option (Text × ℤ)
read_port none = none
read_port (some (host, port)) = with_port host (stoi port)

unfoldable pub split_address : Text → Option (Text × ℤ)
unfolding split_last
split_address address = read_port (split_last address)

abbrev pub is_ok : Option Text → Bool
is_ok none = false
is_ok (some response) = text_eq response (codes "+OK")

unfoldable pub receive_if : Bool × TcpClient → Option Text
unfolding receive_line
receive_if (true, c) = (receive_line c).0
receive_if (false, c) = none

unfoldable pub send_if : Text → Bool × TcpClient → Option Text
unfolding receive_if send_line
send_if line (true, c) = receive_if (send_line line c)
send_if line (false, c) = none

-- A fresh connection, the line, and whether the reply is +OK.
unfoldable pub asked : Text → HostNetwork → Option (Text × ℤ) → Bool
unfolding send_if connect
asked line network none = false
asked line network (some (host, port)) =
    is_ok (send_if line (connect (network host port) new_client))

unfoldable pub ping_node : HostNetwork → Text → Bool
unfolding asked split_address
ping_node network address = asked (codes "PING") network (split_address address)

unfoldable pub ask_promotion : HostNetwork → Text → Bool
unfolding asked split_address
ask_promotion network address = asked (codes "REPLICAOF NO ONE") network (split_address address)

-- What the network answers during a check: at each of the three connects it may answer differently.
unfoldable pub answers_over :
    HostNetwork → HostNetwork → HostNetwork → Text → ShardTopology → Answers
unfolding ping_node ask_promotion
answers_over first second third shard_id t = record {
  primary_up = ping_node first (primary_address shard_id t);
  replica_up = ping_node second (replica_address shard_id t);
  accepted = ask_promotion third (replica_address shard_id t);
}

-- The check of a shard, with its addresses from the topology, which no check changes.
unfoldable pub check_shard_over :
    ℕ → HostNetwork → HostNetwork → HostNetwork → Text → ShardTopology → ShardTopology
unfolding answers_over check_shard
check_shard_over max_missed_pings first second third shard_id t =
    check_shard max_missed_pings shard_id (answers_over first second third shard_id t) t

split_tests :
    (split_address (codes "::1:70") ≡ some (codes "::1", pos 70))
    × (split_address (codes "a:x") ≡ none)
unfolding split_address stoi
split_tests = (refl, refl)
