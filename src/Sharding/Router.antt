-- ===== src/Sharding/Router.antt =====
-- `Router` (src/sharding/router.cpp, include/tinykv/sharding/router.hpp): one request line, with what
-- the network does meanwhile as a parameter. The reply is returned, beside the new state.
pub mod Backends
pub mod Known
pub mod Wire
pub mod Connection
use tiny_kv_distributed_stor.Prelude.{
  ℕ, Bool, true, false, not, ◌||◌, Option, none, some, List, [], ◌∷◌, ◌++◌, if◌then◌else◌,
}
use tiny_kv_distributed_stor.Prelude.Text.{Text, codes, text_eq}
use tiny_kv_distributed_stor.Prelude.Dict.{Dict, find, insert}
use tiny_kv_distributed_stor.Protocol.Command.{Command, CommandType}
use tiny_kv_distributed_stor.Protocol.Parser.{ParseResult, parsed, protocol_error, parse}
use tiny_kv_distributed_stor.Protocol.Reply
use tiny_kv_distributed_stor.Sharding.Ring.{ConsistentHashRing, add_node, get_node, node_count}
use tiny_kv_distributed_stor.Sharding.Ring
use tiny_kv_distributed_stor.Sharding.Topology.{
  ShardTopology, NodeRole, NodeHealth, NodeSnapshot, active_address_for, is_empty, shard_ids,
  snapshot_nodes,
}

-- `connected` is `client.isConnected()`.
pub record BackendConnection : Type 0 where
  pub address : Text
  pub connected : Bool

pub record Router : Type 0 where
  pub topology : ShardTopology
  pub ring : ConsistentHashRing
  pub backends : Dict BackendConnection

-- Whether a new connection can be opened (the address is well formed and the node accepts), and the
-- line that comes back on it, if sending and receiving succeed.
pub record Network : Type 0 where
  pub accepts : Bool
  pub response : Option Text

unfoldable pub add_shards : List Text → ConsistentHashRing → ConsistentHashRing
unfolding add_node
add_shards [] ring = ring
add_shards (shard_id ∷ ids) ring = add_shards ids (add_node shard_id ring)

-- The constructor; the ring starts with its default number of virtual nodes.
unfoldable pub new_router : ShardTopology → Router
unfolding add_shards Ring.init shard_ids
new_router topology = record {
  topology = topology;
  ring = add_shards (shard_ids topology) (Ring.init 150);
  backends = [];
}

unfoldable pub address_for_key : Text → Router → Text
address_for_key key r = active_address_for (get_node key r.ring) r.topology

unfoldable pub shard_count : Router → ℕ
unfolding node_count
shard_count r = node_count r.ring

abbrev pub found_or_new : Option BackendConnection → BackendConnection
found_or_new none = record { address = []; connected = false }
found_or_new (some b) = b

unfoldable pub backend_for : Text → Router → BackendConnection
backend_for shard_id r = found_or_new (find shard_id r.backends)

-- A connection to an address that is no longer the shard's active one is closed.
unfoldable pub pointed_at : Text → BackendConnection → BackendConnection
pointed_at address b =
    if text_eq b.address address then b else record { address = address; connected = false }

abbrev pub exchanged : Option Text → BackendConnection → Option Text × BackendConnection
exchanged none b = (none, record b { connected = false })
exchanged (some response) b = (some response, record b { connected = true })

-- Open the connection, unless it is open; then send and receive, and close it on a failure.
unfoldable pub exchange : Network → BackendConnection → Option Text × BackendConnection
exchange net b = if b.connected || net.accepts then exchanged net.response b else (none, b)

unfoldable pub forward : Text → Network → Router → Option Text × Router
unfolding backend_for pointed_at exchange
forward shard_id net r =
    let address = active_address_for shard_id r.topology in
    if is_empty address
    then (none, r)
    else (let (response, b) = exchange net (pointed_at address (backend_for shard_id r)) in
        (response, record r { backends = insert shard_id b r.backends }))

unfoldable pub role_name : NodeRole → Text
role_name NodeRole.primary = codes "PRIMARY"
role_name NodeRole.replica = codes "REPLICA"

unfoldable pub health_name : NodeHealth → Text
health_name NodeHealth.up = codes "UP"
health_name NodeHealth.down = codes "DOWN"

unfoldable pub node_text : NodeSnapshot → Text
unfolding role_name health_name
node_text n =
    n.shard_id
    ++ (codes ":"
        ++ (role_name n.role
            ++ (codes ":"
                ++ (n.address
                    ++ (codes ":"
                        ++ (health_name n.health
                            ++ (codes ":"
                                ++ (if n.active then codes "ACTIVE" else codes "STANDBY"))))))))

unfoldable pub node_texts : List NodeSnapshot → Text
unfolding node_text
node_texts [] = []
node_texts (n ∷ []) = node_text n
node_texts (n ∷ m ∷ nodes) = node_text n ++ (codes ";" ++ node_texts (m ∷ nodes))

unfoldable pub nodes_reply : Router → Text
unfolding node_texts snapshot_nodes
nodes_reply r = node_texts (snapshot_nodes r.topology)

abbrev pub forwarded : Text → Option Text × Router → Text × Router
forwarded shard_id (none, r) =
    (Reply.error (codes "shard " ++ (shard_id ++ codes " unavailable")), r)
forwarded shard_id (some response, r) = (response, r)

unfoldable pub route_by_key : Network → Command → List Text → Router → Text × Router
unfolding forward
route_by_key net cmd [] r =
    (Reply.error (codes "'" ++ (cmd.name ++ codes "' has no key to route on")), r)
route_by_key net cmd (key ∷ args) r =
    let shard_id = get_node key r.ring in forwarded shard_id (forward shard_id net r)

unfoldable pub reply_route : List Text → Router → Text × Router
unfolding address_for_key
reply_route (key ∷ []) r = (Reply.bulk (address_for_key key r), r)
reply_route _ r = (Reply.error (codes "wrong number of arguments for 'ROUTE'"), r)

unfoldable pub reply_nodes : List Text → Router → Text × Router
unfolding nodes_reply
reply_nodes [] r = (Reply.bulk (nodes_reply r), r)
reply_nodes (_ ∷ _) r = (Reply.error (codes "wrong number of arguments for 'NODES'"), r)

unfoldable pub reply_ping : Network → Command → List Text → Router → Text × Router
unfolding route_by_key
reply_ping net cmd [] r = (Reply.ok, r)
reply_ping net cmd (key ∷ args) r = route_by_key net cmd (key ∷ args) r

unfoldable pub route_command : CommandType → Network → Command → Router → Text × Router
unfolding reply_route reply_nodes reply_ping route_by_key
route_command CommandType.route net cmd r = reply_route cmd.args r
route_command CommandType.nodes net cmd r = reply_nodes cmd.args r
route_command CommandType.ping net cmd r = reply_ping net cmd cmd.args r
route_command _ net cmd r = route_by_key net cmd cmd.args r

unfoldable pub route_parsed : Network → ParseResult → Router → Option Text × Router
unfolding route_command
route_parsed net (parsed cmd) r =
    let (response, r') = route_command cmd.type net cmd r in (some response, r')
route_parsed net (protocol_error message) r = (some (Reply.error message), r)

-- One round of the loop of `handleConnection`; an empty line has no reply.
unfoldable pub route_line : Network → Text → Router → Option Text × Router
unfolding route_parsed
route_line net [] r = (none, r)
route_line net (c ∷ line) r = route_parsed net (parse (c ∷ line)) r
