-- ===== src/Sharding/Topology.antt =====
-- `ShardTopology` (src/sharding/shard_topology.cpp, include/tinykv/sharding/shard_topology.hpp):
-- the shards with the health of their nodes and the address that serves each. The mutex makes each
-- method atomic. The count of missed pings is an `int` that wraps around, where C++ leaves its overflow
-- undefined; the limit is a natural number. `parseShards` takes the lookup of the configuration as a
-- function.
use tiny_kv_distributed_stor.Prelude.{
  ℕ, not, Bool, true, false, ◌||◌, Option, none, some, List, [], ◌∷◌, ◌++◌, map, ◌==◌,
  if◌then◌else◌,
}
use tiny_kv_distributed_stor.Prelude.Text.{Text, codes, text_eq}
use tiny_kv_distributed_stor.Prelude.Int.{ℤ, pos, ◌+ℤ◌, ltb_ℤ}
use tiny_kv_distributed_stor.Prelude.Decimal.{wrap32}

pub data NodeRole : Type 0 where
  primary : NodeRole
  replica : NodeRole

pub data NodeHealth : Type 0 where
  up : NodeHealth
  down : NodeHealth

pub record ShardNode : Type 0 where
  pub address : Text
  pub health : NodeHealth
  pub consecutive_misses : ℤ

pub record Shard : Type 0 where
  pub id : Text
  pub primary_node : ShardNode
  pub has_replica : Bool
  pub replica_node : ShardNode
  pub active_address : Text
  pub failed_over : Bool

abbrev pub ShardTopology : Type 0
ShardTopology = List Shard

abbrev pub add_part : Text → List Text → List Text
add_part [] parts = parts
add_part (c ∷ token) parts = (c ∷ token) ∷ parts

-- `splitCsv`; the first argument is the part that was read.
unfoldable pub parts_from : Text → Text → List Text
parts_from token [] = add_part token []
parts_from token (c ∷ csv) = elim (c == b',') [
  | true ↦ add_part token (parts_from [] csv)
  | false ↦ parts_from (token ++ c ∷ []) csv
]

unfoldable pub split_csv : Text → List Text
unfolding parts_from
split_csv csv = parts_from [] csv

abbrev pub is_empty : Text → Bool
is_empty [] = true
is_empty (c ∷ s) = false

abbrev pub new_node : Text → ShardNode
new_node address = record { address = address; health = NodeHealth.up; consecutive_misses = pos 0 }

-- The body of the loop of `parseShards`.
unfoldable pub parse_shard : (Text → Text) → Text → Shard
parse_shard get_string shard_id =
    let primary_addr = get_string (shard_id ++ codes ".primary") in
    let replica_addr = get_string (shard_id ++ codes ".replica") in
    record {
      id = shard_id;
      primary_node = new_node primary_addr;
      has_replica = not (is_empty replica_addr);
      replica_node = new_node replica_addr;
      active_address = primary_addr;
      failed_over = false;
    }

-- `get_string key` is `config.getString(key, "")`.
unfoldable pub parse_shards : (Text → Text) → ShardTopology
unfolding split_csv parse_shard
parse_shards get_string = map (parse_shard get_string) (split_csv (get_string (codes "shards")))

unfoldable pub find_shard : Text → ShardTopology → Option Shard
find_shard shard_id [] = none
find_shard shard_id (s ∷ shards) =
    if text_eq s.id shard_id then some s else find_shard shard_id shards

-- What a method does through the pointer that `findShard` returns.
unfoldable pub update_shard : Text → (Shard → Shard) → ShardTopology → ShardTopology
update_shard shard_id f [] = []
update_shard shard_id f (s ∷ shards) =
    let rest = update_shard shard_id f shards in
    if text_eq s.id shard_id then f s ∷ shards else s ∷ rest

unfoldable pub shard_ids : ShardTopology → List Text
shard_ids t = map (λ s. s.id) t

unfoldable pub active_address_for : Text → ShardTopology → Text
active_address_for shard_id t = elim (find_shard shard_id t) [
  | none ↦ []
  | some s ↦ s.active_address
]

unfoldable pub has_replica_of : Text → ShardTopology → Bool
has_replica_of shard_id t = elim (find_shard shard_id t) [ none ↦ false | some s ↦ s.has_replica ]

unfoldable pub primary_address : Text → ShardTopology → Text
primary_address shard_id t = elim (find_shard shard_id t) [
  | none ↦ []
  | some s ↦ s.primary_node.address
]

unfoldable pub replica_address : Text → ShardTopology → Text
replica_address shard_id t = elim (find_shard shard_id t) [
  | none ↦ []
  | some s ↦ s.replica_node.address
]

unfoldable pub already_failed_over : Text → ShardTopology → Bool
already_failed_over shard_id t = elim (find_shard shard_id t) [
  | none ↦ false
  | some s ↦ s.failed_over
]

-- The misses and the health after one ping.
unfoldable pub pinged : Bool → ℕ → ShardNode → ShardNode
pinged success max_missed_pings node =
    if success
    then record node { consecutive_misses = pos 0; health = NodeHealth.up }
    else (let misses = wrap32 (node.consecutive_misses +ℤ pos 1) in
        if ltb_ℤ misses (pos max_missed_pings)
        then record node { consecutive_misses = misses }
        else record node { consecutive_misses = misses; health = NodeHealth.down })

unfoldable pub ping_shard : NodeRole → Bool → ℕ → Shard → Shard
unfolding pinged
ping_shard NodeRole.primary success max_missed_pings s = record s {
  primary_node = pinged success max_missed_pings s.primary_node;
}
ping_shard NodeRole.replica success max_missed_pings s = record s {
  replica_node = pinged success max_missed_pings s.replica_node;
}

unfoldable pub record_ping_result : Text → NodeRole → Bool → ℕ → ShardTopology → ShardTopology
unfolding update_shard ping_shard
record_ping_result shard_id role success max_missed_pings t =
    update_shard shard_id (ping_shard role success max_missed_pings) t

abbrev pub node_of : NodeRole → Shard → ShardNode
node_of NodeRole.primary s = s.primary_node
node_of NodeRole.replica s = s.replica_node

unfoldable pub health_of : Text → NodeRole → ShardTopology → NodeHealth
health_of shard_id role t = elim (find_shard shard_id t) [
  | none ↦ NodeHealth.down
  | some s ↦ (node_of role s).health
]

-- The two assignments of `promoteReplica`.
unfoldable pub promoted : Shard → Shard
promoted s = record s { active_address = s.replica_node.address; failed_over = true }

unfoldable pub can_promote : Option Shard → Bool
can_promote none = false
can_promote (some s) = not (not s.has_replica || s.failed_over)

unfoldable pub promote_replica : Text → ShardTopology → Bool × ShardTopology
unfolding can_promote update_shard promoted
promote_replica shard_id t =
    if can_promote (find_shard shard_id t)
    then (true, update_shard shard_id promoted t)
    else (false, t)

pub record NodeSnapshot : Type 0 where
  pub shard_id : Text
  pub role : NodeRole
  pub address : Text
  pub health : NodeHealth
  pub active : Bool

unfoldable pub node_snapshot : NodeRole → Shard → NodeSnapshot
node_snapshot role s =
    let node = node_of role s in
    record {
      shard_id = s.id;
      role = role;
      address = node.address;
      health = node.health;
      active = text_eq s.active_address node.address;
    }

unfoldable pub snapshot_nodes : ShardTopology → List NodeSnapshot
unfolding node_snapshot
snapshot_nodes [] = []
snapshot_nodes (s ∷ t) =
    let rest = snapshot_nodes t in
    node_snapshot NodeRole.primary s
    ∷ (if s.has_replica then node_snapshot NodeRole.replica s ∷ rest else rest)
