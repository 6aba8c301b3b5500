-- ===== src/Tests/Routing.antt =====
-- A ring with a node added, and a shard that fails over (src/sharding).
use tiny_kv_distributed_stor.Prelude.{
  some, ◌≡◌, refl, true, false, [], ◌∷◌, All, arith, if◌then◌else◌,
}
use tiny_kv_distributed_stor.Prelude.Text.{Text, codes, text_eq}
use tiny_kv_distributed_stor.Prelude.Int.{◌+ℤ◌}
use tiny_kv_distributed_stor.Prelude.Decimal.{wrap32}
use tiny_kv_distributed_stor.Net.TcpClient.{Socket}
use tiny_kv_distributed_stor.Sharding.Ring
use tiny_kv_distributed_stor.Sharding.Ring.{ConsistentHashRing, get_node}
use tiny_kv_distributed_stor.Sharding.Topology.{
  ShardTopology, split_csv, parts_from, parse_shard, parse_shards, find_shard, update_shard,
  active_address_for, already_failed_over, pinged, ping_shard, record_ping_result, promoted,
  can_promote, promote_replica, has_replica_of, health_of,
}
use tiny_kv_distributed_stor.Sharding.Router.{Network, Router, new_router}
use tiny_kv_distributed_stor.Sharding.Router.Known.{is_shard, new_router_knows}
use tiny_kv_distributed_stor.Sharding.Health.{Answers, fail_over, check_shard, run_checks}
use tiny_kv_distributed_stor.Sharding.Health.Failover.{
  IsServing, run_checks-IsServing, run_checks_latch,
}
use tiny_kv_distributed_stor.Sharding.Health.Misses.{AreCounted, run_checks-AreCounted}

abbrev one_node : ConsistentHashRing
one_node = Ring.add_node (codes "shard-a") (Ring.init 2)

-- A shard with a replica, whose primary stops answering.
abbrev shard_config : Text → Text
shard_config key =
    if text_eq key (codes "shards")
    then codes "s"
    else if text_eq key (codes "s.primary")
    then codes "h:1"
    else codes "h:2"

abbrev miss : Text × Answers
miss = (codes "s", record { primary_up = false; replica_up = true; accepted = true })

abbrev back_up : Text × Answers
back_up = (codes "s", record { primary_up = true; replica_up = true; accepted = true })

run_checks-IsServing_example :
    All IsServing (run_checks 2 (miss ∷ miss ∷ back_up ∷ []) (parse_shards shard_config))
run_checks-IsServing_example = run_checks-IsServing 2 (miss ∷ miss ∷ back_up ∷ []) shard_config

run_checks-AreCounted_example :
    All (AreCounted 2 3) (run_checks 2 (miss ∷ miss ∷ back_up ∷ []) (parse_shards shard_config))
run_checks-AreCounted_example =
    run_checks-AreCounted 2 (miss ∷ miss ∷ back_up ∷ []) shard_config (omega arith) (omega arith)

abbrev failed_over : ShardTopology
failed_over = run_checks 2 (miss ∷ miss ∷ []) (parse_shards shard_config)

program : Unit {0}
unfolding run_checks check_shard fail_over parse_shards parse_shard split_csv parts_from find_shard
    update_shard ping_shard pinged record_ping_result promoted can_promote promote_replica
    has_replica_of health_of already_failed_over active_address_for text_eq wrap32 ◌+ℤ◌
program = tt

failed_over_once : already_failed_over (codes "s") failed_over ≡ true
unfolding program
failed_over_once = refl

replica_serves : active_address_for (codes "s") failed_over ≡ codes "h:2"
unfolding program
replica_serves = refl

run_checks_latch_example :
    (already_failed_over (codes "s") (run_checks 2 (back_up ∷ miss ∷ []) failed_over) ≡ true)
    × (active_address_for (codes "s") (run_checks 2 (back_up ∷ miss ∷ []) failed_over)
        ≡ active_address_for (codes "s") failed_over)
run_checks_latch_example =
    run_checks_latch 2 (back_up ∷ miss ∷ []) (codes "s") failed_over failed_over_once

-- The router's connection was to the primary, before the failover.
abbrev stale : Router
stale = record {
  topology = failed_over;
  ring = one_node;
  backends = (codes "s", record { address = codes "h:1"; connected = true }) ∷ [];
}

abbrev answering : Network
answering = record { accepts = true; response = some (codes "+OK") }

abbrev other_shards : ShardTopology
other_shards = parse_shard shard_config (codes "t") ∷ []

new_router_knows_example :
    is_shard
      (get_node
        (codes "user:1")
        (new_router (parse_shard shard_config (codes "s") ∷ other_shards)).ring)
      (parse_shard shard_config (codes "s") ∷ other_shards)
    ≡ true
new_router_knows_example =
    new_router_knows (codes "user:1") (parse_shard shard_config (codes "s")) other_shards

abbrev node_socket : Socket
node_socket = record { incoming = codes "+O" ∷ codes "K\n" ∷ []; sent = []; room = 17 }
