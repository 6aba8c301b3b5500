-- ===== src/Sharding/Health.antt =====
-- `HealthChecker::checkShard` and its loop (src/sharding/health_checker.cpp). What the network
-- answers is a parameter of each call: whether a node answered the ping, and whether the replica
-- agreed to be promoted.
pub mod Failover
pub mod Misses
pub mod Probe
use tiny_kv_distributed_stor.Prelude.{ℕ, Bool, true, false, not, ◌&&◌, List, [], ◌∷◌, if◌then◌else◌}
use tiny_kv_distributed_stor.Prelude.Text.{Text}
use tiny_kv_distributed_stor.Sharding.Topology.{
  ShardTopology, NodeRole, NodeHealth, record_ping_result, health_of, has_replica_of,
  already_failed_over, promote_replica,
}

-- The answers during one check: the two pings, by address, and the reply to `REPLICAOF NO ONE`.
pub record Answers : Type 0 where
  pub primary_up : Bool
  pub replica_up : Bool
  pub accepted : Bool

abbrev pub is_up : NodeHealth → Bool
is_up NodeHealth.up = true
is_up NodeHealth.down = false

-- The end of `checkShard`: a promotion, if the primary is down, the replica up, and there was none.
unfoldable pub fail_over : Text → Answers → ShardTopology → ShardTopology
unfolding promote_replica
fail_over shard_id a t =
    if is_up (health_of shard_id NodeRole.primary t)
    then t
    else if not (is_up (health_of shard_id NodeRole.replica t))
    then t
    else if already_failed_over shard_id t
    then t
    else if a.accepted
    then (promote_replica shard_id t).1
    else t

unfoldable pub check_shard : ℕ → Text → Answers → ShardTopology → ShardTopology
unfolding fail_over record_ping_result
check_shard max_missed_pings shard_id a t =
    let pinged_primary =
      record_ping_result shard_id NodeRole.primary a.primary_up max_missed_pings t in
    if has_replica_of shard_id pinged_primary
    then fail_over shard_id a
        (record_ping_result shard_id NodeRole.replica a.replica_up max_missed_pings pinged_primary)
    else pinged_primary

-- The checks of `runLoop`, one after the other.
unfoldable pub run_checks : ℕ → List (Text × Answers) → ShardTopology → ShardTopology
unfolding check_shard
run_checks max_missed_pings [] t = t
run_checks max_missed_pings ((shard_id, a) ∷ checks) t =
    run_checks max_missed_pings checks (check_shard max_missed_pings shard_id a t)
