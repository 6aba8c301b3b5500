-- ===== src/Replication/Manager.antt =====
-- `ReplicationManager` (src/replication/replication_manager.cpp): the role, the link to a primary
-- and the registry of replicas. A `ReplicaLink` is the primary's address; its thread reads lines
-- from that address until the link is stopped.
use tiny_kv_distributed_stor.Prelude.{Option, none, some, []}
use tiny_kv_distributed_stor.Prelude.Text.{Text}
use tiny_kv_distributed_stor.Prelude.Int.{ℤ}
use tiny_kv_distributed_stor.Replication.Registry.{ReplicaRegistry}

pub data ServerRole : Type 0 where
  primary replica : ServerRole

pub record ReplicationManager : Type 0 where
  pub role : ServerRole
  pub replica_link : Option (Text × ℤ)
  pub registry : ReplicaRegistry

unfoldable pub init : ReplicationManager
init = record { role = ServerRole.primary; replica_link = none; registry = [] }

unfoldable pub replica_of : Text → ℤ → ReplicationManager → ReplicationManager
replica_of host port r = record r { role = ServerRole.replica; replica_link = some (host, port) }

unfoldable pub replica_of_no_one : ReplicationManager → ReplicationManager
replica_of_no_one r = record r { role = ServerRole.primary; replica_link = none }
