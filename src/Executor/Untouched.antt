-- ===== src/Executor/Untouched.antt =====
-- The commands of src/command_executor.cpp and the files.
use tiny_kv_distributed_stor.Prelude.{◌≡◌, refl, false, List, [], ◌∷◌, arith}
use tiny_kv_distributed_stor.Prelude.Text.{Text}
use tiny_kv_distributed_stor.Prelude.Int.{ℤ}
use tiny_kv_distributed_stor.Storage.ExpiryManager.{TimePoint}
use tiny_kv_distributed_stor.Protocol.Command.{Command, CommandType, is_save}
use tiny_kv_distributed_stor.Replication.Manager.{replica_of, replica_of_no_one}
use tiny_kv_distributed_stor.Executor.{
  replicate_from, Executor, execute_set, execute_get, execute_del, execute_ping, execute_incr,
  execute_ttl, execute_expire, execute_persist, execute_replicaof, execute_save, dispatch, execute,
}

-- The files and the registry of replicas are the same.
abbrev IsUntouched : Executor → Executor → Type 0
IsUntouched s t =
    (t.persistence ≡ s.persistence) × (t.replication.registry ≡ s.replication.registry)

execute_set-IsUntouched :
    (now : TimePoint) (cmd : Command) (args : List Text) (s : Executor)
    → IsUntouched s (execute_set now cmd args s).1
unfolding execute_set
execute_set-IsUntouched now cmd [] s = (refl, refl)
execute_set-IsUntouched now cmd (k ∷ []) s = (refl, refl)
execute_set-IsUntouched now cmd (k ∷ v ∷ []) s = (refl, refl)
execute_set-IsUntouched now cmd (k ∷ v ∷ o ∷ []) s = (refl, refl)
execute_set-IsUntouched now cmd (k ∷ v ∷ o ∷ n ∷ []) s = (ground arith, ground arith)
execute_set-IsUntouched now cmd (k ∷ v ∷ o ∷ n ∷ x ∷ l) s = (refl, refl)

execute_get-IsUntouched :
    (cmd : Command) (args : List Text) (s : Executor) → IsUntouched s (execute_get cmd args s).1
unfolding execute_get
execute_get-IsUntouched cmd [] s = (refl, refl)
execute_get-IsUntouched cmd (k ∷ []) s = (ground arith, ground arith)
execute_get-IsUntouched cmd (k ∷ x ∷ l) s = (refl, refl)

execute_del-IsUntouched :
    (cmd : Command) (args : List Text) (s : Executor) → IsUntouched s (execute_del cmd args s).1
unfolding execute_del
execute_del-IsUntouched cmd [] s = (refl, refl)
execute_del-IsUntouched cmd (k ∷ []) s = (ground arith, ground arith)
execute_del-IsUntouched cmd (k ∷ x ∷ l) s = (refl, refl)

execute_ping-IsUntouched :
    (cmd : Command) (args : List Text) (s : Executor) → IsUntouched s (execute_ping cmd args s).1
unfolding execute_ping
execute_ping-IsUntouched cmd [] s = (refl, refl)
execute_ping-IsUntouched cmd (x ∷ l) s = (refl, refl)

execute_incr-IsUntouched :
    (delta : ℤ) (cmd : Command) (args : List Text) (s : Executor)
    → IsUntouched s (execute_incr delta cmd args s).1
unfolding execute_incr
execute_incr-IsUntouched delta cmd [] s = (refl, refl)
execute_incr-IsUntouched delta cmd (k ∷ []) s = (ground arith, ground arith)
execute_incr-IsUntouched delta cmd (k ∷ x ∷ l) s = (refl, refl)

execute_ttl-IsUntouched :
    (now : TimePoint) (cmd : Command) (args : List Text) (s : Executor)
    → IsUntouched s (execute_ttl now cmd args s).1
unfolding execute_ttl
execute_ttl-IsUntouched now cmd [] s = (refl, refl)
execute_ttl-IsUntouched now cmd (k ∷ []) s = (ground arith, ground arith)
execute_ttl-IsUntouched now cmd (k ∷ x ∷ l) s = (refl, refl)

execute_expire-IsUntouched :
    (now : TimePoint) (cmd : Command) (args : List Text) (s : Executor)
    → IsUntouched s (execute_expire now cmd args s).1
unfolding execute_expire
execute_expire-IsUntouched now cmd [] s = (refl, refl)
execute_expire-IsUntouched now cmd (k ∷ []) s = (refl, refl)
execute_expire-IsUntouched now cmd (k ∷ n ∷ []) s = (ground arith, ground arith)
execute_expire-IsUntouched now cmd (k ∷ n ∷ x ∷ l) s = (refl, refl)

execute_persist-IsUntouched :
    (cmd : Command) (args : List Text) (s : Executor) → IsUntouched s (execute_persist cmd args s).1
unfolding execute_persist
execute_persist-IsUntouched cmd [] s = (refl, refl)
execute_persist-IsUntouched cmd (k ∷ []) s = (ground arith, ground arith)
execute_persist-IsUntouched cmd (k ∷ x ∷ l) s = (refl, refl)

execute_replicaof-IsUntouched :
    (cmd : Command) (args : List Text) (s : Executor)
    → IsUntouched s (execute_replicaof cmd args s).1
unfolding execute_replicaof replicate_from replica_of replica_of_no_one
execute_replicaof-IsUntouched cmd [] s = (refl, refl)
execute_replicaof-IsUntouched cmd (k ∷ []) s = (refl, refl)
execute_replicaof-IsUntouched cmd (k ∷ n ∷ []) s = (ground arith, ground arith)
execute_replicaof-IsUntouched cmd (k ∷ n ∷ x ∷ l) s = (refl, refl)

execute_save-registry :
    (cmd : Command) (args : List Text) (s : Executor)
    → (execute_save cmd args s).1.replication.registry ≡ s.replication.registry
unfolding execute_save
execute_save-registry cmd [] s = ground arith
execute_save-registry cmd (x ∷ l) s = refl

dispatch-IsUntouched :
    (t : CommandType) (now : TimePoint) (cmd : Command) (s : Executor)
    → is_save t ≡ false
    → IsUntouched s (dispatch t now cmd s).1
unfolding dispatch
dispatch-IsUntouched CommandType.set now cmd s h = execute_set-IsUntouched now cmd cmd.args s
dispatch-IsUntouched CommandType.get now cmd s h = execute_get-IsUntouched cmd cmd.args s
dispatch-IsUntouched CommandType.del now cmd s h = execute_del-IsUntouched cmd cmd.args s
dispatch-IsUntouched CommandType.ping now cmd s h = execute_ping-IsUntouched cmd cmd.args s
dispatch-IsUntouched CommandType.incr now cmd s h = execute_incr-IsUntouched _ cmd cmd.args s
dispatch-IsUntouched CommandType.decr now cmd s h = execute_incr-IsUntouched _ cmd cmd.args s
dispatch-IsUntouched CommandType.ttl now cmd s h = execute_ttl-IsUntouched now cmd cmd.args s
dispatch-IsUntouched CommandType.expire now cmd s h = execute_expire-IsUntouched now cmd cmd.args s
dispatch-IsUntouched CommandType.persist now cmd s h = execute_persist-IsUntouched cmd cmd.args s
dispatch-IsUntouched CommandType.save now cmd s h = cc
dispatch-IsUntouched CommandType.replicaof now cmd s h =
    execute_replicaof-IsUntouched cmd cmd.args s
dispatch-IsUntouched _ now cmd s h = (refl, refl)

pub execute-persistence :
    (now : TimePoint) (cmd : Command) (s : Executor)
    → is_save cmd.type ≡ false
    → (execute now cmd s).1.persistence ≡ s.persistence
unfolding execute
execute-persistence now cmd s h = (dispatch-IsUntouched cmd.type now cmd _ h).0

dispatch-registry :
    (t : CommandType) (now : TimePoint) (cmd : Command) (s : Executor)
    → (dispatch t now cmd s).1.replication.registry ≡ s.replication.registry
dispatch-registry CommandType.save now cmd s =
    unfold dispatch in execute_save-registry cmd cmd.args s
dispatch-registry CommandType.set now cmd s =
    (dispatch-IsUntouched CommandType.set now cmd s refl).1
dispatch-registry CommandType.get now cmd s =
    (dispatch-IsUntouched CommandType.get now cmd s refl).1
dispatch-registry CommandType.del now cmd s =
    (dispatch-IsUntouched CommandType.del now cmd s refl).1
dispatch-registry CommandType.ping now cmd s =
    (dispatch-IsUntouched CommandType.ping now cmd s refl).1
dispatch-registry CommandType.incr now cmd s =
    (dispatch-IsUntouched CommandType.incr now cmd s refl).1
dispatch-registry CommandType.decr now cmd s =
    (dispatch-IsUntouched CommandType.decr now cmd s refl).1
dispatch-registry CommandType.ttl now cmd s =
    (dispatch-IsUntouched CommandType.ttl now cmd s refl).1
dispatch-registry CommandType.expire now cmd s =
    (dispatch-IsUntouched CommandType.expire now cmd s refl).1
dispatch-registry CommandType.persist now cmd s =
    (dispatch-IsUntouched CommandType.persist now cmd s refl).1
dispatch-registry CommandType.replicaof now cmd s =
    (dispatch-IsUntouched CommandType.replicaof now cmd s refl).1
dispatch-registry CommandType.sync now cmd s =
    (dispatch-IsUntouched CommandType.sync now cmd s refl).1
dispatch-registry CommandType.route now cmd s =
    (dispatch-IsUntouched CommandType.route now cmd s refl).1
dispatch-registry CommandType.nodes now cmd s =
    (dispatch-IsUntouched CommandType.nodes now cmd s refl).1
dispatch-registry CommandType.unknown now cmd s =
    (dispatch-IsUntouched CommandType.unknown now cmd s refl).1

-- Only SYNC connections enter the registry, and no command leaves it.
pub execute-registry :
    (now : TimePoint) (cmd : Command) (s : Executor)
    → (execute now cmd s).1.replication.registry ≡ s.replication.registry
unfolding execute
execute-registry now cmd s = dispatch-registry cmd.type now cmd _
