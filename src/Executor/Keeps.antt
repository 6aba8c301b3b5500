-- ===== src/Executor/Keeps.antt =====
-- The commands of src/command_executor.cpp and the invariants of the store and the expiry manager.
use tiny_kv_distributed_stor.Prelude.{
  ℕ, not, ◌≡◌, refl, ap, Option, none, some, List, [], ◌∷◌, if_cases,
}
use tiny_kv_distributed_stor.Prelude.Text.{Text, codes}
use tiny_kv_distributed_stor.Prelude.Int.{ℤ}
use tiny_kv_distributed_stor.Prelude.Decimal.{stoi}
use tiny_kv_distributed_stor.Storage.KvStore
use tiny_kv_distributed_stor.Storage.KvStore.{KvStore}
use tiny_kv_distributed_stor.Storage.KvStore.Valid.{
  IsValid as StoreIsValid, set-refines, set_locked-refines, get-refines, del-refines,
}
use tiny_kv_distributed_stor.Storage.KvStore.Contents.{incremented, increment_by-incremented}
use tiny_kv_distributed_stor.Storage.ExpiryManager
use tiny_kv_distributed_stor.Storage.ExpiryManager.{TimePoint}
use tiny_kv_distributed_stor.Storage.ExpiryManager.Sweep.{
  IsValid as ExpiryIsValid, schedule-IsValid, cancel-IsValid,
}
use tiny_kv_distributed_stor.Protocol.Command.{Command, CommandType}
use tiny_kv_distributed_stor.Executor.{
  Executor, equals_ignore_case, parse_positive_seconds, execute_set_ex, execute_set, get_reply,
  execute_get, execute_del, execute_ping, increment_reply, execute_incr, execute_ttl, expire_in,
  execute_expire, execute_persist, execute_save, replicate_from, execute_replicaof, dispatch,
  execute,
}

pub record IsValid (s : Executor) : Type 0 where
  pub stored : StoreIsValid s.store
  pub scheduled : ExpiryIsValid s.expiry

-- The state after a call is valid, at the same capacity.
abbrev pub Follows : Executor → Executor → Type 0
Follows s t = IsValid t × (t.store.capacity ≡ s.store.capacity)

abbrev pub Keeps : Executor → Text × Executor → Type 0
Keeps s r = Follows s r.1

module _ (s : Executor) (h : IsValid s) where
  set-Keeps :
      (k v : Text) (e : ExpiryManager.ExpiryManager)
      → ExpiryIsValid e
      → Follows s (record s { store = KvStore.set k v s.store; expiry = e })
  set-Keeps k v e he =
      let (stored, cap, _) = set-refines s.store k v h.stored in
      (record { stored = stored; scheduled = he }, cap)

  expiry-Keeps :
      (e : ExpiryManager.ExpiryManager) → ExpiryIsValid e → Follows s (record s { expiry = e })
  expiry-Keeps e he = (record { stored = h.stored; scheduled = he }, refl)

  execute_set_ex-Keeps :
      (now : TimePoint) (k v : Text) (n : Option ℕ) → Keeps s (execute_set_ex now k v n s)
  unfolding execute_set_ex
  execute_set_ex-Keeps now k v none = (h, refl)
  execute_set_ex-Keeps now k v (some n) =
      set-Keeps k v _ (schedule-IsValid s.expiry k _ h.scheduled)

  execute_set-Keeps :
      (now : TimePoint) (cmd : Command) (args : List Text) → Keeps s (execute_set now cmd args s)
  unfolding execute_set
  execute_set-Keeps now cmd (k ∷ v ∷ []) = set-Keeps k v _ (cancel-IsValid s.expiry k h.scheduled)
  execute_set-Keeps now cmd (k ∷ v ∷ o ∷ n ∷ []) =
      if_cases (Keeps s) (equals_ignore_case o (codes "EX"))
        (λ _. execute_set_ex-Keeps now k v (parse_positive_seconds n)) (λ _. (h, refl))
  execute_set-Keeps now cmd _ = (h, refl)

  execute_get-Keeps : (cmd : Command) (args : List Text) → Keeps s (execute_get cmd args s)
  unfolding execute_get
  execute_get-Keeps cmd (k ∷ []) =
      let (stored, cap, _, _) = get-refines s.store k h.stored in
      counted (KvStore.get k s.store).0 (record s { store = (KvStore.get k s.store).1 })
        (record { stored = stored; scheduled = h.scheduled }) cap
    where
      counted :
          (o : Option Text) (t : Executor)
          → IsValid t
          → t.store.capacity ≡ s.store.capacity
          → Keeps s (get_reply o t)
      counted none t v c = (record { stored = v.stored; scheduled = v.scheduled }, c)
      counted (some x) t v c = (record { stored = v.stored; scheduled = v.scheduled }, c)
  execute_get-Keeps cmd _ = (h, refl)

  execute_del-Keeps : (cmd : Command) (args : List Text) → Keeps s (execute_del cmd args s)
  unfolding execute_del
  execute_del-Keeps cmd (k ∷ []) =
      let (stored, cap, _, _) = del-refines s.store k h.stored in
      (record { stored = stored; scheduled = cancel-IsValid s.expiry k h.scheduled }, cap)
  execute_del-Keeps cmd _ = (h, refl)

  execute_ping-Keeps : (cmd : Command) (args : List Text) → Keeps s (execute_ping cmd args s)
  unfolding execute_ping
  execute_ping-Keeps cmd [] = (h, refl)
  execute_ping-Keeps cmd (_ ∷ _) = (h, refl)

  incremented-Keeps :
      (k : Text) (delta : ℤ) (o : Option ℤ) (r : Option ℤ × KvStore)
      → r ≡ incremented k delta s.store o
      → Keeps s ((increment_reply r).0, record s { store = (increment_reply r).1 })
  unfolding increment_reply
  incremented-Keeps k delta none r e = rw e (h, refl)
  incremented-Keeps k delta (some n) r e =
      let (stored, cap, _) = set_locked-refines s.store k _ h.stored in
      rw e (record { stored = stored; scheduled = h.scheduled }, cap)

  execute_incr-Keeps :
      (delta : ℤ) (cmd : Command) (args : List Text) → Keeps s (execute_incr delta cmd args s)
  unfolding execute_incr
  execute_incr-Keeps delta cmd (k ∷ []) =
      incremented-Keeps k delta _ _ (increment_by-incremented s.store k delta h.stored)
  execute_incr-Keeps delta cmd _ = (h, refl)

  execute_ttl-Keeps :
      (now : TimePoint) (cmd : Command) (args : List Text) → Keeps s (execute_ttl now cmd args s)
  unfolding execute_ttl
  execute_ttl-Keeps now cmd (k ∷ []) =
      if_cases (Keeps s) (KvStore.exists k s.store) (λ _. (h, refl)) (λ _. (h, refl))
  execute_ttl-Keeps now cmd _ = (h, refl)

  expire_in-Keeps : (now : TimePoint) (k : Text) (n : Option ℕ) → Keeps s (expire_in now k n s)
  unfolding expire_in
  expire_in-Keeps now k none = (h, refl)
  expire_in-Keeps now k (some n) = expiry-Keeps _ (schedule-IsValid s.expiry k _ h.scheduled)

  execute_expire-Keeps :
      (now : TimePoint) (cmd : Command) (args : List Text) → Keeps s (execute_expire now cmd args s)
  unfolding execute_expire
  execute_expire-Keeps now cmd (k ∷ n ∷ []) =
      if_cases (Keeps s) (KvStore.exists k s.store)
        (λ _. expire_in-Keeps now k (parse_positive_seconds n)) (λ _. (h, refl))
  execute_expire-Keeps now cmd _ = (h, refl)

  execute_persist-Keeps : (cmd : Command) (args : List Text) → Keeps s (execute_persist cmd args s)
  unfolding execute_persist
  execute_persist-Keeps cmd (k ∷ []) =
      if_cases (Keeps s) (KvStore.exists k s.store)
        (λ _. expiry-Keeps _ (cancel-IsValid s.expiry k h.scheduled)) (λ _. (h, refl))
  execute_persist-Keeps cmd _ = (h, refl)

  same_data : (t : Executor) → t.store ≡ s.store → t.expiry ≡ s.expiry → Follows s t
  same_data t p q =
      (record { stored = rw p h.stored; scheduled = rw q h.scheduled }, ap (λ x. x.capacity) p)

  execute_save-Keeps : (cmd : Command) (args : List Text) → Keeps s (execute_save cmd args s)
  unfolding execute_save
  execute_save-Keeps cmd [] =
      if_cases (Keeps s) s.has_persistence (λ _. same_data _ refl refl) (λ _. (h, refl))
  execute_save-Keeps cmd (_ ∷ _) = (h, refl)

  replicate_from-Keeps : (host : Text) (port : Option ℤ) → Keeps s (replicate_from host port s)
  unfolding replicate_from
  replicate_from-Keeps host none = (h, refl)
  replicate_from-Keeps host (some port) = same_data _ refl refl

  execute_replicaof-Keeps :
      (cmd : Command) (args : List Text) → Keeps s (execute_replicaof cmd args s)
  unfolding execute_replicaof
  execute_replicaof-Keeps cmd (host ∷ port ∷ []) =
      if_cases (Keeps s) (not s.has_replication) (λ _. (h, refl))
        (λ _.
          if_cases (Keeps s) _ (λ _. same_data _ refl refl)
            (λ _. replicate_from-Keeps host (stoi port)))
  execute_replicaof-Keeps cmd _ = (h, refl)

  dispatch-Keeps :
      (t : CommandType) (now : TimePoint) (cmd : Command) → Keeps s (dispatch t now cmd s)
  unfolding dispatch
  dispatch-Keeps CommandType.set now cmd = execute_set-Keeps now cmd cmd.args
  dispatch-Keeps CommandType.get now cmd = execute_get-Keeps cmd cmd.args
  dispatch-Keeps CommandType.del now cmd = execute_del-Keeps cmd cmd.args
  dispatch-Keeps CommandType.ping now cmd = execute_ping-Keeps cmd cmd.args
  dispatch-Keeps CommandType.incr now cmd = execute_incr-Keeps _ cmd cmd.args
  dispatch-Keeps CommandType.decr now cmd = execute_incr-Keeps _ cmd cmd.args
  dispatch-Keeps CommandType.ttl now cmd = execute_ttl-Keeps now cmd cmd.args
  dispatch-Keeps CommandType.expire now cmd = execute_expire-Keeps now cmd cmd.args
  dispatch-Keeps CommandType.persist now cmd = execute_persist-Keeps cmd cmd.args
  dispatch-Keeps CommandType.save now cmd = execute_save-Keeps cmd cmd.args
  dispatch-Keeps CommandType.replicaof now cmd = execute_replicaof-Keeps cmd cmd.args
  dispatch-Keeps _ now cmd = (h, refl)

-- Every command, whatever its arguments, takes a valid server to a valid server whose store has the
-- same capacity: list and index agree, the capacity is kept, and every schedule is in the heap.
pub execute-Keeps :
    (now : TimePoint) (cmd : Command) (s : Executor) → IsValid s → Keeps s (execute now cmd s)
unfolding execute
execute-Keeps now cmd s h =
    let h' : IsValid _ = record { stored = h.stored; scheduled = h.scheduled } in
    dispatch-Keeps _ h' cmd.type now cmd
