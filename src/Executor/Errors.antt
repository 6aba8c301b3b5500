-- ===== src/Executor/Errors.antt =====
-- The error replies of src/command_executor.cpp, and the state after them.
use tiny_kv_distributed_stor.Prelude.{
  ℕ, not, ◌≡◌, refl, Bool, true, false, Option, none, some, List, [], ◌∷◌, inl, inr, arith, ◌==◌,
  if_cases, Bool-cases, ◌&&◌,
}
use tiny_kv_distributed_stor.Prelude.Text.{Text, codes}
use tiny_kv_distributed_stor.Prelude.Int.{ℤ, ◌+ℤ◌}
use tiny_kv_distributed_stor.Prelude.Decimal.{stoi, to_string, wrap64}
use tiny_kv_distributed_stor.Storage.KvStore
use tiny_kv_distributed_stor.Storage.KvStore.{KvStore}
use tiny_kv_distributed_stor.Storage.KvStore.Contents.{
  number_of, contents, incremented, increment_by-incremented,
}
use tiny_kv_distributed_stor.Storage.ExpiryManager.{TimePoint}
use tiny_kv_distributed_stor.Protocol.Command.{Command, CommandType}
use tiny_kv_distributed_stor.Protocol.Reply
use tiny_kv_distributed_stor.Replication.Manager as Replication
use tiny_kv_distributed_stor.Executor.{
  Executor, equals_ignore_case, parse_positive_seconds, execute_set_ex, execute_set, get_reply,
  execute_get, execute_del, execute_ping, increment_reply, execute_incr, execute_ttl, expire_in,
  execute_expire, execute_persist, execute_save, replicate_from, execute_replicaof, dispatch,
  execute,
}
use tiny_kv_distributed_stor.Executor.Keeps.{IsValid}

-- A reply that is empty or begins with '-'.
abbrev pub is_error : Text → Bool
is_error [] = true
is_error (c ∷ s) = c == 45

pub record SameData (s t : Executor) : Type 0 where
  pub store : t.store ≡ s.store
  pub expiry : t.expiry ≡ s.expiry
  pub persistence : t.persistence ≡ s.persistence
  pub replication : t.replication ≡ s.replication

abbrev pub ErrorKeeps : Executor → Text × Executor → Type 0
ErrorKeeps s r = is_error r.0 ≡ true → SameData s r.1

pub integer_no_error : (z : ℤ) → is_error (Reply.integer z) ≡ false
unfolding Reply.integer
integer_no_error z = refl

pub ok_no_error : is_error Reply.ok ≡ false
unfolding Reply.ok
ok_no_error = refl

module _ (s : Executor) where
  same : SameData s s
  same = record { store = refl; expiry = refl; persistence = refl; replication = refl }

  -- A reply that is no error leaves nothing to show.
  no_error : (reply : Text) (t : Executor) → is_error reply ≡ false → ErrorKeeps s (reply, t)
  no_error reply t e f = absurd (ground (arith, e, f))

  integer-ErrorKeeps : (z : ℤ) (t : Executor) → ErrorKeeps s (Reply.integer z, t)
  integer-ErrorKeeps z t = no_error (Reply.integer z) t (integer_no_error z)

  ok-ErrorKeeps : (t : Executor) → ErrorKeeps s (Reply.ok, t)
  ok-ErrorKeeps t = no_error Reply.ok t ok_no_error

  execute_set-ErrorKeeps :
      (now : TimePoint) (cmd : Command) (args : List Text)
      → ErrorKeeps s (execute_set now cmd args s)
  unfolding execute_set
  execute_set-ErrorKeeps now cmd [] = λ _. same
  execute_set-ErrorKeeps now cmd (k ∷ v ∷ []) = ok-ErrorKeeps _
  execute_set-ErrorKeeps now cmd (k ∷ v ∷ o ∷ n ∷ []) =
      if_cases (ErrorKeeps s) (equals_ignore_case o (codes "EX"))
        (λ _. ex (parse_positive_seconds n)) (λ _ _. same)
    where
      ex : (n : Option ℕ) → ErrorKeeps s (execute_set_ex now k v n s)
      ex none = λ _. same
      ex (some n) = ok-ErrorKeeps _
  execute_set-ErrorKeeps now cmd _ = λ _. same

  execute_get-ErrorKeeps :
      (cmd : Command) (args : List Text) → ErrorKeeps s (execute_get cmd args s)
  unfolding execute_get
  execute_get-ErrorKeeps cmd [] = λ _. same
  execute_get-ErrorKeeps cmd (k ∷ []) =
      found (KvStore.get k s.store).0 (record s { store = (KvStore.get k s.store).1 })
    where
      found : (o : Option Text) (t : Executor) → ErrorKeeps s (get_reply o t)
      found none t = no_error Reply.nil _ (unfold Reply.nil in refl)
      found (some x) t = no_error (Reply.bulk x) _ (unfold Reply.bulk in refl)
  execute_get-ErrorKeeps cmd _ = λ _. same

  execute_del-ErrorKeeps :
      (cmd : Command) (args : List Text) → ErrorKeeps s (execute_del cmd args s)
  unfolding execute_del
  execute_del-ErrorKeeps cmd [] = λ _. same
  execute_del-ErrorKeeps cmd (k ∷ []) = integer-ErrorKeeps _ _
  execute_del-ErrorKeeps cmd _ = λ _. same

  execute_ping-ErrorKeeps :
      (cmd : Command) (args : List Text) → ErrorKeeps s (execute_ping cmd args s)
  unfolding execute_ping
  execute_ping-ErrorKeeps cmd [] = λ _. same
  execute_ping-ErrorKeeps cmd (_ ∷ _) = λ _. same

  execute_incr-ErrorKeeps :
      IsValid s
      → (delta : ℤ) (cmd : Command) (args : List Text)
      → ErrorKeeps s (execute_incr delta cmd args s)
  unfolding execute_incr
  execute_incr-ErrorKeeps h delta cmd [] = λ _. same
  execute_incr-ErrorKeeps h delta cmd (k ∷ []) =
      rw (increment_by-incremented s.store k delta h.stored)
        (summed (number_of (contents s.store k)))
    where
      summed :
          (o : Option ℤ)
          → ErrorKeeps s (
            (increment_reply (incremented k delta s.store o)).0,
            record s { store = (increment_reply (incremented k delta s.store o)).1 },
          )
      summed none = λ _. same
      summed (some n) =
          integer-ErrorKeeps (wrap64 (n +ℤ delta))
            (record s { store = KvStore.set_locked k (to_string (wrap64 (n +ℤ delta))) s.store })
  execute_incr-ErrorKeeps h delta cmd _ = λ _. same

  execute_ttl-ErrorKeeps :
      (now : TimePoint) (cmd : Command) (args : List Text)
      → ErrorKeeps s (execute_ttl now cmd args s)
  unfolding execute_ttl
  execute_ttl-ErrorKeeps now cmd [] = λ _. same
  execute_ttl-ErrorKeeps now cmd (k ∷ []) =
      if_cases (ErrorKeeps s) (KvStore.exists k s.store) (λ _ _. same) (λ _ _. same)
  execute_ttl-ErrorKeeps now cmd _ = λ _. same

  execute_expire-ErrorKeeps :
      (now : TimePoint) (cmd : Command) (args : List Text)
      → ErrorKeeps s (execute_expire now cmd args s)
  unfolding execute_expire
  execute_expire-ErrorKeeps now cmd [] = λ _. same
  execute_expire-ErrorKeeps now cmd (k ∷ n ∷ []) =
      if_cases (ErrorKeeps s) (KvStore.exists k s.store) (λ _. later (parse_positive_seconds n))
        (λ _ _. same)
    where
      later : (n : Option ℕ) → ErrorKeeps s (expire_in now k n s)
      later none = λ _. same
      later (some n) = integer-ErrorKeeps _ _
  execute_expire-ErrorKeeps now cmd _ = λ _. same

  execute_persist-ErrorKeeps :
      (cmd : Command) (args : List Text) → ErrorKeeps s (execute_persist cmd args s)
  unfolding execute_persist
  execute_persist-ErrorKeeps cmd [] = λ _. same
  execute_persist-ErrorKeeps cmd (k ∷ []) =
      if_cases (ErrorKeeps s) (KvStore.exists k s.store) (λ _. integer-ErrorKeeps _ _) (λ _ _. same)
  execute_persist-ErrorKeeps cmd _ = λ _. same

  execute_save-ErrorKeeps :
      (cmd : Command) (args : List Text) → ErrorKeeps s (execute_save cmd args s)
  unfolding execute_save
  execute_save-ErrorKeeps cmd [] =
      if_cases (ErrorKeeps s) s.has_persistence (λ _. ok-ErrorKeeps _) (λ _ _. same)
  execute_save-ErrorKeeps cmd (_ ∷ _) = λ _. same

  execute_replicaof-ErrorKeeps :
      (cmd : Command) (args : List Text) → ErrorKeeps s (execute_replicaof cmd args s)
  unfolding execute_replicaof
  execute_replicaof-ErrorKeeps cmd [] = λ _. same
  execute_replicaof-ErrorKeeps cmd (host ∷ port ∷ []) =
      if_cases (ErrorKeeps s) (not s.has_replication) (λ _ _. same)
        (λ _.
          elim (Bool-cases
            (equals_ignore_case host (codes "NO") && equals_ignore_case port (codes "ONE"))) [
              | inl e ↦ rw e (
                  ok-ErrorKeeps
                    (record s { replication = Replication.replica_of_no_one s.replication }))
              | inr e ↦ rw e (from (stoi port))
            ])
    where
      from : (port : Option ℤ) → ErrorKeeps s (replicate_from host port s)
      from none = λ _. same
      from (some port) = ok-ErrorKeeps _
  execute_replicaof-ErrorKeeps cmd _ = λ _. same

  dispatch-ErrorKeeps :
      IsValid s
      → (t : CommandType) (now : TimePoint) (cmd : Command) → ErrorKeeps s (dispatch t now cmd s)
  unfolding dispatch
  dispatch-ErrorKeeps h CommandType.set now cmd = execute_set-ErrorKeeps now cmd cmd.args
  dispatch-ErrorKeeps h CommandType.get now cmd = execute_get-ErrorKeeps cmd cmd.args
  dispatch-ErrorKeeps h CommandType.del now cmd = execute_del-ErrorKeeps cmd cmd.args
  dispatch-ErrorKeeps h CommandType.ping now cmd = execute_ping-ErrorKeeps cmd cmd.args
  dispatch-ErrorKeeps h CommandType.incr now cmd = execute_incr-ErrorKeeps h _ cmd cmd.args
  dispatch-ErrorKeeps h CommandType.decr now cmd = execute_incr-ErrorKeeps h _ cmd cmd.args
  dispatch-ErrorKeeps h CommandType.ttl now cmd = execute_ttl-ErrorKeeps now cmd cmd.args
  dispatch-ErrorKeeps h CommandType.expire now cmd = execute_expire-ErrorKeeps now cmd cmd.args
  dispatch-ErrorKeeps h CommandType.persist now cmd = execute_persist-ErrorKeeps cmd cmd.args
  dispatch-ErrorKeeps h CommandType.save now cmd = execute_save-ErrorKeeps cmd cmd.args
  dispatch-ErrorKeeps h CommandType.replicaof now cmd = execute_replicaof-ErrorKeeps cmd cmd.args
  dispatch-ErrorKeeps h _ now cmd = λ _. same

-- A command that a valid server answers with an error (`-` first, or nothing) leaves the store, with
-- its order of use, the schedules, the files and the replication state as they were.
pub execute-ErrorKeeps :
    (now : TimePoint) (cmd : Command) (s : Executor)
    → IsValid s
    → is_error (execute now cmd s).0 ≡ true
    → SameData s (execute now cmd s).1
unfolding execute
execute-ErrorKeeps now cmd s h e =
    let h' : IsValid _ = record { stored = h.stored; scheduled = h.scheduled } in
    let d = dispatch-ErrorKeeps _ h' cmd.type now cmd e in
    record {
      store = d.store;
      expiry = d.expiry;
      persistence = d.persistence;
      replication = d.replication;
    }
