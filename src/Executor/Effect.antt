-- ===== src/Executor/Effect.antt =====
-- Commands of src/command_executor.cpp as functions of a map from keys to values.
use mathlib.Core.Path.{fun_ext}
use tiny_kv_distributed_stor.Prelude.{
  ℕ, not, ◌≡◌, refl, ap, ◌∙◌, Option, none, some, List, [], ◌∷◌, inl, inr, if◌then◌else◌, if_cases,
  Bool-cases,
}
use tiny_kv_distributed_stor.Prelude.Text.{Text, codes, text_eq}
use tiny_kv_distributed_stor.Prelude.Int.{ℤ, pos, negsuc, ◌+ℤ◌}
use tiny_kv_distributed_stor.Prelude.Decimal.{stoi, to_string, wrap64}
use tiny_kv_distributed_stor.Storage.KvStore
use tiny_kv_distributed_stor.Storage.KvStore.{KvStore}
use tiny_kv_distributed_stor.Storage.KvStore.Contents.{
  contents, number_of, incremented, increment_by-incremented, contents-set_locked, contents-get,
  contents-del,
}
use tiny_kv_distributed_stor.Storage.ExpiryManager.{TimePoint}
use tiny_kv_distributed_stor.Protocol.Command.{Command, CommandType}
use tiny_kv_distributed_stor.Executor.{
  Executor, equals_ignore_case, parse_positive_seconds, execute_set_ex, execute_set, get_reply,
  execute_get, execute_del, execute_ping, increment_reply, execute_incr, execute_ttl, expire_in,
  execute_expire, execute_persist, execute_save, replicate_from, execute_replicaof, dispatch,
  execute,
}
use tiny_kv_distributed_stor.Executor.Keeps.{IsValid}

abbrev pub Values : Type 0
Values = Text → Option Text

abbrev pub update : Text → Option Text → Values → Values
update k v m j = if text_eq k j then v else m j

abbrev pub set_ex_effect : Text → Text → Option ℕ → Values → Values
set_ex_effect k v none m = m
set_ex_effect k v (some n) m = update k (some v) m

abbrev pub set_effect : List Text → Values → Values
set_effect (k ∷ v ∷ []) m = update k (some v) m
set_effect (k ∷ v ∷ o ∷ n ∷ []) m =
    if equals_ignore_case o (codes "EX") then set_ex_effect k v (parse_positive_seconds n) m else m
set_effect _ m = m

abbrev pub del_effect : List Text → Values → Values
del_effect (k ∷ []) m = update k none m
del_effect _ m = m

abbrev pub add_effect : Text → ℤ → Option ℤ → Values → Values
add_effect k delta none m = m
add_effect k delta (some n) m = update k (some (to_string (wrap64 (n +ℤ delta)))) m

abbrev pub incr_effect : ℤ → List Text → Values → Values
incr_effect delta (k ∷ []) m = add_effect k delta (number_of (m k)) m
incr_effect delta _ m = m

abbrev pub effect : CommandType → List Text → Values → Values
effect CommandType.set args m = set_effect args m
effect CommandType.del args m = del_effect args m
effect CommandType.incr args m = incr_effect (pos 1) args m
effect CommandType.decr args m = incr_effect (negsuc 0) args m
effect _ args m = m

abbrev values_after : Text × Executor → Values
values_after r = contents r.1.store

module _ (s : Executor) (h : IsValid s) (unbounded : s.store.capacity ≡ 0) where
  contents-set :
      (k v : Text) → contents (KvStore.set k v s.store) ≡ update k (some v) (contents s.store)
  contents-set k v =
      fun_ext λ j. unfold KvStore.set in contents-set_locked s.store k v j h.stored unbounded

  execute_set_ex-effect :
      (now : TimePoint) (k v : Text) (n : Option ℕ)
      → values_after (execute_set_ex now k v n s) ≡ set_ex_effect k v n (contents s.store)
  unfolding execute_set_ex
  execute_set_ex-effect now k v none = refl
  execute_set_ex-effect now k v (some n) = contents-set k v

  execute_set-effect :
      (now : TimePoint) (cmd : Command) (args : List Text)
      → values_after (execute_set now cmd args s) ≡ set_effect args (contents s.store)
  unfolding execute_set
  execute_set-effect now cmd [] = refl
  execute_set-effect now cmd (k ∷ v ∷ []) = contents-set k v
  execute_set-effect now cmd (k ∷ v ∷ o ∷ n ∷ []) =
      elim (Bool-cases (equals_ignore_case o (codes "EX"))) [
        | inl e ↦ rw e (execute_set_ex-effect now k v (parse_positive_seconds n))
        | inr e ↦ rw e
      ]
  execute_set-effect now cmd _ = refl

  execute_get-effect :
      (cmd : Command) (args : List Text) → values_after (execute_get cmd args s) ≡ contents s.store
  unfolding execute_get
  execute_get-effect cmd [] = refl
  execute_get-effect cmd (k ∷ []) =
      counted (KvStore.get k s.store).0 (record s { store = (KvStore.get k s.store).1 })
      ∙ fun_ext λ j. contents-get s.store k j h.stored
    where
      counted : (o : Option Text) (t : Executor) → values_after (get_reply o t) ≡ contents t.store
      counted none t = refl
      counted (some x) t = refl
  execute_get-effect cmd _ = refl

  execute_del-effect :
      (cmd : Command) (args : List Text)
      → values_after (execute_del cmd args s) ≡ del_effect args (contents s.store)
  unfolding execute_del
  execute_del-effect cmd [] = refl
  execute_del-effect cmd (k ∷ []) = fun_ext λ j. contents-del s.store k j h.stored
  execute_del-effect cmd _ = refl

  incremented-effect :
      (k : Text) (delta : ℤ) (o : Option ℤ)
      → contents (increment_reply (incremented k delta s.store o)).1
        ≡ add_effect k delta o (contents s.store)
  unfolding increment_reply
  incremented-effect k delta none = refl
  incremented-effect k delta (some n) =
      fun_ext λ j. contents-set_locked s.store k _ j h.stored unbounded

  execute_incr-effect :
      (delta : ℤ) (cmd : Command) (args : List Text)
      → values_after (execute_incr delta cmd args s) ≡ incr_effect delta args (contents s.store)
  unfolding execute_incr
  execute_incr-effect delta cmd [] = refl
  execute_incr-effect delta cmd (k ∷ []) =
      ap (λ r. contents (increment_reply r).1) (increment_by-incremented s.store k delta h.stored)
      ∙ incremented-effect k delta (number_of (contents s.store k))
  execute_incr-effect delta cmd _ = refl

  execute_ttl-effect :
      (now : TimePoint) (cmd : Command) (args : List Text)
      → values_after (execute_ttl now cmd args s) ≡ contents s.store
  unfolding execute_ttl
  execute_ttl-effect now cmd [] = refl
  execute_ttl-effect now cmd (k ∷ []) =
      if_cases (λ (r : Text × Executor). values_after r ≡ contents s.store)
        (KvStore.exists k s.store) (λ _. refl) (λ _. refl)
  execute_ttl-effect now cmd _ = refl

  expire_in-effect :
      (now : TimePoint) (k : Text) (n : Option ℕ)
      → values_after (expire_in now k n s) ≡ contents s.store
  unfolding expire_in
  expire_in-effect now k none = refl
  expire_in-effect now k (some n) = refl

  execute_expire-effect :
      (now : TimePoint) (cmd : Command) (args : List Text)
      → values_after (execute_expire now cmd args s) ≡ contents s.store
  unfolding execute_expire
  execute_expire-effect now cmd [] = refl
  execute_expire-effect now cmd (k ∷ n ∷ []) =
      if_cases (λ (r : Text × Executor). values_after r ≡ contents s.store)
        (KvStore.exists k s.store) (λ _. expire_in-effect now k (parse_positive_seconds n))
        (λ _. refl)
  execute_expire-effect now cmd _ = refl

  execute_persist-effect :
      (cmd : Command) (args : List Text)
      → values_after (execute_persist cmd args s) ≡ contents s.store
  unfolding execute_persist
  execute_persist-effect cmd [] = refl
  execute_persist-effect cmd (k ∷ []) =
      if_cases (λ (r : Text × Executor). values_after r ≡ contents s.store)
        (KvStore.exists k s.store) (λ _. refl) (λ _. refl)
  execute_persist-effect cmd _ = refl

  execute_save-effect :
      (cmd : Command) (args : List Text) → values_after (execute_save cmd args s) ≡ contents s.store
  unfolding execute_save
  execute_save-effect cmd [] =
      if_cases (λ (r : Text × Executor). values_after r ≡ contents s.store) s.has_persistence
        (λ _. refl) (λ _. refl)
  execute_save-effect cmd (_ ∷ _) = refl

  replicate_from-effect :
      (host : Text) (port : Option ℤ) → values_after (replicate_from host port s) ≡ contents s.store
  unfolding replicate_from
  replicate_from-effect host none = refl
  replicate_from-effect host (some port) = refl

  execute_replicaof-effect :
      (cmd : Command) (args : List Text)
      → values_after (execute_replicaof cmd args s) ≡ contents s.store
  unfolding execute_replicaof
  execute_replicaof-effect cmd [] = refl
  execute_replicaof-effect cmd (host ∷ port ∷ []) =
      if_cases (λ (r : Text × Executor). values_after r ≡ contents s.store) (not s.has_replication)
        (λ _. refl)
        (λ _.
          if_cases (λ (r : Text × Executor). values_after r ≡ contents s.store) _ (λ _. refl)
            (λ _. replicate_from-effect host (stoi port)))
  execute_replicaof-effect cmd _ = refl

  execute_ping-effect :
      (cmd : Command) (args : List Text) → values_after (execute_ping cmd args s) ≡ contents s.store
  unfolding execute_ping
  execute_ping-effect cmd [] = refl
  execute_ping-effect cmd (_ ∷ _) = refl

  dispatch-effect :
      (t : CommandType) (now : TimePoint) (cmd : Command)
      → values_after (dispatch t now cmd s) ≡ effect t cmd.args (contents s.store)
  unfolding dispatch
  dispatch-effect CommandType.set now cmd = execute_set-effect now cmd cmd.args
  dispatch-effect CommandType.get now cmd = execute_get-effect cmd cmd.args
  dispatch-effect CommandType.del now cmd = execute_del-effect cmd cmd.args
  dispatch-effect CommandType.ping now cmd = execute_ping-effect cmd cmd.args
  dispatch-effect CommandType.incr now cmd = execute_incr-effect _ cmd cmd.args
  dispatch-effect CommandType.decr now cmd = execute_incr-effect _ cmd cmd.args
  dispatch-effect CommandType.ttl now cmd = execute_ttl-effect now cmd cmd.args
  dispatch-effect CommandType.expire now cmd = execute_expire-effect now cmd cmd.args
  dispatch-effect CommandType.persist now cmd = execute_persist-effect cmd cmd.args
  dispatch-effect CommandType.save now cmd = execute_save-effect cmd cmd.args
  dispatch-effect CommandType.replicaof now cmd = execute_replicaof-effect cmd cmd.args
  dispatch-effect _ now cmd = refl

-- In a valid server without a capacity limit, `execute` changes the stored values as `effect` says,
-- which is a function of the command and the values alone: the clock, the schedules, the order of
-- use and the counters have no part in it.
pub execute-effect :
    (now : TimePoint) (cmd : Command) (s : Executor)
    → IsValid s
    → s.store.capacity ≡ 0
    → contents (execute now cmd s).1.store ≡ effect cmd.type cmd.args (contents s.store)
unfolding execute
execute-effect now cmd s h unbounded =
    let h' : IsValid _ = record { stored = h.stored; scheduled = h.scheduled } in
    dispatch-effect _ h' unbounded cmd.type now cmd
