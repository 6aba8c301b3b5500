-- ===== src/Executor.antt =====
-- `CommandExecutor` (src/command_executor.cpp, include/tinykv/command_executor.hpp). The state is
-- the executor's together with the objects that it reaches through its references and pointers;
-- `has_persistence` and `has_replication` say whether those two pointers have been set. `now` is
-- the steady clock's reading during the call. Each case of the `switch` is a function.
pub mod Keeps
pub mod Effect
pub mod Errors
pub mod Untouched
pub mod Words
use tiny_kv_distributed_stor.Prelude.{
  ℕ, zero, suc, ◌+◌, ◌-◌, ◌*◌, ◌/◌, ◌%◌, ◌^◌, Bool, true, false, not, ◌&&◌, Option, none, some,
  List, [], ◌∷◌, ◌++◌, map, ltb, leb, ◌==◌, if◌then◌else◌,
}
use tiny_kv_distributed_stor.Prelude.Text.{Text, codes, text_eq}
use tiny_kv_distributed_stor.Prelude.Int.{ℤ, pos, negsuc, ◌+ℤ◌, ◌-ℤ◌}
use tiny_kv_distributed_stor.Prelude.Decimal.{is_digit, stoll, stoi, wrap64}
use tiny_kv_distributed_stor.Storage.KvStore
use tiny_kv_distributed_stor.Storage.KvStore.{KvStore}
use tiny_kv_distributed_stor.Storage.ExpiryManager
use tiny_kv_distributed_stor.Storage.ExpiryManager.{ExpiryManager, TimePoint}
use tiny_kv_distributed_stor.Protocol.Command.{Command, CommandType}
use tiny_kv_distributed_stor.Protocol.Reply
use tiny_kv_distributed_stor.Persistence.Manager
use tiny_kv_distributed_stor.Persistence.Manager.{PersistenceManager}
use tiny_kv_distributed_stor.Replication.Manager as Replication
use tiny_kv_distributed_stor.Replication.Manager.{ReplicationManager}

pub record Executor : Type 0 where
  pub store : KvStore
  pub expiry : ExpiryManager
  pub has_persistence : Bool
  pub persistence : PersistenceManager
  pub has_replication : Bool
  pub replication : ReplicationManager
  pub total_commands : ℕ
  pub total_hits : ℕ
  pub total_misses : ℕ

-- `++` on an `std::atomic<uint64_t>`.
unfoldable pub next_count : ℕ → ℕ
next_count n = (n + 1) % 2 ^ 64

unfoldable pub arity_error : Command → Text
unfolding Reply.error
arity_error cmd = Reply.error (codes "wrong number of arguments for '" ++ (cmd.name ++ codes "'"))

-- `std::tolower` in the "C" locale.
unfoldable pub to_lower_char : ℕ → ℕ
to_lower_char c = if leb b'A' c && leb c b'Z' then c + 32 else c

unfoldable pub equals_ignore_case : Text → Text → Bool
unfolding to_lower_char
equals_ignore_case [] [] = true
equals_ignore_case (a ∷ s) (b ∷ t) = (to_lower_char a == to_lower_char b) && equals_ignore_case s t
equals_ignore_case _ _ = false

unfoldable pub all_digits : Text → Bool
all_digits [] = true
all_digits (c ∷ s) = is_digit c && all_digits s

abbrev pub positive_value : Option ℤ → Option ℕ
positive_value none = none
positive_value (some (negsuc n)) = none
positive_value (some (pos zero)) = none
positive_value (some (pos (suc n))) = some (suc n)

-- `none` is a return of false; otherwise the value that `outSeconds` is set to.
unfoldable pub parse_positive_seconds : Text → Option ℕ
unfolding all_digits
parse_positive_seconds [] = none
parse_positive_seconds (c ∷ s) = if all_digits (c ∷ s) then positive_value (stoll (c ∷ s)) else none

-- `steady_clock::now() + std::chrono::seconds(seconds)`, in 64 bits of nanoseconds.
unfoldable pub deadline : TimePoint → ℕ → TimePoint
deadline now seconds = wrap64 (now +ℤ pos (seconds * 1_000_000_000))

-- `duration_cast<std::chrono::seconds>`, which rounds towards zero, and then the larger of that
-- and 0.
unfoldable pub seconds_left : ℤ → ℕ
seconds_left (pos n) = n / 1_000_000_000
seconds_left (negsuc n) = 0

unfoldable pub increment_reply : Option ℤ × KvStore → Text × KvStore
unfolding Reply.integer Reply.error
increment_reply (some n, store) = (Reply.integer n, store)
increment_reply (none, store) =
    (Reply.error (codes "value is not an integer or out of range"), store)

-- The deadline that `SET … EX` and `EXPIRE` schedule.
unfoldable pub execute_set_ex : TimePoint → Text → Text → Option ℕ → Executor → Text × Executor
execute_set_ex now key value none s =
    (Reply.error (codes "invalid expire time in 'SET' command"), s)
execute_set_ex now key value (some seconds) s = (
  Reply.ok,
  record s {
    store = KvStore.set key value s.store;
    expiry = ExpiryManager.schedule key (deadline now seconds) s.expiry;
  },
)

unfoldable pub execute_set : TimePoint → Command → List Text → Executor → Text × Executor
unfolding execute_set_ex
execute_set now cmd (key ∷ value ∷ []) s = (
  Reply.ok,
  record s { store = KvStore.set key value s.store; expiry = ExpiryManager.cancel key s.expiry },
)
execute_set now cmd (key ∷ value ∷ option ∷ seconds ∷ []) s =
    if equals_ignore_case option (codes "EX")
    then execute_set_ex now key value (parse_positive_seconds seconds) s
    else (arity_error cmd, s)
execute_set now cmd _ s = (arity_error cmd, s)

unfoldable pub get_reply : Option Text → Executor → Text × Executor
get_reply (some value) s = (Reply.bulk value, record s { total_hits = next_count s.total_hits })
get_reply none s = (Reply.nil, record s { total_misses = next_count s.total_misses })

unfoldable pub execute_get : Command → List Text → Executor → Text × Executor
unfolding get_reply
execute_get cmd (key ∷ []) s =
    let (value, store) = KvStore.get key s.store in get_reply value (record s { store = store })
execute_get cmd _ s = (arity_error cmd, s)

abbrev pub zero_or_one : Bool → ℤ
zero_or_one b = if b then pos 1 else pos 0

unfoldable pub execute_del : Command → List Text → Executor → Text × Executor
execute_del cmd (key ∷ []) s =
    let (existed, store) = KvStore.del key s.store in
    (
      Reply.integer (zero_or_one existed),
      record s { store = store; expiry = ExpiryManager.cancel key s.expiry },
    )
execute_del cmd _ s = (arity_error cmd, s)

unfoldable pub execute_ping : Command → List Text → Executor → Text × Executor
execute_ping cmd [] s = (Reply.ok, s)
execute_ping cmd (_ ∷ _) s = (arity_error cmd, s)

-- INCR with 1 and DECR with -1.
unfoldable pub execute_incr : ℤ → Command → List Text → Executor → Text × Executor
unfolding increment_reply
execute_incr delta cmd (key ∷ []) s =
    let (reply, store) = increment_reply (KvStore.increment_by key delta s.store) in
    (reply, record s { store = store })
execute_incr delta cmd _ s = (arity_error cmd, s)

unfoldable pub ttl_reply : TimePoint → Option TimePoint → Text
unfolding seconds_left
ttl_reply now none = Reply.integer (negsuc 0)
ttl_reply now (some expires_at) = Reply.integer (pos (seconds_left (wrap64 (expires_at -ℤ now))))

unfoldable pub execute_ttl : TimePoint → Command → List Text → Executor → Text × Executor
unfolding ttl_reply
execute_ttl now cmd (key ∷ []) s =
    if KvStore.exists key s.store
    then (ttl_reply now (ExpiryManager.expiry_of key s.expiry), s)
    else (Reply.integer (negsuc 1), s)
execute_ttl now cmd _ s = (arity_error cmd, s)

unfoldable pub expire_in : TimePoint → Text → Option ℕ → Executor → Text × Executor
expire_in now key none s = (Reply.error (codes "value is not an integer or out of range"), s)
expire_in now key (some seconds) s = (
  Reply.integer (pos 1),
  record s { expiry = ExpiryManager.schedule key (deadline now seconds) s.expiry },
)

unfoldable pub execute_expire : TimePoint → Command → List Text → Executor → Text × Executor
unfolding expire_in
execute_expire now cmd (key ∷ seconds ∷ []) s =
    if KvStore.exists key s.store
    then expire_in now key (parse_positive_seconds seconds) s
    else (Reply.integer (pos 0), s)
execute_expire now cmd _ s = (arity_error cmd, s)

unfoldable pub execute_persist : Command → List Text → Executor → Text × Executor
execute_persist cmd (key ∷ []) s =
    if KvStore.exists key s.store
    then (
      Reply.integer (elim (ExpiryManager.expiry_of key s.expiry) [ none ↦ pos 0 | some _ ↦ pos 1 ]),
      record s { expiry = ExpiryManager.cancel key s.expiry },
    )
    else (Reply.integer (pos 0), s)
execute_persist cmd _ s = (arity_error cmd, s)

unfoldable pub execute_save : Command → List Text → Executor → Text × Executor
execute_save cmd [] s =
    if s.has_persistence
    then (Reply.ok, record s { persistence = Manager.save s.store s.persistence })
    else (Reply.error (codes "persistence is not enabled"), s)
execute_save cmd (_ ∷ _) s = (arity_error cmd, s)

unfoldable pub replicate_from : Text → Option ℤ → Executor → Text × Executor
replicate_from host none s = (Reply.error (codes "invalid port in 'REPLICAOF' command"), s)
replicate_from host (some port) s =
    (Reply.ok, record s { replication = Replication.replica_of host port s.replication })

unfoldable pub execute_replicaof : Command → List Text → Executor → Text × Executor
unfolding replicate_from
execute_replicaof cmd (host ∷ port ∷ []) s =
    if not s.has_replication
    then (Reply.error (codes "replication is not enabled"), s)
    else if equals_ignore_case host (codes "NO") && equals_ignore_case port (codes "ONE")
    then (Reply.ok, record s { replication = Replication.replica_of_no_one s.replication })
    else replicate_from host (stoi port) s
execute_replicaof cmd _ s = (arity_error cmd, s)

-- The `switch` of `execute`.
unfoldable pub dispatch : CommandType → TimePoint → Command → Executor → Text × Executor
dispatch CommandType.set now cmd s = execute_set now cmd cmd.args s
dispatch CommandType.get now cmd s = execute_get cmd cmd.args s
dispatch CommandType.del now cmd s = execute_del cmd cmd.args s
dispatch CommandType.ping now cmd s = execute_ping cmd cmd.args s
dispatch CommandType.incr now cmd s = execute_incr (pos 1) cmd cmd.args s
dispatch CommandType.decr now cmd s = execute_incr (negsuc 0) cmd cmd.args s
dispatch CommandType.ttl now cmd s = execute_ttl now cmd cmd.args s
dispatch CommandType.expire now cmd s = execute_expire now cmd cmd.args s
dispatch CommandType.persist now cmd s = execute_persist cmd cmd.args s
dispatch CommandType.save now cmd s = execute_save cmd cmd.args s
dispatch CommandType.replicaof now cmd s = execute_replicaof cmd cmd.args s
dispatch CommandType.sync now cmd s =
    (Reply.error (codes "SYNC is only valid as the first line of a fresh connection"), s)
dispatch CommandType.route now cmd s =
    (Reply.error (codes "ROUTE is only valid against tinykv-router, not tinykv-server"), s)
dispatch CommandType.nodes now cmd s =
    (Reply.error (codes "NODES is only valid against tinykv-router, not tinykv-server"), s)
dispatch CommandType.unknown now cmd s =
    (Reply.error (codes "unknown command '" ++ (cmd.name ++ codes "'")), s)

unfoldable pub execute : TimePoint → Command → Executor → Text × Executor
unfolding dispatch
execute now cmd s =
    dispatch cmd.type now cmd (record s { total_commands = next_count s.total_commands })
