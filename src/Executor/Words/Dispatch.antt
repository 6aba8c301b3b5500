-- ===== src/Executor/Words/Dispatch.antt =====
-- The other commands of src/command_executor.cpp, and `execute`, on stores of words.
use tiny_kv_distributed_stor.Prelude.{
  ℕ, not, ◌≡◌, refl, ◌&&◌, Option, none, some, List, [], ◌∷◌, ◌++◌, All, if_cases,
}
use tiny_kv_distributed_stor.Prelude.Text.{Text, codes}
use tiny_kv_distributed_stor.Prelude.Int.{ℤ, pos, negsuc}
use tiny_kv_distributed_stor.Prelude.Decimal.{stoi}
use tiny_kv_distributed_stor.Storage.KvStore
use tiny_kv_distributed_stor.Storage.KvStore.{KvStore}
use tiny_kv_distributed_stor.Storage.ExpiryManager
use tiny_kv_distributed_stor.Storage.ExpiryManager.{TimePoint}
use tiny_kv_distributed_stor.Protocol.Command.{Command, CommandType}
use tiny_kv_distributed_stor.Protocol.Reply
use tiny_kv_distributed_stor.Protocol.Parser.Tokens.{IsToken}
use tiny_kv_distributed_stor.Executor.{
  Executor, equals_ignore_case, parse_positive_seconds, ttl_reply, execute_ttl, expire_in,
  execute_expire, execute_persist, execute_save, replicate_from, execute_replicaof, dispatch,
  execute,
}
use tiny_kv_distributed_stor.Executor.Keeps.{IsValid}
use tiny_kv_distributed_stor.Executor.Words.{
  AreWords, literal-IsLine, integer-IsLine, ok-IsLine, quoting-IsLine,
}
use tiny_kv_distributed_stor.Executor.Words.Replies.{
  Answers, same, failed, refused, execute_set-Answers, execute_get-Answers, execute_del-Answers,
  execute_ping-Answers, execute_incr-Answers,
}

module _ (s : Executor) (h : IsValid s) (w : AreWords (KvStore.entries s.store)) where
  -- A command that leaves the store alone, and answers with a number.
  numbered : (z : ℤ) (t : Executor) → t.store ≡ s.store → Answers (Reply.integer z, t)
  numbered z t e = same s h w (Reply.integer z) t e (integer-IsLine z)

  ttl_reply-Answers : (now : TimePoint) (o : Option TimePoint) → Answers (ttl_reply now o, s)
  unfolding ttl_reply
  ttl_reply-Answers now none = numbered _ s refl
  ttl_reply-Answers now (some at) = numbered _ s refl

  execute_ttl-Answers :
      (now : TimePoint) (cmd : Command) (args : List Text)
      → IsToken cmd.name
      → Answers (execute_ttl now cmd args s)
  unfolding execute_ttl
  execute_ttl-Answers now cmd (k ∷ []) n =
      if_cases Answers (KvStore.exists k s.store)
        (λ _. ttl_reply-Answers now (ExpiryManager.expiry_of k s.expiry))
        (λ _. numbered (negsuc 1) s refl)
  execute_ttl-Answers now cmd _ n = failed s h w cmd n

  expire_in-Answers : (now : TimePoint) (k : Text) (o : Option ℕ) → Answers (expire_in now k o s)
  unfolding expire_in
  expire_in-Answers now k none = refused s h w "value is not an integer or out of range" refl
  expire_in-Answers now k (some x) = numbered (pos 1) _ refl

  execute_expire-Answers :
      (now : TimePoint) (cmd : Command) (args : List Text)
      → IsToken cmd.name
      → Answers (execute_expire now cmd args s)
  unfolding execute_expire
  execute_expire-Answers now cmd (k ∷ x ∷ []) n =
      if_cases Answers (KvStore.exists k s.store)
        (λ _. expire_in-Answers now k (parse_positive_seconds x)) (λ _. numbered (pos 0) s refl)
  execute_expire-Answers now cmd _ n = failed s h w cmd n

  execute_persist-Answers :
      (cmd : Command) (args : List Text) → IsToken cmd.name → Answers (execute_persist cmd args s)
  unfolding execute_persist
  execute_persist-Answers cmd (k ∷ []) n =
      if_cases Answers (KvStore.exists k s.store) (λ _. numbered _ _ refl)
        (λ _. numbered (pos 0) s refl)
  execute_persist-Answers cmd _ n = failed s h w cmd n

  execute_save-Answers :
      (cmd : Command) (args : List Text) → IsToken cmd.name → Answers (execute_save cmd args s)
  unfolding execute_save
  execute_save-Answers cmd [] n =
      if_cases Answers s.has_persistence (λ _. same s h w Reply.ok _ refl ok-IsLine)
        (λ _. refused s h w "persistence is not enabled" refl)
  execute_save-Answers cmd (_ ∷ _) n = failed s h w cmd n

  replicate_from-Answers : (host : Text) (port : Option ℤ) → Answers (replicate_from host port s)
  unfolding replicate_from
  replicate_from-Answers host none = refused s h w "invalid port in 'REPLICAOF' command" refl
  replicate_from-Answers host (some port) = same s h w Reply.ok _ refl ok-IsLine

  execute_replicaof-Answers :
      (cmd : Command) (args : List Text) → IsToken cmd.name → Answers (execute_replicaof cmd args s)
  unfolding execute_replicaof
  execute_replicaof-Answers cmd (host ∷ port ∷ []) n =
      if_cases Answers (not s.has_replication)
        (λ _. refused s h w "replication is not enabled" refl)
        (λ _.
          if_cases Answers
            (equals_ignore_case host (codes "NO") && equals_ignore_case port (codes "ONE"))
            (λ _. same s h w Reply.ok _ refl ok-IsLine)
            (λ _. replicate_from-Answers host (stoi port)))
  execute_replicaof-Answers cmd _ n = failed s h w cmd n

  dispatch-Answers :
      (t : CommandType) (now : TimePoint) (cmd : Command)
      → IsToken cmd.name
      → All IsToken cmd.args
      → Answers (dispatch t now cmd s)
  unfolding dispatch
  dispatch-Answers CommandType.set now cmd n a = execute_set-Answers s h w now cmd cmd.args n a
  dispatch-Answers CommandType.get now cmd n a = execute_get-Answers s h w cmd cmd.args n a
  dispatch-Answers CommandType.del now cmd n a = execute_del-Answers s h w cmd cmd.args n
  dispatch-Answers CommandType.ping now cmd n a = execute_ping-Answers s h w cmd cmd.args n
  dispatch-Answers CommandType.incr now cmd n a =
      execute_incr-Answers s h w (pos 1) cmd cmd.args n a
  dispatch-Answers CommandType.decr now cmd n a =
      execute_incr-Answers s h w (negsuc 0) cmd cmd.args n a
  dispatch-Answers CommandType.ttl now cmd n a = execute_ttl-Answers now cmd cmd.args n
  dispatch-Answers CommandType.expire now cmd n a = execute_expire-Answers now cmd cmd.args n
  dispatch-Answers CommandType.persist now cmd n a = execute_persist-Answers cmd cmd.args n
  dispatch-Answers CommandType.save now cmd n a = execute_save-Answers cmd cmd.args n
  dispatch-Answers CommandType.replicaof now cmd n a = execute_replicaof-Answers cmd cmd.args n
  dispatch-Answers CommandType.sync now cmd n a =
      refused s h w "SYNC is only valid as the first line of a fresh connection" refl
  dispatch-Answers CommandType.route now cmd n a =
      refused s h w "ROUTE is only valid against tinykv-router, not tinykv-server" refl
  dispatch-Answers CommandType.nodes now cmd n a =
      refused s h w "NODES is only valid against tinykv-router, not tinykv-server" refl
  dispatch-Answers CommandType.unknown now cmd n a =
      same s h w (Reply.error (codes "unknown command '" ++ (cmd.name ++ codes "'"))) s refl (
        quoting-IsLine (codes "unknown command '") cmd.name
          (literal-IsLine "unknown command '" refl) n)

-- A valid server whose keys and values are words answers a command whose name and arguments are words
-- with one line, and its keys and values are words afterwards.
pub execute-Answers :
    (now : TimePoint) (cmd : Command) (s : Executor)
    → IsValid s
    → AreWords (KvStore.entries s.store)
    → IsToken cmd.name
    → All IsToken cmd.args
    → Answers (execute now cmd s)
unfolding execute
execute-Answers now cmd s h w n a =
    let h' : IsValid _ = record { stored = h.stored; scheduled = h.scheduled } in
    dispatch-Answers _ h' w cmd.type now cmd n a
