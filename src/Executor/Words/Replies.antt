-- ===== src/Executor/Words/Replies.antt =====
-- The commands of src/command_executor.cpp on stores of words.
use tiny_kv_distributed_stor.Prelude.{
  ℕ, ◌≡◌, refl, sym, false, Option, none, some, List, [], ◌∷◌, All, if_cases,
}
use Prim.Native.String.{String}
use mathlib.Core.Path.{subst}
use tiny_kv_distributed_stor.Prelude.Text.{Text, codes}
use tiny_kv_distributed_stor.Prelude.Dict.{find}
use tiny_kv_distributed_stor.Prelude.Int.{ℤ}
use tiny_kv_distributed_stor.Storage.KvStore
use tiny_kv_distributed_stor.Storage.KvStore.{KvStore}
use tiny_kv_distributed_stor.Storage.KvStore.Valid.{
  set_locked-refines, get-refines, del-refines, looked_up,
}
use tiny_kv_distributed_stor.Storage.KvStore.Contents.{incremented, increment_by-incremented}
use tiny_kv_distributed_stor.Storage.ExpiryManager.{TimePoint}
use tiny_kv_distributed_stor.Protocol.Command.{Command}
use tiny_kv_distributed_stor.Protocol.Reply
use tiny_kv_distributed_stor.Protocol.Parser.Tokens.{IsToken}
use tiny_kv_distributed_stor.Recovery.Lines.{IsLine}
use tiny_kv_distributed_stor.Executor.{
  Executor, arity_error, equals_ignore_case, parse_positive_seconds, execute_set_ex, execute_set,
  get_reply, execute_get, zero_or_one, execute_del, execute_ping, increment_reply, execute_incr,
}
use tiny_kv_distributed_stor.Executor.Keeps.{IsValid}
use tiny_kv_distributed_stor.Executor.Words.{
  AreWords, IsWordOrNone, AreWords-erase, find-AreWords, trim-AreWords, to_string-IsToken,
  has_newline, literal-IsLine, error-IsLine, integer-IsLine, bulk-IsLine, ok-IsLine, quoting-IsLine,
}

-- One line for a reply, and a store of words.
pub record Answers (r : Text × Executor) : Type 0 where
  pub line : IsLine r.0
  pub words : AreWords (KvStore.entries r.1.store)

arity_error-IsLine : (cmd : Command) → IsToken cmd.name → IsLine (arity_error cmd)
unfolding arity_error
arity_error-IsLine cmd h =
    quoting-IsLine (codes "wrong number of arguments for '") cmd.name
      (literal-IsLine "wrong number of arguments for '" refl) h

module _ (s : Executor) (h : IsValid s) (w : AreWords (KvStore.entries s.store)) where
  stored-AreWords :
      (k v : Text)
      → IsToken k
      → IsToken v
      → AreWords (KvStore.entries (KvStore.set_locked k v s.store))
  stored-AreWords k v hk hv =
      let (_, _, entries) = set_locked-refines s.store k v h.stored in
      subst AreWords (sym entries)
        (trim-AreWords s.store.capacity _ ((hk, hv), AreWords-erase k (KvStore.entries s.store) w))

  set-AreWords :
      (k v : Text) → IsToken k → IsToken v → AreWords (KvStore.entries (KvStore.set k v s.store))
  unfolding KvStore.set
  set-AreWords k v hk hv = stored-AreWords k v hk hv

  -- The store stays as it is.
  pub same : (reply : Text) (t : Executor) → t.store ≡ s.store → IsLine reply → Answers (reply, t)
  same reply t e line = record { line = line; words = rw e w }

  pub failed : (cmd : Command) → IsToken cmd.name → Answers (arity_error cmd, s)
  failed cmd n = same (arity_error cmd) s refl (arity_error-IsLine cmd n)

  pub refused :
      (message : String)
      → has_newline (codes message) ≡ false
      → Answers (Reply.error (codes message), s)
  refused message clean =
      same (Reply.error (codes message)) s refl
        (error-IsLine (codes message) (literal-IsLine message clean))

  execute_set_ex-Answers :
      (now : TimePoint) (k v : Text) (n : Option ℕ)
      → IsToken k
      → IsToken v
      → Answers (execute_set_ex now k v n s)
  unfolding execute_set_ex
  execute_set_ex-Answers now k v none hk hv = refused "invalid expire time in 'SET' command" refl
  execute_set_ex-Answers now k v (some n) hk hv = record {
    line = ok-IsLine;
    words = set-AreWords k v hk hv;
  }

  pub execute_set-Answers :
      (now : TimePoint) (cmd : Command) (args : List Text)
      → IsToken cmd.name
      → All IsToken args
      → Answers (execute_set now cmd args s)
  unfolding execute_set
  execute_set-Answers now cmd (k ∷ v ∷ []) n a = record {
    line = ok-IsLine;
    words = set-AreWords k v a.0 a.1.0;
  }
  execute_set-Answers now cmd (k ∷ v ∷ o ∷ x ∷ []) n a =
      if_cases Answers (equals_ignore_case o (codes "EX"))
        (λ _. execute_set_ex-Answers now k v (parse_positive_seconds x) a.0 a.1.0)
        (λ _. failed cmd n)
  execute_set-Answers now cmd _ n a = failed cmd n

  got-Answers :
      (o : Option Text) (t : Executor)
      → IsWordOrNone o
      → AreWords (KvStore.entries t.store)
      → Answers (get_reply o t)
  unfolding get_reply Reply.nil
  got-Answers none t v l = record { line = literal-IsLine "$-1" refl; words = l }
  got-Answers (some x) t v l = record { line = bulk-IsLine x v; words = l }

  looked_up-AreWords : (k : Text) → IsToken k → AreWords (looked_up k (KvStore.entries s.store))
  looked_up-AreWords k hk = moved (find k (KvStore.entries s.store)) refl
    where
      moved :
          (o : Option Text)
          → find k (KvStore.entries s.store) ≡ o
          → AreWords (looked_up k (KvStore.entries s.store))
      moved none e = rw (e, looked_up) w
      moved (some v) e =
          rw (e, looked_up)
            (
              (hk, subst IsWordOrNone e (find-AreWords k (KvStore.entries s.store) w)),
              AreWords-erase k (KvStore.entries s.store) w,
            )

  pub execute_get-Answers :
      (cmd : Command) (args : List Text)
      → IsToken cmd.name
      → All IsToken args
      → Answers (execute_get cmd args s)
  unfolding execute_get
  execute_get-Answers cmd (k ∷ []) n a =
      let (_, _, value, entries) = get-refines s.store k h.stored in
      got-Answers (KvStore.get k s.store).0 (record s { store = (KvStore.get k s.store).1 })
        (subst IsWordOrNone (sym value) (find-AreWords k (KvStore.entries s.store) w))
        (subst AreWords (sym entries) (looked_up-AreWords k a.0))
  execute_get-Answers cmd _ n a = failed cmd n

  pub execute_del-Answers :
      (cmd : Command) (args : List Text) → IsToken cmd.name → Answers (execute_del cmd args s)
  unfolding execute_del
  execute_del-Answers cmd (k ∷ []) n =
      let (_, _, _, entries) = del-refines s.store k h.stored in
      record {
        line = integer-IsLine (zero_or_one (KvStore.del k s.store).0);
        words = subst AreWords (sym entries) (AreWords-erase k (KvStore.entries s.store) w);
      }
  execute_del-Answers cmd _ n = failed cmd n

  pub execute_ping-Answers :
      (cmd : Command) (args : List Text) → IsToken cmd.name → Answers (execute_ping cmd args s)
  unfolding execute_ping
  execute_ping-Answers cmd [] n = same Reply.ok s refl ok-IsLine
  execute_ping-Answers cmd (_ ∷ _) n = failed cmd n

  incremented-Answers :
      (k : Text) (delta : ℤ) (o : Option ℤ) (r : Option ℤ × KvStore)
      → IsToken k
      → r ≡ incremented k delta s.store o
      → Answers ((increment_reply r).0, record s { store = (increment_reply r).1 })
  unfolding increment_reply
  incremented-Answers k delta none r hk e =
      rw e (refused "value is not an integer or out of range" refl)
  incremented-Answers k delta (some n) r hk e =
      rw e
        (record { line = integer-IsLine _; words = stored-AreWords k _ hk (to_string-IsToken _) })

  pub execute_incr-Answers :
      (delta : ℤ) (cmd : Command) (args : List Text)
      → IsToken cmd.name
      → All IsToken args
      → Answers (execute_incr delta cmd args s)
  unfolding execute_incr
  execute_incr-Answers delta cmd (k ∷ []) n a =
      incremented-Answers k delta _ _ a.0 (increment_by-incremented s.store k delta h.stored)
  execute_incr-Answers delta cmd _ n a = failed cmd n
