-- ===== src/Tests/Runs.antt =====
-- Commands, files and restarts of a server (src/command_executor.cpp, src/server_main.cpp,
-- src/persistence).
use tiny_kv_distributed_stor.Prelude.{ℕ, ◌≡◌, refl, true, false, none, List, [], ◌∷◌, All, arith}
use tiny_kv_distributed_stor.Prelude.Text.{codes, text_eq}
use tiny_kv_distributed_stor.Prelude.Dict.{find, insert}
use tiny_kv_distributed_stor.Prelude.Int.{pos}
use tiny_kv_distributed_stor.Storage.KvStore
use tiny_kv_distributed_stor.Storage.KvStore.Nodes.{deref}
use tiny_kv_distributed_stor.Prelude.Decimal.{stoll}
use tiny_kv_distributed_stor.Protocol.Reply
use tiny_kv_distributed_stor.Storage.KvStore.Valid.{
  IsValid as StoreIsValid, set-refines, init-IsValid,
}
use tiny_kv_distributed_stor.Storage.KvStore.Contents.{contents}
use tiny_kv_distributed_stor.Storage.ExpiryManager.{TimePoint}
use tiny_kv_distributed_stor.Storage.ExpiryManager.Sweep.{init-IsValid as expiry-init-IsValid}
use tiny_kv_distributed_stor.Protocol.Command.{Command, CommandType}
use tiny_kv_distributed_stor.Protocol.Parser.{
  command_of, command_type_from_name, parse, to_upper, to_upper_char, tokenize, tokens_from,
  upper_name_type,
}
use tiny_kv_distributed_stor.Persistence.Files.{open_aof, save_snapshot}
use tiny_kv_distributed_stor.Persistence.Manager
use tiny_kv_distributed_stor.Persistence.Manager.{PersistenceManager}
use tiny_kv_distributed_stor.Executor.{
  Executor, dispatch, execute, execute_incr, increment_reply, next_count,
}
use tiny_kv_distributed_stor.Executor.Keeps.{IsValid}
use tiny_kv_distributed_stor.Executor.Effect.{effect, execute-effect}
use tiny_kv_distributed_stor.Executor.Errors.{SameData, execute-ErrorKeeps}
use tiny_kv_distributed_stor.Recovery.{recover, replay_all, replay_lines}
use tiny_kv_distributed_stor.Recovery.Values.{Has, lines_effect, replay_all-Has}
use tiny_kv_distributed_stor.Recovery.Snapshot.{no_values, Storable, snapshot_restores}
use tiny_kv_distributed_stor.Server.{Request, serve}
use tiny_kv_distributed_stor.Server.Durable.Step.{Logged}
use tiny_kv_distributed_stor.Server.Durable.Restart.{IsNew, boot, shut_down, boot-Has}
use tiny_kv_distributed_stor.Server.Durable.Save.{save_restores, save_unwritable}

abbrev pub clock : ℕ → TimePoint
clock i = pos i

abbrev pub new_files : PersistenceManager
new_files = record {
  append_only = true;
  save_interval_seconds = 300;
  can_write_snapshot = true;
  snapshot = none;
  aof_writer = record { can_open = true; is_open = true; on_disk = []; buffered = [] };
}

pub new_files-IsNew : IsNew new_files
new_files-IsNew = record { logging = refl; can_open = refl; empty_aof = refl; no_snapshot = refl }

abbrev pub requests : List Request
requests =
    record { now = pos 1; fd = 4; line = codes "SET a 7" }
    ∷ record { now = pos 2; fd = 5; line = codes "INCR a" }
    ∷ record { now = pos 3; fd = 4; line = codes "BAD" }
    ∷ []

pub requests-AreLogged : All Logged requests
unfolding parse tokenize tokens_from command_of command_type_from_name upper_name_type to_upper
    to_upper_char text_eq
requests-AreLogged = (
  ((refl, (refl, (refl, (refl, (refl, (refl, (refl, tt))))))), refl),
  (
    ((refl, (refl, (refl, (refl, (refl, (refl, tt)))))), refl),
    (((refl, (refl, (refl, tt))), refl), tt),
  ),
)

-- A server that has the key `a`, and the files of a new one.
abbrev pub one_key : KvStore.KvStore
one_key = KvStore.set (codes "a") (codes "x") (KvStore.init 0)

abbrev pub serving : Executor
serving = record (boot new_files) { store = one_key }

pub one_key-IsValid : StoreIsValid one_key
one_key-IsValid = (set-refines (KvStore.init 0) (codes "a") (codes "x") (init-IsValid 0).0).0

pub serving-IsValid : IsValid serving
unfolding boot
serving-IsValid = record { stored = one_key-IsValid; scheduled = expiry-init-IsValid }

pub one_key_unbounded : one_key.capacity ≡ 0
unfolding KvStore.set KvStore.init find
one_key_unbounded = refl

pub entries-AreStorable : All Storable (KvStore.entries one_key)
unfolding KvStore.set KvStore.init KvStore.entries find insert
entries-AreStorable = (((refl, tt), (refl, tt), omega arith), tt)

save_restores_example :
    contents
      (recover clock clock (
        boot (
          shut_down (
            serve requests (record serving {
              persistence = Manager.save serving.store serving.persistence;
            }))))).store
    ≡ contents
        (serve requests
          (record serving { persistence = Manager.save serving.store serving.persistence })).store
unfolding boot open_aof
save_restores_example =
    save_restores clock clock serving requests serving-IsValid one_key_unbounded refl refl refl refl
      entries-AreStorable requests-AreLogged

abbrev unwritable : Executor
unwritable = record serving {
  persistence = record (boot new_files).persistence { can_write_snapshot = false };
}

save_unwritable_example :
    contents
      (recover clock clock (
        boot (
          shut_down (record unwritable {
            persistence = Manager.save unwritable.store unwritable.persistence;
          })))).store
    ≡ no_values
unfolding boot open_aof
save_unwritable_example = save_unwritable clock clock unwritable refl refl refl refl refl

snapshot_restores_example :
    Has (contents one_key) (replay_lines clock (save_snapshot one_key) (boot new_files))
snapshot_restores_example =
    snapshot_restores clock one_key (boot new_files) one_key-IsValid entries-AreStorable
      (boot-Has new_files)

replay_all-Has_example :
    Has
      (lines_effect (codes "SET a 7" ∷ codes "INCR a" ∷ []) no_values)
      (replay_all clock 0 (codes "SET a 7" ∷ codes "INCR a" ∷ []) (boot new_files))
replay_all-Has_example =
    replay_all-Has clock 0 (codes "SET a 7" ∷ codes "INCR a" ∷ []) no_values (boot new_files)
      (boot-Has new_files)

-- `INCR` of a value that is no number.
abbrev incr : Command
incr = record { type = CommandType.incr; name = codes "INCR"; args = codes "a" ∷ [] }

execute-effect_example :
    contents (execute (pos 1) incr serving).1.store
    ≡ effect incr.type incr.args (contents serving.store)
execute-effect_example = execute-effect (pos 1) incr serving serving-IsValid one_key_unbounded

execute-ErrorKeeps_example : SameData serving (execute (pos 1) incr serving).1
unfolding boot KvStore.set KvStore.init KvStore.current KvStore.increment_by find insert text_eq
    execute dispatch execute_incr increment_reply next_count stoll Reply.error deref
execute-ErrorKeeps_example = execute-ErrorKeeps (pos 1) incr serving serving-IsValid refl
