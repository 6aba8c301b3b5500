-- ===== src/Tests/Events.antt =====
-- Events of a server, replicas and links (src/server_main.cpp, src/replication/replica_link.cpp).
use tiny_kv_distributed_stor.Prelude.{
  ◌≤◌, ◌≡◌, ◌≢◌, refl, none, some, List, [], ◌∷◌, ◌++◌, map, length, arith,
}
use tiny_kv_distributed_stor.Prelude.Text.{codes}
use tiny_kv_distributed_stor.Prelude.Dict.{find}
use tiny_kv_distributed_stor.Prelude.Int.{pos}
use tiny_kv_distributed_stor.Storage.KvStore
use tiny_kv_distributed_stor.Storage.KvStore.Valid.{set-refines, init-IsValid}
use tiny_kv_distributed_stor.Storage.KvStore.Contents.{contents}
use tiny_kv_distributed_stor.Storage.ExpiryManager.Sweep.{init-IsValid as expiry-init-IsValid}
use tiny_kv_distributed_stor.Persistence.Files.{save_snapshot}
use tiny_kv_distributed_stor.Replication.Manager.{ServerRole}
use tiny_kv_distributed_stor.Executor.{Executor}
use tiny_kv_distributed_stor.Executor.Keeps.{IsValid}
use tiny_kv_distributed_stor.Recovery.{get_lines}
use tiny_kv_distributed_stor.Recovery.Snapshot.{or_before}
use tiny_kv_distributed_stor.Server.{handle_line, serve, start_sync}
use tiny_kv_distributed_stor.Server.ReadOnly.{IsReadOnly, handle_line-IsReadOnly}
use tiny_kv_distributed_stor.Server.Durable.Restart.{boot, boot-Has}
use tiny_kv_distributed_stor.Server.Events.{Machine, Event, on_event, run}
use tiny_kv_distributed_stor.Server.Events.Invariant.{run_within_capacity}
use tiny_kv_distributed_stor.Server.Events.Race.{called_back_deletes}
use tiny_kv_distributed_stor.Server.Link.{apply_lines, served_lines}
use tiny_kv_distributed_stor.Server.Link.Converges.{resync_overwrites, sync_converges}
use tiny_kv_distributed_stor.Tests.Runs.{
  clock, new_files, requests, serving, serving-IsValid, one_key_unbounded, entries-AreStorable,
}

-- A server for one key.
abbrev limited : Machine
limited = record {
  executor = record (boot new_files) { store = KvStore.init 1 };
  firing = none;
  seconds_since_snapshot = 0;
}

limited-IsValid : IsValid limited.executor
unfolding boot
limited-IsValid = record { stored = (init-IsValid 1).0; scheduled = expiry-init-IsValid }

limited_to_one : limited.executor.store.capacity ≢ 0
unfolding KvStore.init
limited_to_one e = absurd (omega arith)

abbrev events : List Event
events = Event.second_passed ∷ Event.swept (pos 2) ∷ map Event.request requests

run_within_capacity_example :
    (KvStore.size (run events limited).executor.store ≤ limited.executor.store.capacity)
    × (length (KvStore.entries (run events limited).executor.store)
        ≤ limited.executor.store.capacity)
run_within_capacity_example = run_within_capacity events limited limited-IsValid limited_to_one

-- The key `a` between the sweeper's unlock and its callback.
abbrev firing_a : Machine
firing_a = record { executor = serving; firing = some (codes "a"); seconds_since_snapshot = 0 }

abbrev set_again : List Event
set_again = Event.request (record { now = pos 1; fd = 4; line = codes "SET a 9" }) ∷ []

called_back_deletes_example :
    contents (on_event Event.called_back (run set_again firing_a)).executor.store (codes "a") ≡ none
called_back_deletes_example =
    called_back_deletes set_again firing_a (codes "a") serving-IsValid refl (refl, tt)

abbrev replica : Executor
replica = record serving { replication = record serving.replication { role = ServerRole.replica } }

replica-IsValid : IsValid replica
replica-IsValid = record { stored = serving-IsValid.stored; scheduled = serving-IsValid.scheduled }

handle_line-IsReadOnly_example :
    IsReadOnly replica (handle_line (pos 3) 4 (codes "SET a 9") replica)
handle_line-IsReadOnly_example =
    handle_line-IsReadOnly (pos 3) 4 (codes "SET a 9") replica replica-IsValid refl

-- A replica with a key that the primary does not have.
abbrev other_key : Executor
other_key = record (boot new_files) { store = KvStore.set (codes "b") (codes "y") (KvStore.init 0) }

other_key-IsValid : IsValid other_key
unfolding boot
other_key-IsValid = record {
  stored = (set-refines (KvStore.init 0) (codes "b") (codes "y") (init-IsValid 0).0).0;
  scheduled = expiry-init-IsValid;
}

other_key_unbounded : other_key.store.capacity ≡ 0
unfolding KvStore.set KvStore.init find
other_key_unbounded = refl

resync_overwrites_example :
    contents
      (apply_lines clock 0 (get_lines (save_snapshot serving.store)) other_key).store
      (codes "b")
    ≡ or_before (contents serving.store (codes "b")) (contents other_key.store (codes "b"))
resync_overwrites_example =
    resync_overwrites clock 0 serving other_key (codes "b") serving-IsValid entries-AreStorable
      other_key-IsValid other_key_unbounded

sync_converges_example :
    contents
      (apply_lines clock 0
        (get_lines (save_snapshot serving.store)
          ++ served_lines 9 requests (start_sync 9 serving).state)
        (boot new_files)).store
    ≡ contents (serve requests (start_sync 9 serving).state).store
unfolding boot tiny_kv_distributed_stor.Replication.Manager.init
sync_converges_example =
    sync_converges clock 0 9 serving (boot new_files) requests serving-IsValid one_key_unbounded
      entries-AreStorable refl
      (λ e. absurd (omega arith), (λ e. absurd (omega arith), (λ e. absurd (omega arith), tt)))
      (boot-Has new_files)
