-- ===== src/Tests/Overlaps.antt =====
-- A SYNC inside a write and requests inside a save (src/server_main.cpp,
-- src/persistence/persistence_manager.cpp).
use tiny_kv_distributed_stor.Prelude.{◌≡◌, refl, true, [], ◌∷◌, ◌++◌, arith, All, ◌&&◌}
use tiny_kv_distributed_stor.Prelude.Text.{codes, text_eq}
use tiny_kv_distributed_stor.Prelude.Dict.{find, insert}
use tiny_kv_distributed_stor.Prelude.Int.{pos, ◌+ℤ◌}
use tiny_kv_distributed_stor.Storage.KvStore
use tiny_kv_distributed_stor.Storage.KvStore.Valid.{set-refines, init-IsValid}
use tiny_kv_distributed_stor.Storage.KvStore.Contents.{contents}
use tiny_kv_distributed_stor.Storage.ExpiryManager.Sweep.{init-IsValid as expiry-init-IsValid}
use tiny_kv_distributed_stor.Persistence.Files.{open_aof}
use tiny_kv_distributed_stor.Replication.Manager.{ServerRole}
use tiny_kv_distributed_stor.Executor.{Executor}
use tiny_kv_distributed_stor.Executor.Keeps.{IsValid}
use tiny_kv_distributed_stor.Recovery.{get_lines}
use tiny_kv_distributed_stor.Server.{serve}
use tiny_kv_distributed_stor.Server.Durable.Restart.{boot, boot-Has}
use tiny_kv_distributed_stor.Server.{succeeded}
use tiny_kv_distributed_stor.Server.Link.{apply_lines}
use tiny_kv_distributed_stor.Server.Link.Overlap.{overlapped, overlapped_twice}
use tiny_kv_distributed_stor.Storage.KvStore.Nodes.{deref, splice, set_value, unlink}
use tiny_kv_distributed_stor.Prelude.Decimal.{stoll, to_string, wrap64}
use tiny_kv_distributed_stor.Protocol.Reply
use tiny_kv_distributed_stor.Protocol.Command.{Command, CommandType, is_write_command}
use tiny_kv_distributed_stor.Protocol.Parser.{parse, parsed}
use tiny_kv_distributed_stor.Executor.{execute, dispatch, execute_incr, increment_reply, next_count}
use tiny_kv_distributed_stor.Recovery.Snapshot.{Storable}
use tiny_kv_distributed_stor.Recovery.Values.{line_effect}
use tiny_kv_distributed_stor.Tests.Runs.{
  requests-AreLogged, clock, new_files, requests, serving, serving-IsValid, one_key_unbounded,
  entries-AreStorable,
}
use tiny_kv_distributed_stor.Recovery.{recover}
use tiny_kv_distributed_stor.Recovery.Values.{lines_effect}
use tiny_kv_distributed_stor.Server.Durable.Step.{Journal}
use tiny_kv_distributed_stor.Server.Durable.Restart.{shut_down}
use tiny_kv_distributed_stor.Server.Durable.Overlap.{begin_save, save_around, save_around_loses}

-- INCR of a key with the number 5, and a SYNC after its execution.
abbrev counter : Executor
counter = record (boot new_files) { store = KvStore.set (codes "a") (codes "5") (KvStore.init 0) }

counter-IsValid : IsValid counter
unfolding boot
counter-IsValid = record {
  stored = (set-refines (KvStore.init 0) (codes "a") (codes "5") (init-IsValid 0).0).0;
  scheduled = expiry-init-IsValid;
}

counter_unbounded : counter.store.capacity ≡ 0
unfolding KvStore.set KvStore.init find
counter_unbounded = refl

abbrev incr_a : Command
incr_a = record { type = CommandType.incr; name = codes "INCR"; args = codes "a" ∷ [] }

incr_a-parse : parse (codes "INCR a") ≡ parsed incr_a
unfolding parse text_eq
incr_a-parse = refl

incr_a_wrote : (succeeded (execute (pos 1) incr_a counter).0 && is_write_command incr_a.type) ≡ true
unfolding boot KvStore.set KvStore.init KvStore.current KvStore.increment_by find insert text_eq
    execute dispatch execute_incr increment_reply next_count stoll to_string Reply.integer deref
    is_write_command
incr_a_wrote = refl

counted-AreStorable : All Storable (KvStore.entries (execute (pos 1) incr_a counter).1.store)
unfolding boot KvStore.set KvStore.init KvStore.current KvStore.increment_by KvStore.entries find
    insert text_eq execute dispatch execute_incr increment_reply next_count stoll to_string deref
    splice set_value wrap64 ◌+ℤ◌ unlink
counted-AreStorable = (((refl, tt), (refl, tt), omega arith), tt)

overlapped_twice_example :
    (contents (overlapped 9 (pos 1) incr_a (codes "INCR a") counter).primary.store
      ≡ line_effect (codes "INCR a") (contents counter.store))
    × (contents
          (apply_lines clock 0
            (get_lines (overlapped 9 (pos 1) incr_a (codes "INCR a") counter).dump
              ++ (overlapped 9 (pos 1) incr_a (codes "INCR a") counter).live)
            (boot new_files)).store
        ≡ line_effect (codes "INCR a") (line_effect (codes "INCR a") (contents counter.store)))
unfolding boot tiny_kv_distributed_stor.Replication.Manager.init
overlapped_twice_example =
    overlapped_twice clock 0 9 (pos 1) incr_a (codes "INCR a") counter (boot new_files)
      counter-IsValid counter_unbounded incr_a-parse incr_a_wrote counted-AreStorable refl
      (boot-Has new_files)

serving-Journal : Journal (contents serving.store) serving.persistence.snapshot serving
unfolding boot lines_effect
serving-Journal = record {
  lines = [];
  has = record { valid = serving-IsValid; unbounded = one_key_unbounded; values = refl };
  written = unfold open_aof in refl;
  are_lines = tt;
  logging = refl;
  opened = unfold open_aof in refl;
  kept = refl;
}

save_around_loses_example :
    (contents (save_around requests serving).store
      ≡ contents (serve requests (begin_save serving)).store)
    × (contents (recover clock clock (boot (shut_down (save_around requests serving)))).store
        ≡ contents serving.store)
unfolding boot open_aof
save_around_loses_example =
    save_around_loses clock clock (contents serving.store) serving requests serving-Journal refl
      refl entries-AreStorable requests-AreLogged
