-- ===== src/Server/Durable/Save.antt =====
-- SAVE of src/server_main.cpp's server, and the restart after it.
use mathlib.Core.List.{append-nil}
use mathlib.Core.Path.{subst}
use tiny_kv_distributed_stor.Prelude.{
  ℕ, ◌≡◌, refl, sym, ◌∙◌, true, false, none, some, List, [], All, arith,
}
use tiny_kv_distributed_stor.Storage.KvStore
use tiny_kv_distributed_stor.Storage.KvStore.Valid.{IsValid as StoreIsValid}
use tiny_kv_distributed_stor.Storage.KvStore.Contents.{contents}
use tiny_kv_distributed_stor.Storage.ExpiryManager.{TimePoint}
use tiny_kv_distributed_stor.Persistence.Files.{flush, save_snapshot}
use tiny_kv_distributed_stor.Persistence.Manager
use tiny_kv_distributed_stor.Persistence.Manager.{PersistenceManager}
use tiny_kv_distributed_stor.Executor.{Executor}
use tiny_kv_distributed_stor.Executor.Keeps.{IsValid}
use tiny_kv_distributed_stor.Recovery.{load_from_file, recover}
use tiny_kv_distributed_stor.Recovery.Values.{lines_effect}
use tiny_kv_distributed_stor.Recovery.Snapshot.{no_values, Storable, snapshot_restores}
use tiny_kv_distributed_stor.Server.{Request, serve}
use tiny_kv_distributed_stor.Server.Durable.Step.{Journal, Logged}
use tiny_kv_distributed_stor.Server.Durable.Restart.{
  boot, shut_down, Loads, Loads-none, recover-Has, served-restart,
}

-- A snapshot of a valid store gives the store's values.
pub Loads-save_snapshot :
    (store : KvStore.KvStore)
    → StoreIsValid store
    → All Storable (KvStore.entries store)
    → Loads (contents store) (some (save_snapshot store))
unfolding load_from_file
Loads-save_snapshot store v storable clock ex fresh =
    snapshot_restores clock store ex v storable fresh

-- SAVE where both files can be written: from then on the new snapshot and the empty AOF hold the
-- values, if each entry is two words and its snapshot line is within the parser's limit.
pub save-Journal :
    (s : Executor)
    → IsValid s
    → s.store.capacity ≡ 0
    → s.persistence.append_only ≡ true
    → s.persistence.can_write_snapshot ≡ true
    → s.persistence.aof_writer.can_open ≡ true
    → s.persistence.aof_writer.is_open ≡ true
    → All Storable (KvStore.entries s.store)
    → Journal
        (contents s.store)
        (some (save_snapshot s.store))
        (record s { persistence = Manager.save s.store s.persistence })
      × Loads (contents s.store) (some (save_snapshot s.store))
save-Journal s v unbounded logging writable can_open opened storable = (
  record {
    lines = [];
    has =
        unfold lines_effect in
        record {
          valid = record { stored = v.stored; scheduled = v.scheduled };
          unbounded = unbounded;
          values = refl;
        };
    written = unfold Manager.save in ground (arith, writable, can_open, opened);
    are_lines = tt;
    logging = unfold Manager.save in ground (arith, writable, logging);
    opened = unfold Manager.save in ground (arith, writable, can_open);
    kept = unfold Manager.save in ground (arith, writable);
  },
  Loads-save_snapshot s.store v.stored storable,
)

save-files :
    (store : KvStore.KvStore) (p : PersistenceManager)
    → p.can_write_snapshot ≡ false
    → p.aof_writer.can_open ≡ true
    → p.aof_writer.is_open ≡ true
    → ((Manager.save store p).append_only ≡ p.append_only)
      × ((Manager.save store p).snapshot ≡ p.snapshot)
      × ((flush (Manager.save store p).aof_writer).on_disk ≡ [])
unfolding Manager.save
save-files store p unwritable can_open opened = (
  ground (arith, unwritable, can_open),
  ground (arith, unwritable, can_open),
  ground (arith, unwritable, can_open, opened, append-nil {A = ℕ} []),
)

emptied_files :
    (c d : ℕ → TimePoint) (s : Executor) (files : PersistenceManager)
    → files.append_only ≡ true
    → Loads no_values files.snapshot
    → (flush files.aof_writer).on_disk ≡ []
    → contents (recover c d (boot (shut_down (record s { persistence = files })))).store ≡ no_values
unfolding lines_effect shut_down
emptied_files c d s files logging loads emptied =
    (recover-Has c d no_values [] (shut_down (record s { persistence = files })) logging loads tt
      emptied).values

-- After a SAVE whose two files can be written, in a valid server without a capacity limit whose AOF
-- is on and open and whose entries are each two words with a snapshot line within the parser's
-- limit, any lines but another SAVE are served while no key expires. Then an orderly end and a
-- restart give every key the value that it had.
pub save_restores :
    (c d : ℕ → TimePoint) (s : Executor) (requests : List Request)
    → IsValid s
    → s.store.capacity ≡ 0
    → s.persistence.append_only ≡ true
    → s.persistence.can_write_snapshot ≡ true
    → s.persistence.aof_writer.can_open ≡ true
    → s.persistence.aof_writer.is_open ≡ true
    → All Storable (KvStore.entries s.store)
    → All Logged requests
    → contents
        (recover c d (
          boot (
            shut_down (
              serve requests
                (record s { persistence = Manager.save s.store s.persistence }))))).store
      ≡ contents
          (serve requests (record s { persistence = Manager.save s.store s.persistence })).store
save_restores c d s requests v unbounded logging writable can_open opened storable logged =
    let (j, loads) = save-Journal s v unbounded logging writable can_open opened storable in
    served-restart c d (contents s.store) (some (save_snapshot s.store)) requests _ logged j loads

-- SAVE where the snapshot file cannot be written and does not exist, and the AOF can be opened:
-- the AOF is emptied all the same, so after a restart the server has no values at all.
pub save_unwritable :
    (c d : ℕ → TimePoint) (s : Executor)
    → s.persistence.append_only ≡ true
    → s.persistence.can_write_snapshot ≡ false
    → s.persistence.aof_writer.can_open ≡ true
    → s.persistence.aof_writer.is_open ≡ true
    → s.persistence.snapshot ≡ none
    → contents
        (recover c d
          (boot (shut_down (record s { persistence = Manager.save s.store s.persistence })))).store
      ≡ no_values
save_unwritable c d s logging unwritable can_open opened missing =
    let (append_only, snapshot, emptied) =
      save-files s.store s.persistence unwritable can_open opened in
    emptied_files c d s (Manager.save s.store s.persistence) (append_only ∙ logging)
      (subst (Loads no_values) (sym (snapshot ∙ missing)) Loads-none) emptied
