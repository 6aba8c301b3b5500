-- ===== src/Persistence/Files.antt =====
-- `AofWriter` (src/persistence/aof.cpp) and `SnapshotManager::save` (src/persistence/snapshot.cpp).
-- A file is its bytes. Whether a file can be opened for writing is up to the file system: the
-- answer is a field, which the program cannot change.
use tiny_kv_distributed_stor.Prelude.{Bool, true, false, List, [], ◌∷◌, ◌++◌, if◌then◌else◌}
use tiny_kv_distributed_stor.Prelude.Text.{Text, codes}
use tiny_kv_distributed_stor.Storage.KvStore.{KvStore, entries}

-- `buffered` is what the stream holds back until a flush.
pub record AofWriter : Type 0 where
  pub can_open : Bool
  pub is_open : Bool
  pub on_disk : Text
  pub buffered : Text

-- The constructor opens the file at its end, and creates it where it does not exist.
unfoldable pub open_aof : Bool → Text → AofWriter
open_aof can_open content = record {
  can_open = can_open;
  is_open = can_open;
  on_disk = content;
  buffered = [];
}

unfoldable pub append : Text → AofWriter → AofWriter
append line w = if w.is_open then record w { buffered = w.buffered ++ (line ++ 10 ∷ []) } else w

unfoldable pub flush : AofWriter → AofWriter
flush w = if w.is_open then record w { on_disk = w.on_disk ++ w.buffered; buffered = [] } else w

-- `file_.close()`, which writes the buffer out, then `file_.open(path_, std::ios::trunc)`.
unfoldable pub reset : AofWriter → AofWriter
unfolding flush
reset w =
    let closed = flush w in
    if w.can_open
    then record closed { is_open = true; on_disk = [] }
    else record closed { is_open = false }

-- All that was appended since the last reset, on disk or not.
abbrev pub aof_content : AofWriter → Text
aof_content w = w.on_disk ++ w.buffered

-- One line of a snapshot: `out << "SET " << key << " " << value << "\n"`.
unfoldable pub snapshot_line : Text × Text → Text
snapshot_line (key, value) = codes "SET " ++ (key ++ (codes " " ++ (value ++ codes "\n")))

-- `forEach` with the writing callback.
unfoldable pub save_entries : List (Text × Text) → Text
unfolding snapshot_line
save_entries [] = []
save_entries (entry ∷ rest) = snapshot_line entry ++ save_entries rest

-- `SnapshotManager::save`
unfoldable pub save_snapshot : KvStore → Text
unfolding save_entries entries
save_snapshot store = save_entries (entries store)
