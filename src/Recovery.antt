-- ===== src/Recovery.antt =====
-- Reading the files back through the executor: `replayLines` (src/persistence/replay.cpp),
-- `AofLoader::replay` (aof.cpp), `SnapshotManager::load` and `loadFromFile` (snapshot.cpp) and
-- `PersistenceManager::recover` (persistence_manager.cpp). `clock` gives the steady clock's reading
-- at each line that is replayed, by the line's number.
pub mod Lines
pub mod Values
pub mod Snapshot
use tiny_kv_distributed_stor.Prelude.{
  ℕ, suc, Bool, true, false, Option, none, some, List, [], ◌∷◌, ◌++◌, ◌==◌, if◌then◌else◌, length,
}
use tiny_kv_distributed_stor.Prelude.Text.{Text}
use tiny_kv_distributed_stor.Storage.ExpiryManager.{TimePoint}
use tiny_kv_distributed_stor.Protocol.Command.{Command}
use tiny_kv_distributed_stor.Protocol.Parser.{ParseResult, parsed, protocol_error, parse}
use tiny_kv_distributed_stor.Persistence.Manager.{PersistenceManager}
use tiny_kv_distributed_stor.Executor.{Executor, execute}

abbrev pub add_last : Text → List Text
add_last [] = []
add_last (c ∷ line) = (c ∷ line) ∷ []

-- `std::getline`, over and over: the lines that '\n' ends, and what follows the last '\n', if
-- anything does. The first argument is the part of the line that was read.
unfoldable pub lines_from : Text → Text → List Text
lines_from line [] = add_last line
lines_from line (c ∷ s) = elim (c == 10) [
  | true ↦ line ∷ lines_from [] s
  | false ↦ lines_from (line ++ c ∷ []) s
]

unfoldable pub get_lines : Text → List Text
unfolding lines_from
get_lines content = lines_from [] content

abbrev pub executed : TimePoint → ParseResult → Executor → Executor
executed now (parsed cmd) ex = (execute now cmd ex).1
executed now (protocol_error message) ex = ex

-- The body of the loop of `replayLines`: an empty line is passed over, and so is one that does not
-- parse.
unfoldable pub replay_line : TimePoint → Text → Executor → Executor
replay_line now [] ex = ex
replay_line now (c ∷ line) ex = executed now (parse (c ∷ line)) ex

unfoldable pub replay_all : (ℕ → TimePoint) → ℕ → List Text → Executor → Executor
unfolding replay_line
replay_all clock i [] ex = ex
replay_all clock i (line ∷ lines) ex =
    replay_all clock (suc i) lines (replay_line (clock i) line ex)

unfoldable pub replay_lines : (ℕ → TimePoint) → Text → Executor → Executor
unfolding replay_all get_lines
replay_lines clock content ex = replay_all clock 0 (get_lines content) ex

-- `loadFromFile` and `AofLoader::replay`: false, and nothing done, where there is no file.
unfoldable pub load_from_file : (ℕ → TimePoint) → Option Text → Executor → Bool × Executor
unfolding replay_lines
load_from_file clock none ex = (false, ex)
load_from_file clock (some content) ex = (true, replay_lines clock content ex)

-- The snapshot first, then the AOF, if there is to be one. The constructor has created the AOF.
unfoldable pub recover : (ℕ → TimePoint) → (ℕ → TimePoint) → Executor → Executor
unfolding load_from_file
recover snapshot_clock aof_clock ex =
    let (_, loaded) = load_from_file snapshot_clock ex.persistence.snapshot ex in
    if ex.persistence.append_only
    then (load_from_file aof_clock (some ex.persistence.aof_writer.on_disk) loaded).1
    else loaded
