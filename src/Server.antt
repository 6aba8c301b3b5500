-- ===== src/Server.antt =====
-- The connection handler of `tinykv-server` (src/server_main.cpp): what one request line, and one
-- line from this server's own primary, does to the server. Writes to sockets are returned: the
-- reply to the client, and lines or a dump to replicas, each beside its socket.
pub mod Durable
pub mod Events
pub mod ReadOnly
pub mod Framing
pub mod Conversation
pub mod Connection
pub mod Link
use tiny_kv_distributed_stor.Prelude.{
  ℕ, not, ◌&&◌, Bool, true, false, Option, none, some, List, [], ◌∷◌, ◌++◌, ◌==◌, if◌then◌else◌,
}
use tiny_kv_distributed_stor.Prelude.Text.{Text}
use tiny_kv_distributed_stor.Storage.ExpiryManager
use tiny_kv_distributed_stor.Storage.ExpiryManager.{TimePoint, ExpiryManager}
use tiny_kv_distributed_stor.Storage.KvStore
use tiny_kv_distributed_stor.Protocol.Command.{Command, CommandType, is_write_command}
use tiny_kv_distributed_stor.Protocol.Parser.{ParseResult, parsed, protocol_error, parse}
use tiny_kv_distributed_stor.Protocol.Reply
use tiny_kv_distributed_stor.Persistence.Files.{save_snapshot}
use tiny_kv_distributed_stor.Persistence.Manager.{record_write}
use tiny_kv_distributed_stor.Replication.Registry.{ReplicaRegistry, add, remove, propagate}
use tiny_kv_distributed_stor.Replication.Manager.{ServerRole, ReplicationManager}
use tiny_kv_distributed_stor.Executor.{Executor, execute}

-- `skipped` writes nothing to the client, and `became_replica` turns the connection into a replica
-- stream that begins with a dump of the dataset.
pub data Outcome : Type 0 where
  skipped : Outcome
  replied : Text → Outcome
  became_replica : Text → Outcome

pub record Served : Type 0 where
  pub outcome : Outcome
  pub sent : List (ℕ × Text)
  pub state : Executor

abbrev pub succeeded : Text → Bool
succeeded [] = false
succeeded (c ∷ response) = not (c == b'-')

-- `recordAndPropagateIfWrite`
unfoldable pub record_and_propagate_if_write :
    Command → Text → Text → Executor → List (ℕ × Text) × Executor
record_and_propagate_if_write cmd line response s =
    if succeeded response && is_write_command cmd.type
    then (
      propagate line s.replication.registry,
      record s { persistence = record_write line s.persistence },
    )
    else ([], s)

-- The executor's answer to a command, then its record.
unfoldable pub execute_and_record :
    TimePoint → Command → Text → Executor → Text × List (ℕ × Text) × Executor
unfolding record_and_propagate_if_write
execute_and_record now cmd line s =
    let (response, s') = execute now cmd s in
    let (sent, s'') = record_and_propagate_if_write cmd line response s' in (response, sent, s'')

-- The start of `handleSyncConnection`: register, then dump.
unfoldable pub start_sync : ℕ → Executor → Served
start_sync fd s = record {
  outcome = became_replica (save_snapshot s.store);
  sent = [];
  state = record s {
    replication = record s.replication { registry = add fd s.replication.registry };
  };
}

-- Its end, when the replica has disconnected.
unfoldable pub end_sync : ℕ → Executor → Executor
end_sync fd s = record s {
  replication = record s.replication { registry = remove fd s.replication.registry };
}

abbrev pub is_sync : CommandType → Bool
is_sync CommandType.sync = true
is_sync _ = false

abbrev pub is_replica : ServerRole → Bool
is_replica ServerRole.replica = true
is_replica ServerRole.primary = false

unfoldable pub handle_command : TimePoint → ℕ → Command → Text → Executor → Served
unfolding start_sync execute_and_record
handle_command now fd cmd line s =
    if is_sync cmd.type
    then start_sync fd s
    else if is_write_command cmd.type && is_replica s.replication.role
    then record { outcome = replied Reply.read_only_error; sent = []; state = s }
    else (let (response, sent, s') = execute_and_record now cmd line s in
        record { outcome = replied response; sent = sent; state = s' })

unfoldable pub handle_parsed : TimePoint → ℕ → ParseResult → Text → Executor → Served
unfolding handle_command
handle_parsed now fd (parsed cmd) line s = handle_command now fd cmd line s
handle_parsed now fd (protocol_error message) line s = record {
  outcome = replied (Reply.error message);
  sent = [];
  state = s;
}

-- One round of the loop of `handleConnection`.
unfoldable pub handle_line : TimePoint → ℕ → Text → Executor → Served
unfolding handle_parsed
handle_line now fd [] s = record { outcome = skipped; sent = []; state = s }
handle_line now fd (c ∷ line) s = handle_parsed now fd (parse (c ∷ line)) (c ∷ line) s

-- The apply callback of `main`, for a line from this server's primary.
unfoldable pub apply_parsed : TimePoint → ParseResult → Text → Executor → List (ℕ × Text) × Executor
unfolding execute_and_record
apply_parsed now (parsed cmd) line s =
    let (_, sent, s') = execute_and_record now cmd line s in (sent, s')
apply_parsed now (protocol_error message) line s = ([], s)

unfoldable pub apply_replicated : TimePoint → Text → Executor → List (ℕ × Text) × Executor
unfolding apply_parsed
apply_replicated now line s = apply_parsed now (parse line) line s

-- The callback that `main` hands to the sweeper.
unfoldable pub on_expire : Text → Executor → Executor
on_expire key s = record s { store = (KvStore.del key s.store).1 }

-- A request: when it is served, the client's socket, and its line.
pub record Request : Type 0 where
  pub now : TimePoint
  pub fd : ℕ
  pub line : Text

-- The requests of all connections, in the order in which they are served.
unfoldable pub serve : List Request → Executor → Executor
unfolding handle_line
serve [] s = s
serve (r ∷ requests) s = serve requests (handle_line r.now r.fd r.line s).state
