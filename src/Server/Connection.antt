-- ===== src/Server/Connection.antt =====
-- `handleConnection` and `handleSyncConnection` of src/server_main.cpp over a connection's socket:
-- the loop that reads lines, serves them and writes the replies, while nothing else happens to the
-- server. Each round of a loop takes one step of fuel.
pub mod Ends
pub mod Serves
pub mod Answers
use tiny_kv_distributed_stor.Prelude.{
  ℕ, zero, suc, Bool, true, false, Option, none, some, List, [], ◌∷◌, ◌++◌,
}
use tiny_kv_distributed_stor.Prelude.Text.{Text}
use tiny_kv_distributed_stor.Storage.ExpiryManager.{TimePoint}
use tiny_kv_distributed_stor.Executor.{Executor}
use tiny_kv_distributed_stor.Net.LineProtocol.{read_line, write_line}
use tiny_kv_distributed_stor.Net.TcpClient.{Socket, write_raw}
use tiny_kv_distributed_stor.Server.{
  Outcome, skipped, replied, became_replica, handle_line, end_sync,
}

-- `buffer` is the line reader's, and `to_replicas` is what was sent to replicas, each line beside
-- its socket.
pub record Connection : Type 0 where
  pub socket : Socket
  pub buffer : Text
  pub to_replicas : List (ℕ × Text)
  pub server : Executor

-- `while (reader.readLine(clientFd, line)) {}`: what it leaves unread.
unfoldable pub drain : ℕ → Text → List Text → Option (List Text)
unfolding read_line
drain zero buffer chunks = none
drain (suc fuel) buffer chunks = elim (read_line buffer chunks).0 [
  | none ↦ some (read_line buffer chunks).2
  | some line ↦ drain fuel (read_line buffer chunks).1 (read_line buffer chunks).2
]

abbrev pub disconnect : ℕ → Socket → Connection → Connection
disconnect fd socket c = record c { socket = socket; server = end_sync fd c.server }

abbrev pub drained : ℕ → Socket → Connection → Option (List Text) → Option Connection
drained fd socket c none = none
drained fd socket c (some chunks) = some (disconnect fd (record socket { incoming = chunks }) c)

-- The rest of `handleSyncConnection`, once the replica is registered: the dump, then a new line
-- reader, whose lines are discarded.
unfoldable pub stream : ℕ → ℕ → Text → Connection → Option Connection
unfolding drain write_raw
stream fd fuel dump c = elim (write_raw dump c.socket).0 [
  | false ↦ some (disconnect fd (write_raw dump c.socket).1 c)
  | true ↦
      drained fd (write_raw dump c.socket).1 c (drain fuel [] (write_raw dump c.socket).1.incoming)
]

-- The connection once a line is read and served, but not answered.
unfoldable pub served_line : TimePoint → ℕ → Text → Connection → Connection
unfolding read_line handle_line
served_line now fd line c = record {
  socket = record c.socket { incoming = (read_line c.buffer c.socket.incoming).2 };
  buffer = (read_line c.buffer c.socket.incoming).1;
  to_replicas = c.to_replicas ++ (handle_line now fd line c.server).sent;
  server = (handle_line now fd line c.server).state;
}

-- A connection at whose end `readLine` fails.
unfoldable pub after_last_line : Connection → Connection
unfolding read_line
after_last_line c = record c {
  socket = record c.socket { incoming = (read_line c.buffer c.socket.incoming).2 };
  buffer = (read_line c.buffer c.socket.incoming).1;
}

abbrev pub written : Text → Connection → Connection
written reply c = record c { socket = (write_raw (write_line reply) c.socket).1 }

-- `clock` gives the time at which a line is served, by the number of lines before it. No result is
-- where the fuel ran out.
unfoldable pub handle_connection : (ℕ → TimePoint) → ℕ → ℕ → ℕ → Connection → Option Connection
unfolding read_line handle_line served_line after_last_line stream write_raw write_line
handle_connection clock fd zero i c = none
handle_connection clock fd (suc fuel) i c = elim (read_line c.buffer c.socket.incoming).0 [
  | none ↦ some (after_last_line c)
  | some line ↦ elim (handle_line (clock i) fd line c.server).outcome [
    | skipped ↦ handle_connection clock fd fuel (suc i) (served_line (clock i) fd line c)
    | replied reply ↦
        elim (write_raw (write_line reply) (served_line (clock i) fd line c).socket).0 [
          | false ↦ some (written reply (served_line (clock i) fd line c))
          | true ↦
              handle_connection clock fd fuel (suc i)
                (written reply (served_line (clock i) fd line c))
        ]
    | became_replica dump ↦ stream fd fuel dump (served_line (clock i) fd line c)
  ]
]
