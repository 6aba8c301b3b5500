-- ===== src/Lib.antt =====
-- TinyKV, a key-value server with least-recently-used eviction, expiring keys, an append-only file
-- (AOF), snapshots, replication and sharding by consistent hashing.
--
-- A client's line goes from the connection handler (src/server_main.cpp) through the parser
-- (src/protocol) to the executor (src/command_executor.cpp), which changes the store and the expiry
-- manager (src/storage). A write that succeeded is appended to the AOF (src/persistence) and sent to
-- the replicas (src/replication). On a start, the snapshot and then the AOF go through the parser and
-- the executor again. src/sharding has the ring with which a router chooses a shard, and the
-- health checks that move a shard from its primary to its replica.
--
-- Which file models which part (each function has the C++ name in snake_case):
--   Storage/KvStore: `KVStore` of src/storage/kv_store.cpp. `lru` is `lru_` with the most recently
--     used entry first, `index` is `index_`; a node's number stands for its `std::list` iterator.
--     Storage/KvStore/Nodes has the list operations, Valid and Contents the theorems. Interface has
--     the laws that users rely on, and Reorder a theorem about every store that obeys them.
--   Storage/ExpiryManager: `ExpiryManager` of src/storage/expiry_manager.cpp, its heap as a sorted
--     list, its sweeper one round at a time. Sweep and Rounds have the theorems.
--   Protocol/Command, Reply, Parser: include/tinykv/protocol/command.hpp, src/protocol/reply.cpp and
--     src/protocol/parser.cpp.
--   Persistence/Files: `AofWriter` of src/persistence/aof.cpp and `SnapshotManager::save` of
--     src/persistence/snapshot.cpp; Persistence/Manager: src/persistence/persistence_manager.cpp, with
--     its timer, background tasks and `stop` as a step relation in Persistence/Background.
--   Recovery: src/persistence/replay.cpp with the loading halves of aof.cpp and snapshot.cpp and
--     `PersistenceManager::recover`. Lines, Values and Snapshot have the theorems.
--   Replication/Registry and Replication/Manager: src/replication/replica_registry.cpp and
--     src/replication/replication_manager.cpp.
--   Replication/LinkThread: the thread of src/replication/replica_link.cpp and `stop`, as a step
--     relation; Sockets, Stopping and Returned have the theorems.
--   Executor: src/command_executor.cpp, one function for each case of the `switch`. Keeps, Effect,
--     Errors, Untouched and Words have the theorems.
--   Server: `handleConnection`, `handleSyncConnection` and the callbacks of src/server_main.cpp.
--     Server/Durable has the theorems on restarts; in its Overlap, requests come inside a save.
--     Server/Framing is about the lines that are answered. Server/Connection: the loops of the two
--     handlers over a socket; Ends, Serves and Answers have the theorems. Server/Conversation puts it
--     together with the loop of src/cli_main.cpp.
--   Sharding/Ring: src/sharding/consistent_hash_ring.cpp, with its `std::map` in Map; Route,
--     Remove and Undo have the theorems. Sharding/Topology: src/sharding/shard_topology.cpp.
--     Sharding/Health: the checks of src/sharding/health_checker.cpp, with what the network answers
--     as parameters; Failover and Misses have the theorems, and Probe has the pings over a network.
--     Sharding/Router: src/sharding/router.cpp; Backends and Known have the theorems. Its Wire is
--     `Router::forward` over `TcpClient`s, with theorems in Forward, Called, Stuck and Silent. Its
--     Connection is `Router::handleConnection` over a socket; Serves has the theorem.
--   Net/LineProtocol: `LineReader` of src/net/line_protocol.cpp over the chunks that a socket gives;
--     Chunks has a theorem.
--   Net/TcpServer: src/net/tcp_server.cpp with the answers of the system as parameters; Shutdown has a
--     theorem. Net/TcpClient: src/net/tcp_client.cpp over a socket that delivers chunks and takes a
--     number of bytes.
--   Server/Events: the threads of src/server_main.cpp as a sequence of events, with the sweeper's
--     callback apart from its round; Invariant, Clean and Race have the theorems. Server/ReadOnly is about
--     the lines that clients send to a replica.
--   Server/Link: the loop of src/replication/replica_link.cpp over its connection attempts; Synced and
--     Converges have the theorems. In its Overlap, a SYNC comes inside a write.
--   Concurrency/ThreadPool: src/concurrency/thread_pool.cpp as a step relation of n workers, the
--     callers of `submit` and the destructor; Counts, Queue and Joining have the theorems.
--   Config: src/config.cpp. Trim, Entry and Last have the theorems. Logger: src/logger.cpp.
--   Startup: the arguments and settings of src/server_main.cpp (ServerMain), its `main` over a disk
--     (ServerMain/Run, with the theorem in Restarts), those of src/router_main.cpp
--     (RouterMain), and src/cli_main.cpp with its loop (CliMain).
--   Prelude: numbers, texts and dictionaries, and the C++ library's `std::stoll`, `std::stoi` and
--     `std::to_string` (Decimal). Tests: concrete inputs.
--
-- A `std::string` is a list of bytes. A method takes the object's state and returns the new one with
-- its result; an exception is a result of its own. `long long` sums are wrapped to 64 bits, where
-- C++ leaves an overflow undefined, and so is the count of missed pings to 32. Time is a parameter:
-- the reading of the steady clock during a call. The eviction loop runs on fuel, the length of the
-- list, and loses one node a round. The loops of a connection take one step of fuel for each line:
-- more fuel than bytes to read is enough.
--
-- A request is served in one step. Requests, replicated lines, rounds of the sweeper, its callbacks
-- and the timer come in any order. Interleavings within a request or a save are not modelled but for
-- the two of the files called Overlap. The pool of threads is: each step of it is what a thread does
-- under the mutex, a notification, or the end of a task. A worker that sleeps in the wait tests its
-- condition again only after a notification or a spurious wakeup. In Replication/LinkThread, whether
-- a `receiveLine` that waits ever comes back is left open. In Server/Events the snapshot and the
-- flush that the timer submits run at once. A file is its bytes; whether it can be opened for
-- writing is a field that the program does not change, and a write to an open file succeeds.
--
-- Not modelled: the log lines and banners, the socket options, the starts
-- of threads but for those of the pool, of the timer and of a link, and signal handlers.
pub mod Prelude
pub mod Storage
pub mod Protocol
pub mod Persistence
pub mod Replication
pub mod Executor
pub mod Recovery
pub mod Server
pub mod Sharding
pub mod Net
pub mod Concurrency
pub mod Config
pub mod Logger
pub mod Startup
pub mod Tests
