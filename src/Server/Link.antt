-- ===== src/Server/Link.antt =====
-- `ReplicaLink` (src/replication/replica_link.cpp) on the side of the replica, with the apply callback
-- of src/server_main.cpp. The network is the list of the connection attempts and of what each one
-- brings; `clock` gives the time at which a line is applied, by the number of lines before it.
pub mod Synced
pub mod Converges
pub mod Overlap
use tiny_kv_distributed_stor.Prelude.{
  ℕ, suc, ◌+◌, Bool, true, false, Option, none, some, List, [], ◌∷◌, ◌++◌, length, ◌==◌,
  if◌then◌else◌,
}
use tiny_kv_distributed_stor.Prelude.Text.{Text, codes}
use tiny_kv_distributed_stor.Storage.ExpiryManager.{TimePoint}
use tiny_kv_distributed_stor.Executor.{Executor}
use tiny_kv_distributed_stor.Server.{Request, handle_line, apply_replicated}

-- One round of `runLoop`: no connection, no SYNC sent, or the lines that `receiveLine` gave until it
-- failed or the link was stopped.
pub data Attempt : Type 0 where
  unreachable not_sent : Attempt
  streamed : List Text → Attempt

-- What the round sends to the primary.
unfoldable pub sent_to_primary : Attempt → List Text
sent_to_primary Attempt.unreachable = []
sent_to_primary Attempt.not_sent = []
sent_to_primary (Attempt.streamed lines) = codes "SYNC" ∷ []

-- `while (running_ && client.receiveLine(line)) onLine_(line);`
unfoldable pub apply_lines : (ℕ → TimePoint) → ℕ → List Text → Executor → Executor
unfolding apply_replicated
apply_lines clock i [] s = s
apply_lines clock i (line ∷ lines) s =
    apply_lines clock (suc i) lines (apply_replicated (clock i) line s).1

abbrev pub received : Attempt → List Text
received Attempt.unreachable = []
received Attempt.not_sent = []
received (Attempt.streamed lines) = lines

-- The rounds until the link is stopped. Between two rounds the loop only waits.
unfoldable pub run_link : (ℕ → TimePoint) → ℕ → List Attempt → Executor → Executor
unfolding apply_lines
run_link clock i [] s = s
run_link clock i (a ∷ attempts) s =
    run_link clock (i + length (received a)) attempts (apply_lines clock i (received a) s)

-- The lines among those sent that went to this socket.
unfoldable pub sent_to : ℕ → List (ℕ × Text) → List Text
sent_to fd [] = []
sent_to fd ((x, line) ∷ sent) = let rest = sent_to fd sent in if x == fd then line ∷ rest else rest

-- All that a server writes to its replicas while it serves these requests.
unfoldable pub served_lines : ℕ → List Request → Executor → List Text
unfolding sent_to handle_line
served_lines fd [] s = []
served_lines fd (r ∷ requests) s =
    sent_to fd (handle_line r.now r.fd r.line s).sent
    ++ served_lines fd requests (handle_line r.now r.fd r.line s).state
