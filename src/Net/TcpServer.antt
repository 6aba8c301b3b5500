-- ===== src/Net/TcpServer.antt =====
-- `TcpServer` (src/net/tcp_server.cpp, include/tinykv/net/tcp_server.hpp). The answers of the system are
-- parameters; a thread of a connection is an entry of the list of those that are open.
pub mod Shutdown
use tiny_kv_distributed_stor.Prelude.{
  ℕ, zero, suc, ◌-◌, ◌≡◌, refl, Bool, true, false, not, ◌&&◌, Option, none, some, List, [], ◌∷◌,
  ltb, if◌then◌else◌,
}
use tiny_kv_distributed_stor.Prelude.Int.{ℤ, pos}

-- Whether `socket`, `setsockopt`, `bind` and `listen` succeed.
pub record StartAnswers : Type 0 where
  pub has_socket : Bool
  pub takes_option : Bool
  pub binds : Bool
  pub listens : Bool

-- `listening` is `listenFd_ >= 0`.
pub record TcpServer : Type 0 where
  pub port : ℤ
  pub listening : Bool
  pub running : Bool
  pub active_connections : ℕ

abbrev pub new_server : ℤ → TcpServer
new_server port = record { port = port; listening = false; running = false; active_connections = 0 }

abbrev closed : TcpServer → Bool × TcpServer
closed s = (false, record s { listening = false })

unfoldable pub start_listening : StartAnswers → TcpServer → Bool × TcpServer
start_listening a s =
    if not a.has_socket
    then closed s
    else if not a.takes_option
    then closed s
    else if not a.binds
    then closed s
    else if not a.listens
    then closed s
    else (true, record s { listening = true; running = true })

unfoldable pub stop_server : TcpServer → TcpServer
stop_server s = record s { running = false; listening = false }

-- What happens while `run` is in its first loop: an accept returns, with a socket or without, a
-- connection's handler ends, or the signal handler calls `stop`.
pub data RunEvent : Type 0 where
  accepted : Option ℕ → RunEvent
  connection_ended : RunEvent
  stopped : RunEvent

-- The sockets for which a handler is started, and the server.
unfoldable pub on_run_event : RunEvent → TcpServer → List ℕ × TcpServer
unfolding stop_server
on_run_event (RunEvent.accepted none) s = ([], s)
on_run_event (RunEvent.accepted (some fd)) s =
    (fd ∷ [], record s { active_connections = suc s.active_connections })
on_run_event RunEvent.connection_ended s =
    ([], record s { active_connections = s.active_connections - 1 })
on_run_event RunEvent.stopped s = ([], stop_server s)

-- `while (activeConnections_.load() > 0 && now() < deadline) sleep_for(20ms)`: the number of sleeps.
-- `active` and `clock` give the connections and the time in milliseconds at each test.
unfoldable pub sleeps : ℕ → ℕ → (ℕ → ℕ) → (ℕ → ℕ) → ℕ → ℕ
sleeps zero deadline active clock i = 0
sleeps (suc fuel) deadline active clock i =
    let rest = sleeps fuel deadline active clock (suc i) in
    if ltb 0 (active i) && ltb (clock i) deadline then suc rest else 0

start_test :
    (start_listening
      (record { has_socket = true; takes_option = true; binds = false; listens = true })
      (new_server (pos 1))).0
    ≡ false
unfolding start_listening
start_test = refl
