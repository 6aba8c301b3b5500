-- ===== src/Net/TcpClient.antt =====
-- `TcpClient` (src/net/tcp_client.cpp, include/tinykv/net/tcp_client.hpp). A socket is what it will
-- deliver, in chunks, what was sent on it, and how many bytes it will still take before `send` fails.
pub mod Writes
use tiny_kv_distributed_stor.Prelude.{
  ℕ, ◌-◌, ◌≡◌, refl, Bool, true, false, Option, none, some, List, [], ◌∷◌, ◌++◌, leb, length, take,
  if◌then◌else◌,
}
use tiny_kv_distributed_stor.Prelude.Text.{Text, codes}
use tiny_kv_distributed_stor.Net.LineProtocol.{read_line, write_line}

pub record Socket : Type 0 where
  pub incoming : List Text
  pub sent : Text
  pub room : ℕ

-- `buffer` is the line reader's, which no call but `receive_line` changes.
pub record TcpClient : Type 0 where
  pub fd : Option Socket
  pub buffer : Text

abbrev pub new_client : TcpClient
new_client = record { fd = none; buffer = [] }

-- `answer` is the system's: the connected socket, or none where one of the calls fails.
unfoldable pub connect : Option Socket → TcpClient → Bool × TcpClient
connect none c = (false, record c { fd = none })
connect (some socket) c = (true, record c { fd = some socket })

unfoldable pub close : TcpClient → TcpClient
close c = record c { fd = none }

unfoldable pub is_connected : TcpClient → Bool
is_connected c = elim c.fd [ none ↦ false | some socket ↦ true ]

-- `writeRaw`
unfoldable pub write_raw : Text → Socket → Bool × Socket
write_raw bytes s =
    if leb (length bytes) s.room
    then (true, record s { sent = s.sent ++ bytes; room = s.room - length bytes })
    else (false, record s { sent = s.sent ++ take s.room bytes; room = 0 })

unfoldable pub send_on : Text → Option Socket → TcpClient → Bool × TcpClient
unfolding write_raw write_line
send_on line none c = (false, c)
send_on line (some s) c =
    let (sent, socket) = write_raw (write_line line) s in (sent, record c { fd = some socket })

unfoldable pub send_line : Text → TcpClient → Bool × TcpClient
unfolding send_on
send_line line c = send_on line c.fd c

unfoldable pub receive_on : Option Socket → TcpClient → Option Text × TcpClient
unfolding read_line
receive_on none c = (none, c)
receive_on (some s) c =
    let (line, buffer, chunks) = read_line c.buffer s.incoming in
    (line, record { fd = some (record s { incoming = chunks }); buffer = buffer })

unfoldable pub receive_line : TcpClient → Option Text × TcpClient
unfolding receive_on
receive_line c = receive_on c.fd c

abbrev delivering : Text → Option Socket
delivering bytes = some (record { incoming = bytes ∷ []; sent = []; room = 0 })

-- What is left of a reply when the connection is closed comes before the first reply of the next one.
stale_test :
    let first = (receive_line (connect (delivering (codes "+OK\n$ol")) new_client).1).1 in
    (receive_line (connect (delivering (codes "+PONG\n")) (close first)).1).0
    ≡ some (codes "$ol+PONG")
unfolding receive_line connect close
stale_test = refl
