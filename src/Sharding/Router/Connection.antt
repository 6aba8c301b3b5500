-- ===== src/Sharding/Router/Connection.antt =====
-- `Router::handleConnection` (src/sharding/router.cpp) over a connection's socket. `nets` is what the
-- network does for each line, by the number of lines before it. A round of the loop takes one step of
-- fuel.
pub mod Serves
use tiny_kv_distributed_stor.Prelude.{
  ℕ, zero, suc, Bool, true, false, Option, none, some, List, [], ◌∷◌,
}
use tiny_kv_distributed_stor.Prelude.Text.{Text}
use tiny_kv_distributed_stor.Net.LineProtocol.{read_line, write_line}
use tiny_kv_distributed_stor.Net.TcpClient.{Socket, write_raw}
use tiny_kv_distributed_stor.Sharding.Router.{Router, Network, route_line}

pub record RouterConnection : Type 0 where
  pub socket : Socket
  pub buffer : Text
  pub router : Router

-- The connection once the reader was asked for a line.
unfoldable pub after_read : RouterConnection → RouterConnection
unfolding read_line
after_read c = record c {
  socket = record c.socket { incoming = (read_line c.buffer c.socket.incoming).2 };
  buffer = (read_line c.buffer c.socket.incoming).1;
}

-- The connection once a line is routed, but not answered.
unfoldable pub routed_line : Network → Text → RouterConnection → RouterConnection
unfolding after_read route_line
routed_line net line c = record (after_read c) { router = (route_line net line c.router).1 }

abbrev pub replied_to : Text → RouterConnection → RouterConnection
replied_to reply c = record c { socket = (write_raw (write_line reply) c.socket).1 }

-- No result is where the fuel ran out.
unfoldable pub route_connection : (ℕ → Network) → ℕ → ℕ → RouterConnection → Option RouterConnection
unfolding read_line route_line after_read routed_line write_raw write_line
route_connection nets zero i c = none
route_connection nets (suc fuel) i c = elim (read_line c.buffer c.socket.incoming).0 [
  | none ↦ some (after_read c)
  | some line ↦ elim (route_line (nets i) line c.router).0 [
    | none ↦ route_connection nets fuel (suc i) (routed_line (nets i) line c)
    | some reply ↦ elim (write_raw (write_line reply) (routed_line (nets i) line c).socket).0 [
      | false ↦ some (replied_to reply (routed_line (nets i) line c))
      | true ↦ route_connection nets fuel (suc i) (replied_to reply (routed_line (nets i) line c))
    ]
  ]
]
