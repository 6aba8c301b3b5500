-- ===== src/Net/TcpClient/Writes.antt =====
-- `writeRaw` (src/net/line_protocol.cpp) on a socket.
use tiny_kv_distributed_stor.Prelude.{
  ◌-◌, ◌≤◌, ◌≡◌, refl, Bool, true, ◌++◌, arith, leb, length, if_cases,
}
use tiny_kv_distributed_stor.Prelude.Text.{Text}
use tiny_kv_distributed_stor.Net.TcpClient.{Socket, write_raw}

pub write_raw-fits :
    (bytes : Text) (s : Socket)
    → length bytes ≤ s.room
    → write_raw bytes s ≡ (true, record s { sent = s.sent ++ bytes; room = s.room - length bytes })
unfolding write_raw
write_raw-fits bytes s h =
    let enough : leb (length bytes) s.room ≡ true = ground arith in rw enough refl

pub incoming-write_raw : (bytes : Text) (s : Socket) → (write_raw bytes s).1.incoming ≡ s.incoming
unfolding write_raw
incoming-write_raw bytes s =
    if_cases (λ (r : Bool × Socket). r.1.incoming ≡ s.incoming) (leb (length bytes) s.room)
      (λ _. refl) (λ _. refl)
