-- ===== src/Sharding/Health/Probe/Answered.antt =====
-- Nodes that answer src/sharding/health_checker.cpp.
use tiny_kv_distributed_stor.Prelude.{
  ◌+◌, ◌≤◌, ◌≡◌, refl, ap, ◌∙◌, true, false, none, some, [], ◌∷◌, ◌++◌, All, All-map, arith, ◌==◌,
  leb, length, length-append,
}
use tiny_kv_distributed_stor.Prelude.Text.{Text, codes, text_eq}
use tiny_kv_distributed_stor.Prelude.Int.{ℤ}
use tiny_kv_distributed_stor.Prelude.Decimal.{to_string, Fits32}
use tiny_kv_distributed_stor.Prelude.Decimal.RoundTrip.{
  stoi-to_string, is_numeral_char, to_string-All,
}
use tiny_kv_distributed_stor.Net.LineProtocol.{strip_cr, write_line, max_line}
use tiny_kv_distributed_stor.Net.LineProtocol.Chunks.{joined, read_line-line}
use tiny_kv_distributed_stor.Net.TcpClient.{
  Socket, new_client, connect, write_raw, send_line, send_on, receive_line, receive_on,
}
use tiny_kv_distributed_stor.Sharding.Health.Probe.{
  HostNetwork, or_here, split_last, read_port, with_port, split_address, is_ok, receive_if, send_if,
  asked, ping_node, ask_promotion,
}

abbrev pub address_of : Text → ℤ → Text
address_of host port = host ++ 58 ∷ to_string port

split_last-none : (s : Text) → All (λ c. (c == 58) ≡ false) s → split_last s ≡ none
unfolding split_last
split_last-none [] h = refl
split_last-none (c ∷ s) h = ap (or_here c s) (split_last-none s h.1) ∙ rw h.0 refl

split_last-append :
    (host port : Text)
    → All (λ c. (c == 58) ≡ false) port
    → split_last (host ++ 58 ∷ port) ≡ some (host, port)
unfolding split_last
split_last-append [] port h = ap (or_here 58 port) (split_last-none port h)
split_last-append (c ∷ host) port h =
    ap (or_here c (host ++ 58 ∷ port)) (split_last-append host port h)

split_address-address_of :
    (host : Text) (port : ℤ)
    → Fits32 port
    → split_address (address_of host port) ≡ some (host, port)
unfolding split_address
split_address-address_of host port fits =
    ap read_port (
      split_last-append host (to_string port) (
        All-map (λ a. is_numeral_char a ≡ true) (λ c. (c == 58) ≡ false) (to_string port)
          (λ a e. ground (arith, e)) (to_string-All port)))
    ∙ ap (with_port host) (stoi-to_string port fits)

-- The first line of what a socket delivers, in whatever chunks.
receive_after_send :
    (line reply rest : Text) (s : Socket)
    → length line + 1 ≤ s.room
    → All (λ c. (c == 10) ≡ false) reply
    → length reply ≤ max_line
    → joined s.incoming ≡ write_line reply ++ rest
    → send_if line (connect (some s) new_client) ≡ some (strip_cr reply)
unfolding send_if connect receive_if send_line send_on write_raw write_line receive_line receive_on
receive_after_send line reply rest s room is_line fits arrive =
    let sum = length-append line (10 ∷ []) in
    let enough : leb (length (line ++ 10 ∷ [])) s.room ≡ true = ground (arith, sum, room) in
    rw enough (read_line-line reply rest [] s.incoming is_line fits (unfold write_line in arrive)).0

asked_lem :
    (line : Text) (network : HostNetwork) (host : Text) (port : ℤ) (s : Socket) (rest : Text)
    → network host port ≡ some s
    → length line + 1 ≤ s.room
    → joined s.incoming ≡ codes "+OK\n" ++ rest
    → asked line network (some (host, port)) ≡ true
unfolding asked
asked_lem line network host port s rest connects room arrive =
    ap (λ o. is_ok (send_if line (connect o new_client))) connects
    ∙ (ap is_ok (
          receive_after_send line (codes "+OK") rest s room (refl, (refl, (refl, tt))) (omega arith)
            (unfold write_line in arrive))
        ∙ unfold strip_cr text_eq in refl)

-- A node at `host:port`, with any 32-bit number for the port, that accepts the connection and 17 bytes on
-- it, and then sends +OK as its first line, in whatever chunks: it counts as up when it is pinged, and as
-- promoted when it is asked to be.
answered :
    (network : HostNetwork) (host : Text) (port : ℤ) (s : Socket) (rest : Text)
    → Fits32 port
    → network host port ≡ some s
    → 17 ≤ s.room
    → joined s.incoming ≡ codes "+OK\n" ++ rest
    → (ping_node network (address_of host port) ≡ true)
      × (ask_promotion network (address_of host port) ≡ true)
unfolding ping_node ask_promotion
answered network host port s rest fits connects room arrive =
    let split = split_address-address_of host port fits in
    (
      ap (asked (codes "PING") network) split
          ∙ asked_lem (codes "PING") network host port s rest connects (omega arith) arrive,
      ap (asked (codes "REPLICAOF NO ONE") network) split
          ∙ asked_lem (codes "REPLICAOF NO ONE") network host port s rest connects (omega arith)
              arrive,
    )
