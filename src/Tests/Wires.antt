-- ===== src/Tests/Wires.antt =====
-- A router's connections, its ring, and writes in another order (src/sharding, src/storage).
use mathlib.Core.Path.{subst}
use mathlib.Core.List.{append-nil}
use tiny_kv_distributed_stor.Prelude.{
  ℕ, zero, suc, ◌<◌, ◌≡◌, ◌≢◌, refl, sym, ap, ◌∙◌, true, false, Option, none, some, List, [], ◌∷◌,
  ◌++◌, All, length, arith, if◌then◌else◌,
}
use tiny_kv_distributed_stor.Prelude.Text.{Text, codes, text_eq}
use tiny_kv_distributed_stor.Prelude.Dict.{find}
use tiny_kv_distributed_stor.Recovery.Lines.{IsLine}
use tiny_kv_distributed_stor.Net.LineProtocol.{max_line, write_line}
use tiny_kv_distributed_stor.Net.LineProtocol.Chunks.{joined}
use tiny_kv_distributed_stor.Net.TcpClient.{Socket, is_connected}
use tiny_kv_distributed_stor.Storage.KvStore
use tiny_kv_distributed_stor.Storage.KvStore.Interface.Reorder.{
  Write, Reordered, call_all, reordered_writes,
}
use tiny_kv_distributed_stor.Sharding.Ring
use tiny_kv_distributed_stor.Sharding.Ring.{ConsistentHashRing}
use tiny_kv_distributed_stor.Sharding.Ring.Map.{IsAscending}
use tiny_kv_distributed_stor.Sharding.Ring.Remove.{HasOwn, remove_node_keeps}
use tiny_kv_distributed_stor.Sharding.Ring.Undo.{AreFree, remove_node-add_node}
use tiny_kv_distributed_stor.Sharding.Topology.{
  parse_shard, find_shard, active_address_for, is_empty,
}
use tiny_kv_distributed_stor.Sharding.Router.{Network, forward}
use tiny_kv_distributed_stor.Sharding.Router.Wire.{
  WireRouter, WireEvent, wire_for, wire_at, open_client, forward_line, run_wire,
}
use tiny_kv_distributed_stor.Sharding.Router.Wire.Forward.{view_router, used}
use tiny_kv_distributed_stor.Sharding.Router.Wire.Called.{
  called, socket_of, socket_left, IsSent, forward_line_refines,
}
use tiny_kv_distributed_stor.Sharding.Router.Wire.Silent.{
  responses_to, over_socket, silent_for_ever,
}
use tiny_kv_distributed_stor.Tests.Runs.{one_key, one_key-IsValid, one_key_unbounded}

reordered_writes_example :
    (KvStore.get
      (codes "a")
      (call_all (Write.set (codes "a") (codes "1") ∷ Write.del (codes "b") ∷ []) one_key)).0
    ≡ (KvStore.get
        (codes "a")
        (call_all (Write.del (codes "b") ∷ Write.set (codes "a") (codes "1") ∷ []) one_key)).0
unfolding text_eq
reordered_writes_example =
    reordered_writes _ _ one_key (codes "a") one_key-IsValid one_key_unbounded
      (Reordered.swapped (Write.set (codes "a") (codes "1")) (Write.del (codes "b")) [] refl)

abbrev one_node : ConsistentHashRing
one_node = Ring.add_node (codes "shard-a") (Ring.init 2)

ring_run : Unit {0}
unfolding Ring.add_node Ring.init Ring.add_positions Ring.position Ring.fnv1a64 Ring.fnv1a64_from
    Ring.finalize Ring.Map.insert Ring.Map.node_at Ring.get_node Ring.owner Ring.Map.lower_bound
    tiny_kv_distributed_stor.Prelude.Decimal.decimal text_eq
ring_run = tt

one_node-IsAscending : IsAscending one_node.ring
unfolding ring_run
one_node-IsAscending = ((omega arith, tt), (tt, tt))

b-AreFree : AreFree 2 0 (codes "shard-b") one_node.ring
unfolding ring_run
b-AreFree = (refl, (refl, tt))

b_new : All (λ n. text_eq n (codes "shard-b") ≡ false) one_node.nodes
unfolding ring_run
b_new = (refl, tt)

remove_node-add_node_example :
    Ring.remove_node (codes "shard-b") (Ring.add_node (codes "shard-b") one_node) ≡ one_node
unfolding Ring.add_node Ring.init
remove_node-add_node_example =
    remove_node-add_node (codes "shard-b") one_node one_node-IsAscending b-AreFree b_new

abbrev two_nodes : ConsistentHashRing
two_nodes = Ring.add_node (codes "shard-b") one_node

two_nodes-IsAscending : IsAscending two_nodes.ring
unfolding ring_run
two_nodes-IsAscending = (
  (omega arith, (omega arith, (omega arith, tt))),
  ((omega arith, (omega arith, tt)), ((omega arith, tt), (tt, tt))),
)

b-HasOwn : HasOwn 2 0 (codes "shard-b") two_nodes.ring
unfolding ring_run
b-HasOwn = (refl, (refl, tt))

not_at_b : Ring.get_node (codes "user:2") two_nodes ≢ codes "shard-b"
unfolding ring_run
not_at_b e = absurd (ground (arith, e))

remove_node_keeps_example :
    Ring.get_node (codes "user:2") (Ring.remove_node (codes "shard-b") two_nodes)
    ≡ Ring.get_node (codes "user:2") two_nodes
unfolding Ring.add_node Ring.init
remove_node_keeps_example =
    remove_node_keeps (codes "user:2") (codes "shard-b") two_nodes two_nodes-IsAscending b-HasOwn
      not_at_b

-- A reply of so many bytes.
abbrev pub filler : ℕ → Text
filler zero = []
filler (suc n) = 120 ∷ filler n

pub length-filler : (n : ℕ) → length (filler n) ≡ n
length-filler zero = refl
length-filler (suc n) = omega (arith, length-filler n)

filler-IsLine : (n : ℕ) → IsLine (filler n)
filler-IsLine zero = tt
filler-IsLine (suc n) = (refl, filler-IsLine n)

abbrev shard_config : Text → Text
shard_config key = if text_eq key (codes "s.primary") then codes "h:1" else codes "h:2"

abbrev flooding : ℕ → Socket
flooding n = record { incoming = filler n ∷ codes "\n+OK\n" ∷ []; sent = []; room = 100 }

abbrev flooded : ℕ → WireRouter
flooded n = record {
  topology = parse_shard shard_config (codes "s") ∷ [];
  backends =
      (codes "s", record { address = codes "h:1"; client = (over_socket (flooding n) []).1 }) ∷ [];
}

abbrev called_s : Network
called_s = called (codes "s") (codes "GET k") (λ host port. none) (flooded 3)

forward_line_refines_example :
    ((forward_line (codes "s") (codes "GET k") (λ host port. none) (flooded 3)).0
      ≡ (forward (codes "s") called_s (view_router one_node (flooded 3))).0)
    × (view_router one_node
          (forward_line (codes "s") (codes "GET k") (λ host port. none) (flooded 3)).1
        ≡ (forward (codes "s") called_s (view_router one_node (flooded 3))).1)
    × IsSent
        (codes "GET k")
        (socket_of (codes "s") (λ host port. none) (flooded 3))
        (forward_line (codes "s") (codes "GET k") (λ host port. none) (flooded 3)).0
        (socket_left (
          find
            (codes "s")
            (forward_line (codes "s") (codes "GET k") (λ host port. none) (flooded 3)).1.backends))
forward_line_refines_example =
    forward_line_refines (codes "s") (codes "GET k") (λ host port. none) one_node (flooded 3)

address_run : Unit {0}
unfolding active_address_for find_shard parse_shard text_eq wire_for wire_at find open_client
    is_connected
address_run = tt

flooded-address : is_empty (active_address_for (codes "s") (flooded 9000).topology) ≡ false
unfolding address_run
flooded-address = refl

flooded-client :
    open_client
      (λ host port. none)
      (used (codes "s") (flooded 9000)).address
      (used (codes "s") (flooded 9000)).client
    ≡ over_socket (flooding 9000) []
unfolding address_run
flooded-client = refl

only_filler : [] ++ joined (filler 9000 ∷ []) ≡ filler 9000
only_filler = append-nil (filler 9000)

too_long : max_line < length ([] ++ joined (filler 9000 ∷ []))
too_long = let size = ap length only_filler ∙ length-filler 9000 in omega (arith, size)

silent_for_ever_example :
    All
      (λ (o : Option Text). o ≡ none)
      (responses_to (codes "s") (
        run_wire
          (WireEvent.forwarded (codes "s") (codes "GET k") (λ host port. none)
            ∷ WireEvent.forwarded (codes "s") (codes "PING k") (λ host port. some (flooding 3))
            ∷ [])
          (flooded 9000)))
unfolding write_line
silent_for_ever_example =
    silent_for_ever (codes "GET k") [] (filler 9000 ∷ []) (codes "\n+OK\n" ∷ []) (flooding 9000)
      refl (subst IsLine (sym only_filler) (filler-IsLine 9000)) too_long (omega arith) (codes "s")
      (λ host port. none) (flooded 9000)
      (WireEvent.forwarded (codes "s") (codes "PING k") (λ host port. some (flooding 3)) ∷ [])
      flooded-address flooded-client
