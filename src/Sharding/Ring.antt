-- ===== src/Sharding/Ring.antt =====
-- `fnv1a64` and `ConsistentHashRing` (src/sharding/consistent_hash_ring.cpp,
-- include/tinykv/sharding/consistent_hash_ring.hpp). The `std::map` from positions to nodes is a
-- list in ascending order of its keys.
pub mod Map
pub mod Route
pub mod Remove
pub mod Undo
use Prim.Native.Nat.{bit_xor}
use tiny_kv_distributed_stor.Prelude.{
  ℕ, zero, suc, ◌+◌, ◌*◌, ◌/◌, ◌%◌, ◌^◌, ◌≡◌, refl, Bool, true, false, Option, none, some, List, [],
  ◌∷◌, ◌++◌, ltb, leb, ◌==◌, if◌then◌else◌, length,
}
use tiny_kv_distributed_stor.Prelude.Text.{Text, codes, text_eq}
use tiny_kv_distributed_stor.Prelude.Decimal.{decimal}
use Map.{insert, erase, lower_bound}

abbrev pub u64_mod : ℕ
u64_mod = 2 ^ 64

-- The loop over the bytes.
unfoldable pub fnv1a64_from : ℕ → Text → ℕ
fnv1a64_from hash [] = hash
fnv1a64_from hash (c ∷ s) = fnv1a64_from (bit_xor hash c * 1099511628211 % u64_mod) s

abbrev pub shift_xor : ℕ → ℕ
shift_xor hash = bit_xor hash (hash / 2 ^ 33)

-- MurmurHash3's finalizer.
unfoldable pub finalize : ℕ → ℕ
finalize hash =
    let once = shift_xor hash * 0xff51afd7ed558ccd % u64_mod in
    let twice = shift_xor once * 0xc4ceb9fe1a85ec53 % u64_mod in shift_xor twice

unfoldable pub fnv1a64 : Text → ℕ
unfolding fnv1a64_from finalize
fnv1a64 s = finalize (fnv1a64_from 1469598103934665603 s)

pub record ConsistentHashRing : Type 0 where
  pub virtual_nodes_per_node : ℕ
  pub ring : List (ℕ × Text)
  pub nodes : List Text

unfoldable pub init : ℕ → ConsistentHashRing
init virtual_nodes = record { virtual_nodes_per_node = virtual_nodes; ring = []; nodes = [] }

-- `fnv1a64(nodeId + "#" + std::to_string(i))`
unfoldable pub position : Text → ℕ → ℕ
unfolding fnv1a64 decimal
position node_id i = fnv1a64 (node_id ++ (codes "#" ++ decimal i))

-- The loop of `addNode` from the index i on, with so many rounds to go.
unfoldable pub add_positions : ℕ → ℕ → Text → List (ℕ × Text) → List (ℕ × Text)
unfolding position
add_positions zero i node_id ring = ring
add_positions (suc rounds) i node_id ring =
    add_positions rounds (suc i) node_id (insert (position node_id i) node_id ring)

unfoldable pub add_node : Text → ConsistentHashRing → ConsistentHashRing
unfolding add_positions
add_node node_id r = record r {
  ring = add_positions r.virtual_nodes_per_node 0 node_id r.ring;
  nodes = r.nodes ++ node_id ∷ [];
}

unfoldable pub remove_positions : ℕ → ℕ → Text → List (ℕ × Text) → List (ℕ × Text)
unfolding position
remove_positions zero i node_id ring = ring
remove_positions (suc rounds) i node_id ring =
    remove_positions rounds (suc i) node_id (erase (position node_id i) ring)

-- `erase(std::remove(…))`: every entry that is the node.
unfoldable pub without_node : Text → List Text → List Text
without_node node_id [] = []
without_node node_id (n ∷ l) =
    let rest = without_node node_id l in if text_eq n node_id then rest else n ∷ rest

unfoldable pub remove_node : Text → ConsistentHashRing → ConsistentHashRing
unfolding remove_positions without_node
remove_node node_id r = record r {
  ring = remove_positions r.virtual_nodes_per_node 0 node_id r.ring;
  nodes = without_node node_id r.nodes;
}

-- The node at `lower_bound(hash)`, or at `begin()` past the last position.
unfoldable pub owner : ℕ → List (ℕ × Text) → Text
owner hash [] = []
owner hash ((p, n) ∷ l) = elim (lower_bound hash ((p, n) ∷ l)) [ none ↦ n | some (_, m) ↦ m ]

unfoldable pub get_node : Text → ConsistentHashRing → Text
unfolding owner
get_node key r = owner (fnv1a64 key) r.ring

unfoldable pub node_count : ConsistentHashRing → ℕ
node_count r = length r.nodes
