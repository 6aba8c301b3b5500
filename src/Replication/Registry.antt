-- ===== src/Replication/Registry.antt =====
-- `ReplicaRegistry` (src/replication/replica_registry.cpp): the sockets of the connected replicas.
-- `writeLine` on a socket is an entry of the list that `propagate` returns.
use tiny_kv_distributed_stor.Prelude.{ℕ, List, [], ◌∷◌, ◌++◌, map, ◌==◌, if◌then◌else◌, length}
use tiny_kv_distributed_stor.Prelude.Text.{Text}

abbrev pub ReplicaRegistry : Type 0
ReplicaRegistry = List ℕ

unfoldable pub add : ℕ → ReplicaRegistry → ReplicaRegistry
add fd r = r ++ fd ∷ []

-- `erase(std::remove(…))`: every entry with the socket.
unfoldable pub remove : ℕ → ReplicaRegistry → ReplicaRegistry
remove fd [] = []
remove fd (x ∷ r) = let rest = remove fd r in if x == fd then rest else x ∷ rest

unfoldable pub propagate : Text → ReplicaRegistry → List (ℕ × Text)
propagate line r = map (λ fd. (fd, line)) r

unfoldable pub size : ReplicaRegistry → ℕ
size r = length r
