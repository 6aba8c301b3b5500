-- ===== src/Sharding/Router/Backends.antt =====
-- The connections that src/sharding/router.cpp forwards over.
use tiny_kv_distributed_stor.Prelude.{
  ◌≡◌, refl, ap, ◌∙◌, Bool, true, false, ◌||◌, Option, none, some, arith, if◌then◌else◌, if_cases,
}
use tiny_kv_distributed_stor.Prelude.Text.{Text, text_eq, text_eq_iff, text_eq_refl}
use tiny_kv_distributed_stor.Prelude.Dict.{find, insert, find-insert}
use tiny_kv_distributed_stor.Sharding.Topology.{active_address_for, is_empty}
use tiny_kv_distributed_stor.Sharding.Router.{
  BackendConnection, Router, Network, backend_for, pointed_at, exchanged, exchange, forward,
}

abbrev pub is_some : Option Text → Bool
is_some none = false
is_some (some _) = true

-- The connection is to this address, and open exactly if there was a response.
abbrev pub IsAnswer : Text → Option Text × BackendConnection → Type 0
IsAnswer address x = (x.1.address ≡ address) × (x.1.connected ≡ is_some x.0)

exchanged-IsAnswer : (o : Option Text) (b : BackendConnection) → IsAnswer b.address (exchanged o b)
exchanged-IsAnswer none b = (refl, refl)
exchanged-IsAnswer (some response) b = (refl, refl)

exchange-IsAnswer : (net : Network) (b : BackendConnection) → IsAnswer b.address (exchange net b)
unfolding exchange
exchange-IsAnswer net b =
    if_cases (IsAnswer b.address) (b.connected || net.accepts)
      (λ _. exchanged-IsAnswer net.response b) (λ closed. (refl, ground (arith, closed)))

pointed_at-address :
    (address : Text) (b : BackendConnection) → (pointed_at address b).address ≡ address
unfolding pointed_at
pointed_at-address address b =
    if_cases (λ (c : BackendConnection). c.address ≡ address) (text_eq b.address address)
      (λ e. (text_eq_iff b.address address).0 e) (λ _. refl)

-- After a line was forwarded for a shard that has an active address, the shard's connection is to
-- that address, and it is open exactly if a response came back.
forward-IsAnswer :
    (shard_id : Text) (net : Network) (r : Router)
    → is_empty (active_address_for shard_id r.topology) ≡ false
    → IsAnswer
        (active_address_for shard_id r.topology)
        ((forward shard_id net r).0, backend_for shard_id (forward shard_id net r).1)
unfolding forward
forward-IsAnswer shard_id net r known =
    let address = active_address_for shard_id r.topology in
    let b = pointed_at address (backend_for shard_id r) in
    let (at, opened) = exchange-IsAnswer net b in
    let kept : find shard_id (insert shard_id (exchange net b).1 r.backends)
        ≡ some (exchange net b).1 =
      find-insert shard_id shard_id (exchange net b).1 r.backends
      ∙ ap (λ t. if t then some (exchange net b).1 else find shard_id r.backends)
          (text_eq_refl shard_id) in
    rw known (unfold backend_for in rw kept (at ∙ pointed_at-address address _, opened))
