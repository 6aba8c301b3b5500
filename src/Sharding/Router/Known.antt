-- ===== src/Sharding/Router/Known.antt =====
-- The ring that the constructor of src/sharding/router.cpp builds, and the shards of the topology.
use mathlib.Core.Path.{subst}
use tiny_kv_distributed_stor.Prelude.{
  ℕ, zero, suc, ◌≡◌, Bool, true, false, ◌||◌, Option, none, some, List, [], ◌∷◌, All, arith, ltb,
  ◌==◌, if_cases, inl, inr, Option-cases,
}
use tiny_kv_distributed_stor.Prelude.Text.{Text, text_eq, text_eq_refl}
use tiny_kv_distributed_stor.Sharding.Ring.{
  ConsistentHashRing, position, add_positions, add_node, owner, get_node, fnv1a64,
}
use tiny_kv_distributed_stor.Sharding.Ring
use tiny_kv_distributed_stor.Sharding.Ring.Map.{insert, lower_bound}
use tiny_kv_distributed_stor.Sharding.Topology.{Shard, ShardTopology, shard_ids}
use tiny_kv_distributed_stor.Sharding.Router.{add_shards, new_router}

abbrev pub is_shard : Text → ShardTopology → Bool
is_shard shard_id [] = false
is_shard shard_id (s ∷ t) = text_eq s.id shard_id || is_shard shard_id t

module _ (P : Text → Type 0) where
  AllNodes : List (ℕ × Text) → Type 0
  AllNodes = All (λ e. P e.1)

  abbrev Chosen : Option (ℕ × Text) → Type 0
  Chosen none = Unit
  Chosen (some (p, n)) = P n

  -- There is an entry, and every entry's node has the property.
  abbrev AreFilled : List (ℕ × Text) → Type 0
  AreFilled [] = ⊥
  AreFilled ((p, n) ∷ l) = P n × All (λ e. P e.1) l

  lower_bound-Chosen : (h : ℕ) (l : List (ℕ × Text)) → All (λ e. P e.1) l → Chosen (lower_bound h l)
  unfolding lower_bound
  lower_bound-Chosen h [] a = tt
  lower_bound-Chosen h ((p, n) ∷ l) a =
      if_cases Chosen (ltb p h) (λ _. lower_bound-Chosen h l a.1) (λ _. a.0)

  owner-AreFilled : (h : ℕ) (l : List (ℕ × Text)) → AreFilled l → P (owner h l)
  unfolding owner
  owner-AreFilled h [] a = elim a [ ]
  owner-AreFilled h ((p, n) ∷ l) a =
      let chosen = lower_bound-Chosen h ((p, n) ∷ l) a in
      elim (Option-cases (lower_bound h ((p, n) ∷ l))) [
        | inl e ↦ rw (e, owner) a.0
        | inr ((q, m), e) ↦ rw (e, owner) (subst Chosen e chosen)
      ]

  insert-All :
      (p : ℕ) (n : Text) (l : List (ℕ × Text))
      → P n
      → All (λ e. P e.1) l
      → All (λ e. P e.1) (insert p n l)
  unfolding insert
  insert-All p n [] h a = (h, tt)
  insert-All p n ((q, m) ∷ l) h a =
      if_cases (All (λ (e : ℕ × Text). P e.1)) (ltb p q) (λ _. (h, a))
        (λ _.
          if_cases (All (λ (e : ℕ × Text). P e.1)) (p == q) (λ _. (h, a.1))
            (λ _. (a.0, insert-All p n l h a.1)))

  insert-AreFilled :
      (p : ℕ) (n : Text) (l : List (ℕ × Text)) → P n → All (λ e. P e.1) l → AreFilled (insert p n l)
  unfolding insert
  insert-AreFilled p n [] h a = (h, tt)
  insert-AreFilled p n ((q, m) ∷ l) h a =
      if_cases AreFilled (ltb p q) (λ _. (h, a))
        (λ _. if_cases AreFilled (p == q) (λ _. (h, a.1)) (λ _. (a.0, insert-All p n l h a.1)))

  AreFilled-All : (l : List (ℕ × Text)) → AreFilled l → All (λ e. P e.1) l
  AreFilled-All [] a = tt
  AreFilled-All ((p, n) ∷ l) a = a

  add_positions-AreFilled :
      (rounds i : ℕ) (n : Text) (l : List (ℕ × Text))
      → P n
      → AreFilled l
      → AreFilled (add_positions rounds i n l)
  unfolding add_positions
  add_positions-AreFilled zero i n l h a = a
  add_positions-AreFilled (suc rounds) i n l h a =
      add_positions-AreFilled rounds (suc i) n _ h
        (insert-AreFilled (position n i) n l h (AreFilled-All l a))

  add_shards-AreFilled :
      (ids : List Text) (r : ConsistentHashRing)
      → All P ids
      → AreFilled r.ring
      → AreFilled (add_shards ids r).ring
  unfolding add_shards add_node
  add_shards-AreFilled [] r h a = a
  add_shards-AreFilled (n ∷ ids) r h a =
      add_shards-AreFilled ids (add_node n r) h.1
        (add_positions-AreFilled r.virtual_nodes_per_node 0 n r.ring h.0 a)

  first-AreFilled : (n : Text) → P n → AreFilled (add_node n (Ring.init 150)).ring
  unfolding add_node add_positions Ring.init
  first-AreFilled n h =
      add_positions-AreFilled 149 1 n _ h (insert-AreFilled (position n 0) n [] h tt)

is_shard-later :
    (ids : List Text) (s : Shard) (t : ShardTopology)
    → All (λ n. is_shard n t ≡ true) ids
    → All (λ n. is_shard n (s ∷ t) ≡ true) ids
is_shard-later [] s t a = tt
is_shard-later (n ∷ ids) s t a = (ground (arith, a.0), is_shard-later ids s t a.1)

shard_ids-AreShards : (t : ShardTopology) → All (λ n. is_shard n t ≡ true) (shard_ids t)
unfolding shard_ids
shard_ids-AreShards [] = tt
shard_ids-AreShards (s ∷ t) =
    (ground (arith, text_eq_refl s.id), is_shard-later _ s t (shard_ids-AreShards t))

-- A router for a topology that has a shard sends every key to a shard of that topology.
pub new_router_knows :
    (key : Text) (s : Shard) (t : ShardTopology)
    → is_shard (get_node key (new_router (s ∷ t)).ring) (s ∷ t) ≡ true
unfolding shard_ids get_node new_router add_shards
new_router_knows key s t =
    let all = shard_ids-AreShards (s ∷ t) in
    owner-AreFilled (λ n. is_shard n (s ∷ t) ≡ true) (fnv1a64 key) _
      (add_shards-AreFilled (λ n. is_shard n (s ∷ t) ≡ true) (shard_ids t)
        (add_node s.id (Ring.init 150)) all.1
        (first-AreFilled (λ n. is_shard n (s ∷ t) ≡ true) s.id all.0))
