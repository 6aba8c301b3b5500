-- ===== src/Sharding/Ring/Remove.antt =====
-- Where the ring of src/sharding/consistent_hash_ring.cpp sends a key once a node is removed.
use mathlib.Core.Path.{subst}
use tiny_kv_distributed_stor.Prelude.{
  ℕ, zero, suc, ◌≡◌, ◌≢◌, ◌⊎◌, refl, sym, ap, ◌∙◌, true, false, Option, none, some, List, [], ◌∷◌,
  ltb, ◌==◌, arith, inl, inr, if_cases, Option-cases, Bool-cases,
}
use tiny_kv_distributed_stor.Prelude.Text.{Text}
use tiny_kv_distributed_stor.Sharding.Ring.{
  ConsistentHashRing, position, remove_positions, remove_node, owner, get_node, fnv1a64,
}
use tiny_kv_distributed_stor.Sharding.Ring.Map.{
  IsAscending, erase, lower_bound, node_at, node_at-erase, erase-IsAscending,
}
use tiny_kv_distributed_stor.Sharding.Ring.Route.{first, chosen, owner-chosen}

-- The node at a position, if there is one, is this one.
abbrev pub IsOwn : Text → Option Text → Type 0
IsOwn node_id none = Unit
IsOwn node_id (some n) = n ≡ node_id

-- So many positions of the node from the index i on are free or its own.
abbrev pub HasOwn : ℕ → ℕ → Text → List (ℕ × Text) → Type 0
HasOwn zero i node_id l = Unit
HasOwn (suc rounds) i node_id l =
    IsOwn node_id (node_at (position node_id i) l) × HasOwn rounds (suc i) node_id l

IsOwn-erase :
    (node_id : Text) (p j : ℕ) (l : List (ℕ × Text))
    → IsAscending l
    → IsOwn node_id (node_at j l)
    → IsOwn node_id (node_at j (erase p l))
IsOwn-erase node_id p j l up h =
    subst (IsOwn node_id) (sym (node_at-erase p j l up))
      (if_cases (IsOwn node_id) (p == j) (λ _. tt) (λ _. h))

HasOwn-erase :
    (rounds i : ℕ) (node_id : Text) (p : ℕ) (l : List (ℕ × Text))
    → IsAscending l
    → HasOwn rounds i node_id l
    → HasOwn rounds i node_id (erase p l)
HasOwn-erase zero i node_id p l up h = tt
HasOwn-erase (suc rounds) i node_id p l up h = (
  IsOwn-erase node_id p (position node_id i) l up h.0,
  HasOwn-erase rounds (suc i) node_id p l up h.1,
)

-- An erased entry is not the one above h, or it is at p.
lower_bound-erase :
    (h p : ℕ) (l : List (ℕ × Text))
    → IsAscending l
    → (lower_bound h (erase p l) ≡ lower_bound h l)
      ⊎ ((n : Text) × (lower_bound h l ≡ some (p, n)) × (node_at p l ≡ some n))
unfolding lower_bound erase node_at
lower_bound-erase h p [] up = inl refl
lower_bound-erase h p ((q, m) ∷ l) up = elim (Bool-cases (p == q)) [
  | inl e ↦ elim (Bool-cases (ltb q h)) [
    | inl below ↦ inl (rw (e, below, erase, lower_bound) refl)
    | inr above ↦
        let at : q ≡ p = ground (arith, e) in
        let same : (q == p) ≡ true = ground (arith, e) in
        inr (rw (above, same, lower_bound, node_at) (m, ap (λ x. some (x, m)) at, refl))
  ]
  | inr e ↦
      let other : (q == p) ≡ false = ground (arith, e) in
      elim (Bool-cases (ltb q h)) [
        | inl below ↦
            rw (e, other, below, erase, lower_bound, node_at) (lower_bound-erase h p l up.1)
        | inr above ↦ inl (rw (e, above, erase, lower_bound) refl)
      ]
]

first-erase :
    (p : ℕ) (l : List (ℕ × Text)) → (first (erase p l) ≡ first l) ⊎ (node_at p l ≡ some (first l))
unfolding erase node_at
first-erase p [] = inl refl
first-erase p ((q, m) ∷ l) = elim (Bool-cases (p == q)) [
  | inr e ↦ inl (rw (e, erase) refl)
  | inl e ↦ let same : (q == p) ≡ true = ground (arith, e) in inr (rw (same, node_at) refl)
]

owner-erase :
    (h p : ℕ) (l : List (ℕ × Text))
    → IsAscending l
    → (owner h (erase p l) ≡ owner h l) ⊎ (node_at p l ≡ some (owner h l))
owner-erase h p l up =
    rw (owner-chosen h (erase p l), owner-chosen h l)
      (elim (lower_bound-erase h p l up) [
        | inr (n, found, at) ↦ rw (found, chosen) (inr at)
        | inl e ↦ rw e (elim (Option-cases (lower_bound h l)) [
          | inl none_above ↦ rw (none_above, chosen) (first-erase p l)
          | inr (x, found) ↦ rw (found, chosen) (inl refl)
        ])
      ])

owner-remove_positions :
    (rounds i h : ℕ) (node_id : Text) (l : List (ℕ × Text))
    → IsAscending l
    → HasOwn rounds i node_id l
    → owner h l ≢ node_id
    → owner h (remove_positions rounds i node_id l) ≡ owner h l
unfolding remove_positions
owner-remove_positions zero i h node_id l up own other = refl
owner-remove_positions (suc rounds) i h node_id l up own other =
    let p = position node_id i in
    let kept : owner h (erase p l) ≡ owner h l = elim (owner-erase h p l up) [
      | inl e ↦ e
      | inr at ↦ absurd (other (subst (IsOwn node_id) at own.0))
    ] in
    owner-remove_positions rounds (suc i) h node_id (erase p l) (erase-IsAscending p l up)
      (HasOwn-erase rounds (suc i) node_id p l up own.1) (λ e. other (sym kept ∙ e))
    ∙ kept

-- Removing a node none of whose positions was taken over by another node leaves every key of the
-- other nodes where it is.
pub remove_node_keeps :
    (key node_id : Text) (r : ConsistentHashRing)
    → IsAscending r.ring
    → HasOwn r.virtual_nodes_per_node 0 node_id r.ring
    → get_node key r ≢ node_id
    → get_node key (remove_node node_id r) ≡ get_node key r
unfolding get_node remove_node
remove_node_keeps key node_id r up own other =
    owner-remove_positions r.virtual_nodes_per_node 0 (fnv1a64 key) node_id r.ring up own other
