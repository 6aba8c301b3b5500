-- ===== src/Sharding/Ring/Route.antt =====
-- Where the ring of src/sharding/consistent_hash_ring.cpp sends a key, before and after a node is
-- added.
use tiny_kv_distributed_stor.Prelude.{
  ℕ, zero, suc, ◌≡◌, ◌⊎◌, refl, ap, ◌∙◌, Option, none, some, List, [], ◌∷◌, ltb, ◌==◌, arith, inl,
  inr, if_cases, Option-cases,
}
use tiny_kv_distributed_stor.Prelude.Text.{Text}
use tiny_kv_distributed_stor.Sharding.Ring.{
  ConsistentHashRing, position, add_positions, add_node, owner, get_node, fnv1a64,
}
use tiny_kv_distributed_stor.Sharding.Ring.Map.{insert, lower_bound}

lower_bound-insert :
    (h p : ℕ) (n : Text) (l : List (ℕ × Text))
    → (lower_bound h (insert p n l) ≡ lower_bound h l)
      ⊎ (lower_bound h (insert p n l) ≡ some (p, n))
unfolding lower_bound insert
lower_bound-insert h p n [] = ground arith
lower_bound-insert h p n ((q, m) ∷ l) = ground (arith, lower_bound-insert h p n l)

abbrev pub first : List (ℕ × Text) → Text
first [] = []
first ((p, n) ∷ l) = n

abbrev pub chosen : Option (ℕ × Text) → Text → Text
chosen none start = start
chosen (some (p, n)) start = n

pub owner-chosen : (h : ℕ) (l : List (ℕ × Text)) → owner h l ≡ chosen (lower_bound h l) (first l)
unfolding owner lower_bound
owner-chosen h [] = refl
owner-chosen h ((p, n) ∷ l) = elim (Option-cases (lower_bound h ((p, n) ∷ l))) [
  | inl e ↦ rw (e, owner, chosen) refl
  | inr (x, e) ↦ rw (e, owner, chosen) refl
]

first-insert :
    (p : ℕ) (n : Text) (l : List (ℕ × Text))
    → (first (insert p n l) ≡ first l) ⊎ (first (insert p n l) ≡ n)
unfolding insert
first-insert p n [] = inr refl
first-insert p n ((q, m) ∷ l) =
    if_cases Moved (ltb p q) (λ _. inr refl)
      (λ _. if_cases Moved (p == q) (λ _. inr refl) (λ _. inl refl))
  where
    Moved : List (ℕ × Text) → Type 0
    Moved t = (first t ≡ m) ⊎ (first t ≡ n)

owner-insert :
    (h p : ℕ) (n : Text) (l : List (ℕ × Text))
    → (owner h (insert p n l) ≡ owner h l) ⊎ (owner h (insert p n l) ≡ n)
owner-insert h p n l =
    rw (owner-chosen h (insert p n l), owner-chosen h l)
      (elim (lower_bound-insert h p n l) [
        | inr e ↦ inr (ap (λ o. chosen o (first (insert p n l))) e)
        | inl e ↦ rw e (elim (Option-cases (lower_bound h l)) [
          | inl none_above ↦ rw (none_above, chosen) (first-insert p n l)
          | inr (x, found) ↦ rw (found, chosen) (inl refl)
        ])
      ])

owner-add_positions :
    (rounds i h : ℕ) (n : Text) (l : List (ℕ × Text))
    → (owner h (add_positions rounds i n l) ≡ owner h l)
      ⊎ (owner h (add_positions rounds i n l) ≡ n)
unfolding add_positions
owner-add_positions zero i h n l = inl refl
owner-add_positions (suc rounds) i h n l =
    let rest = owner-add_positions rounds (suc i) h n (insert (position n i) n l) in
    elim rest [
      | inr e ↦ inr e
      | inl e ↦ elim (owner-insert h (position n i) n l) [
        | inl q ↦ inl (e ∙ q)
        | inr q ↦ inr (e ∙ q)
      ]
    ]

-- Adding a node to the ring leaves each key with its node, or moves it to the node that was added.
add_node_moves :
    (key node_id : Text) (r : ConsistentHashRing)
    → (get_node key (add_node node_id r) ≡ get_node key r)
      ⊎ (get_node key (add_node node_id r) ≡ node_id)
unfolding get_node add_node
add_node_moves key node_id r =
    owner-add_positions r.virtual_nodes_per_node 0 (fnv1a64 key) node_id r.ring
