-- ===== src/Sharding/Ring/Undo.antt =====
-- A node of src/sharding/consistent_hash_ring.cpp that is added and removed again.
use mathlib.Core.Path.{subst}
use tiny_kv_distributed_stor.Prelude.{
  ℕ, zero, suc, ◌≡◌, ◌⊎◌, ◌<◌, ◌≤◌, refl, sym, ap, ◌∙◌, Bool, true, false, ◌||◌, none, some, List,
  [], ◌∷◌, ◌++◌, ◌==◌, arith, inl, inr, All, Bool-cases, if◌then◌else◌,
}
use tiny_kv_distributed_stor.Prelude.Text.{Text, text_eq, text_eq_refl}
use tiny_kv_distributed_stor.Sharding.Ring.{
  ConsistentHashRing, position, add_positions, remove_positions, add_node, remove_node,
  without_node,
}
use tiny_kv_distributed_stor.Sharding.Ring.Map.{
  IsAscending, insert, erase, node_at, node_at-insert, node_at-erase, insert-IsAscending,
  erase-IsAscending, node_at_above,
}

-- Whether a position is one of those of a node.
abbrev pub is_position : ℕ → ℕ → Text → ℕ → Bool
is_position zero i node_id j = false
is_position (suc rounds) i node_id j =
    is_position rounds (suc i) node_id j || (position node_id i == j)

-- These positions of a node are free.
abbrev pub AreFree : ℕ → ℕ → Text → List (ℕ × Text) → Type 0
AreFree zero i node_id l = Unit
AreFree (suc rounds) i node_id l =
    (node_at (position node_id i) l ≡ none) × AreFree rounds (suc i) node_id l

node_at-add_positions :
    (rounds i j : ℕ) (node_id : Text) (l : List (ℕ × Text))
    → node_at j (add_positions rounds i node_id l)
      ≡ (if is_position rounds i node_id j then some node_id else node_at j l)
unfolding add_positions
node_at-add_positions zero i j node_id l = refl
node_at-add_positions (suc rounds) i j node_id l =
    let p = position node_id i in
    ground (
      arith,
      node_at-add_positions rounds (suc i) j node_id (insert p node_id l),
      node_at-insert p j node_id l,
    )

node_at-remove_positions :
    (rounds i j : ℕ) (node_id : Text) (l : List (ℕ × Text))
    → IsAscending l
    → node_at j (remove_positions rounds i node_id l)
      ≡ (if is_position rounds i node_id j then none else node_at j l)
unfolding remove_positions
node_at-remove_positions zero i j node_id l up = refl
node_at-remove_positions (suc rounds) i j node_id l up =
    let p = position node_id i in
    let later =
      node_at-remove_positions rounds (suc i) j node_id (erase p l) (erase-IsAscending p l up) in
    ground (arith, later, node_at-erase p j l up)

add_positions-IsAscending :
    (rounds i : ℕ) (node_id : Text) (l : List (ℕ × Text))
    → IsAscending l
    → IsAscending (add_positions rounds i node_id l)
unfolding add_positions
add_positions-IsAscending zero i node_id l up = up
add_positions-IsAscending (suc rounds) i node_id l up =
    add_positions-IsAscending rounds (suc i) node_id (insert (position node_id i) node_id l)
      (insert-IsAscending (position node_id i) node_id l up)

remove_positions-IsAscending :
    (rounds i : ℕ) (node_id : Text) (l : List (ℕ × Text))
    → IsAscending l
    → IsAscending (remove_positions rounds i node_id l)
unfolding remove_positions
remove_positions-IsAscending zero i node_id l up = up
remove_positions-IsAscending (suc rounds) i node_id l up =
    remove_positions-IsAscending rounds (suc i) node_id (erase (position node_id i) l)
      (erase-IsAscending (position node_id i) l up)

AreFree-none :
    (rounds i j : ℕ) (node_id : Text) (l : List (ℕ × Text))
    → AreFree rounds i node_id l
    → is_position rounds i node_id j ≡ true
    → node_at j l ≡ none
AreFree-none zero i j node_id l free e = absurd (ground (arith, e))
AreFree-none (suc rounds) i j node_id l free e = elim (Bool-cases (position node_id i == j)) [
  | inl at ↦
      let same : position node_id i ≡ j = ground (arith, at) in
      subst (λ x. node_at x l ≡ none) same free.0
  | inr at ↦ AreFree-none rounds (suc i) j node_id l free.1 (ground (arith, e, at))
]

some_inj : (m n : Text) → some m ≡ some n → m ≡ n
some_inj m n e = ap (λ o. elim o [ none ↦ m | some x ↦ x ]) e

node_at_first : (p : ℕ) (n : Text) (l : List (ℕ × Text)) → node_at p ((p, n) ∷ l) ≡ some n
unfolding node_at
node_at_first p n l = let same : (p == p) ≡ true = ground arith in rw (same, node_at) refl

node_at_before :
    (p q : ℕ) (k : Text) (m : List (ℕ × Text))
    → p < q
    → All (λ e. q < e.0) m
    → node_at p ((q, k) ∷ m) ≡ none
unfolding node_at
node_at_before p q k m h a =
    let other : (q == p) ≡ false = ground arith in
    rw (other, node_at) (node_at_above p q m (omega arith) a)

none_not_some : (n : Text) → none ≡ some n → ⊥
none_not_some n e = ground (arith, e)

same_tail :
    (p : ℕ) (n k : Text) (l m : List (ℕ × Text))
    → All (λ e. p < e.0) l
    → All (λ e. p < e.0) m
    → ((j : ℕ) → node_at j ((p, n) ∷ l) ≡ node_at j ((p, k) ∷ m))
    → (j : ℕ) → node_at j l ≡ node_at j m
unfolding node_at
same_tail p n k l m above_l above_m h j = elim (Bool-cases (p == j)) [
  | inl e ↦
      let low : j ≤ p = ground (arith, e) in
      node_at_above j p l low above_l ∙ sym (node_at_above j p m low above_m)
  | inr e ↦
      subst (λ b. (if b then some n else node_at j l) ≡ (if b then some k else node_at j m)) e (h j)
]

order : (p q : ℕ) → (p < q) ⊎ ((p ≡ q) ⊎ (q < p))
order p q = ground arith

-- Maps with the same entry at each position are the same list.
ascending_ext :
    (l m : List (ℕ × Text))
    → IsAscending l
    → IsAscending m
    → ((j : ℕ) → node_at j l ≡ node_at j m)
    → l ≡ m
ascending_ext [] [] hl hm h = refl
ascending_ext [] ((q, k) ∷ m) hl hm h =
    absurd (none_not_some k (unfold node_at in h q ∙ node_at_first q k m))
ascending_ext ((p, n) ∷ l) [] hl hm h =
    absurd (none_not_some n (unfold node_at in sym (h p) ∙ node_at_first p n l))
ascending_ext ((p, n) ∷ l) ((q, k) ∷ m) hl hm h = elim (order p q) [
  | inl lt ↦
      absurd
        (none_not_some n (sym (node_at_before p q k m lt hm.0) ∙ (sym (h p) ∙ node_at_first p n l)))
  | inr (inl same) ↦
      let h' : (j : ℕ) → node_at j ((p, n) ∷ l) ≡ node_at j ((p, k) ∷ m) =
        subst (λ x. (j : ℕ) → node_at j ((p, n) ∷ l) ≡ node_at j ((x, k) ∷ m)) (sym same) h in
      let above : All (λ e. p < e.0) m = subst (λ x. All (λ e. x < e.0) m) (sym same) hm.0 in
      let value = some_inj n k (sym (node_at_first p n l) ∙ (h' p ∙ node_at_first p k m)) in
      let tail = ascending_ext l m hl.1 hm.1 (same_tail p n k l m hl.0 above h') in
      ap (λ x. (p, x) ∷ l) value ∙ (ap (λ t. (p, k) ∷ t) tail ∙ ap (λ x. (x, k) ∷ m) same)
  | inr (inr gt) ↦
      absurd (none_not_some k (sym (node_at_before q p n l gt hl.0) ∙ (h q ∙ node_at_first q k m)))
]

remove_positions-add_positions :
    (rounds i : ℕ) (node_id : Text) (l : List (ℕ × Text))
    → IsAscending l
    → AreFree rounds i node_id l
    → remove_positions rounds i node_id (add_positions rounds i node_id l) ≡ l
remove_positions-add_positions rounds i node_id l up free =
    let added = add_positions-IsAscending rounds i node_id l up in
    ascending_ext _ l (remove_positions-IsAscending rounds i node_id _ added) up (λ j.
      let there =
        node_at-remove_positions rounds i j node_id (add_positions rounds i node_id l) added in
      let before = node_at-add_positions rounds i j node_id l in
      elim (Bool-cases (is_position rounds i node_id j)) [
        | inl e ↦ ground (arith, there, e, AreFree-none rounds i j node_id l free e)
        | inr e ↦ ground (arith, there, before, e)
      ])

without_node-append :
    (node_id : Text) (nodes : List Text)
    → All (λ n. text_eq n node_id ≡ false) nodes
    → without_node node_id (nodes ++ node_id ∷ []) ≡ nodes
unfolding without_node
without_node-append node_id [] h = rw (text_eq_refl node_id) refl
without_node-append node_id (n ∷ nodes) h =
    rw (h.0, without_node) (ap (◌∷◌ n) (without_node-append node_id nodes h.1))

-- Removing a node that was just added gives the ring and the nodes of before, if the node was not
-- there and its positions were free.
pub remove_node-add_node :
    (node_id : Text) (r : ConsistentHashRing)
    → IsAscending r.ring
    → AreFree r.virtual_nodes_per_node 0 node_id r.ring
    → All (λ n. text_eq n node_id ≡ false) r.nodes
    → remove_node node_id (add_node node_id r) ≡ r
unfolding remove_node add_node
remove_node-add_node node_id r up free new =
    rw
      (
        remove_positions-add_positions r.virtual_nodes_per_node 0 node_id r.ring up free,
        without_node-append node_id r.nodes new,
      )
      refl
