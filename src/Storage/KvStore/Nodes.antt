-- ===== src/Storage/KvStore/Nodes.antt =====
-- The list nodes of `KVStore` and what `std::list` does with them: reading through an iterator,
-- `erase`, `splice` to the front, `back` and `pop_back`.
use tiny_kv_distributed_stor.Prelude.{
  ℕ, suc, ◌≡◌, refl, ap, false, Option, none, some, List, [], ◌∷◌, map, inl, inr, arith, ◌==◌,
  ==_iff, Bool-cases, if◌then◌else◌, length,
}
use tiny_kv_distributed_stor.Prelude.Text.{Text, text_eq, text_eq_iff, text_eq_refl}
use tiny_kv_distributed_stor.Prelude.Dict.{find, erase, erase_absent, IsMap}

-- `Entry` in its list node.
pub record Node : Type 0 where
  pub id : ℕ
  pub key : Text
  pub value : Text

unfoldable pub deref : ℕ → List Node → Option Node
deref i [] = none
deref i (n ∷ l) = if n.id == i then some n else deref i l

unfoldable pub unlink : ℕ → List Node → List Node
unlink i [] = []
unlink i (n ∷ l) = if n.id == i then l else n ∷ unlink i l

-- `it->second = value`
unfoldable pub set_value : ℕ → Text → List Node → List Node
set_value i v [] = []
set_value i v (n ∷ l) = if n.id == i then (record n { value = v }) ∷ l else n ∷ set_value i v l

-- `lru_.splice(lru_.begin(), lru_, it)`
unfoldable pub splice : ℕ → List Node → List Node
splice i l = elim (deref i l) [ none ↦ l | some n ↦ n ∷ unlink i l ]

unfoldable pub back : List Node → Option Node
back [] = none
back (n ∷ l) = elim (back l) [ none ↦ some n | some m ↦ some m ]

unfoldable pub pop_back : List Node → List Node
pop_back [] = []
pop_back (n ∷ []) = []
pop_back (n ∷ m ∷ l) = n ∷ pop_back (m ∷ l)

-- The iterator of the first node with the key.
unfoldable pub find_id : Text → List Node → Option ℕ
find_id k [] = none
find_id k (n ∷ l) = if text_eq n.key k then some n.id else find_id k l

abbrev pub entries_of : List Node → List (Text × Text)
entries_of = map (λ n. (n.key, n.value))

-- No key twice, and no node twice.
abbrev pub AreDistinct : List Node → Type 0
AreDistinct [] = Unit
AreDistinct (n ∷ l) = (find_id n.key l ≡ none) × (deref n.id l ≡ none) × AreDistinct l

pub find-entries_of : (k : Text) (l : List Node) → find_id k l ≡ none → find k (entries_of l) ≡ none
unfolding find find_id
find-entries_of k [] h = refl
find-entries_of k (n ∷ l) h = ground (arith, find-entries_of k l)

pub find_id-unlink-none :
    (k : Text) (i : ℕ) (l : List Node) → find_id k l ≡ none → find_id k (unlink i l) ≡ none
unfolding find_id unlink
find_id-unlink-none k i [] h = refl
find_id-unlink-none k i (n ∷ l) h = ground (arith, find_id-unlink-none k i l)

pub deref-unlink-none : (j i : ℕ) (l : List Node) → deref j l ≡ none → deref j (unlink i l) ≡ none
unfolding deref unlink
deref-unlink-none j i [] h = refl
deref-unlink-none j i (n ∷ l) h = ground (arith, deref-unlink-none j i l)

pub unlink-AreDistinct : (i : ℕ) (l : List Node) → AreDistinct l → AreDistinct (unlink i l)
unfolding unlink
unlink-AreDistinct i [] h = tt
unlink-AreDistinct i (n ∷ l) h = elim (Bool-cases (n.id == i)) [
  | inl e ↦ rw e h.2
  | inr e ↦ rw e (
    find_id-unlink-none n.key i l h.0,
    deref-unlink-none n.id i l h.1,
    unlink-AreDistinct i l h.2,
  )
]

-- A key that the list holds is found, through its iterator, with its value.
pub deref-find_id :
    (k : Text) (i : ℕ) (l : List Node)
    → AreDistinct l
    → find_id k l ≡ some i
    → (n : Node) × (deref i l ≡ some n)
      × (n.id ≡ i)
      × (n.key ≡ k)
      × (find k (entries_of l) ≡ some n.value)
unfolding find_id deref find
deref-find_id k i [] d h = cc
deref-find_id k i (n ∷ l) d h = elim (Bool-cases (text_eq n.key k)) [
  | inl e ↦ (n, ground (arith, ==_iff n.id i), ground arith, (text_eq_iff n.key k).0 e, rw e)
  | inr e ↦
      let (m, at, same, named, found) = deref-find_id k i l d.2 (ground arith) in
      (m, ground (arith, at, d.1, ==_iff n.id i), same, named, rw e found)
]

pub find_id-unlink :
    (k j : Text) (i : ℕ) (l : List Node)
    → AreDistinct l
    → find_id k l ≡ some i
    → find_id j (unlink i l) ≡ (if text_eq k j then none else find_id j l)
unfolding find_id unlink
find_id-unlink k j i [] d h = cc
find_id-unlink k j i (n ∷ l) d h = elim (Bool-cases (text_eq n.key k)) [
  | inl e ↦ ground (arith, text_eq_iff n.key k, text_eq_iff n.key j, text_eq_iff k j)
  | inr e ↦
      let (m, at, same, named, found) = deref-find_id k i l d.2 (ground arith) in
      ground (
        arith,
        at,
        d.1,
        text_eq_iff n.key k,
        text_eq_iff n.key j,
        text_eq_iff k j,
        find_id-unlink k j i l d.2,
      )
]

pub entries_of-unlink :
    (k : Text) (i : ℕ) (l : List Node)
    → AreDistinct l
    → find_id k l ≡ some i
    → entries_of (unlink i l) ≡ erase k (entries_of l)
unfolding find_id unlink erase
entries_of-unlink k i [] d h = cc
entries_of-unlink k i (n ∷ l) d h = elim (Bool-cases (text_eq n.key k)) [
  | inl e ↦
      ground (arith, erase_absent k (entries_of l), find-entries_of k l, text_eq_iff n.key k, d.0)
  | inr e ↦
      let (m, at, same, named, found) = deref-find_id k i l d.2 (ground arith) in
      ground (arith, at, d.1, entries_of-unlink k i l d.2)
]

pub length-unlink :
    (i : ℕ) (l : List Node) {n : Node} → deref i l ≡ some n → suc (length (unlink i l)) ≡ length l
unfolding deref unlink
length-unlink i [] h = cc
length-unlink i (m ∷ l) {n} h = ground (arith, length-unlink i l {n = n})

pub deref-unlink_self : (i : ℕ) (l : List Node) → AreDistinct l → deref i (unlink i l) ≡ none
unfolding deref unlink
deref-unlink_self i [] d = refl
deref-unlink_self i (n ∷ l) d = ground (arith, deref-unlink_self i l d.2, d.1)

-- Setting a value through an iterator changes that node alone.
pub unlink-set_value : (i : ℕ) (v : Text) (l : List Node) → unlink i (set_value i v l) ≡ unlink i l
unfolding unlink set_value
unlink-set_value i v [] = refl
unlink-set_value i v (n ∷ l) = ground (arith, unlink-set_value i v l)

pub deref-set_value :
    (i : ℕ) (v : Text) (l : List Node) {n : Node}
    → deref i l ≡ some n
    → deref i (set_value i v l) ≡ some (record n { value = v })
unfolding deref set_value
deref-set_value i v [] h = cc
deref-set_value i v (m ∷ l) {n} h = ground (arith, deref-set_value i v l {n = n})

-- In a list of distinct nodes, what is found in the tail is not the head.
other_node :
    (n x : Node) (k : Text) (i : ℕ) (l : List Node)
    → find_id n.key l ≡ none
    → deref n.id l ≡ none
    → find_id k l ≡ some i
    → deref i l ≡ some x
    → (text_eq n.key k ≡ false) × ((n.id == i) ≡ false)
other_node n x k i l no_key no_id found at =
    (ground (arith, text_eq_iff n.key k), ground (arith, ==_iff n.id i))

-- The last node is the one that `pop_back` unlinks.
pub pop_back-unlink :
    (l : List Node) (b : Node)
    → AreDistinct l
    → back l ≡ some b
    → (find_id b.key l ≡ some b.id) × (pop_back l ≡ unlink b.id l)
unfolding back pop_back find_id unlink
pop_back-unlink [] b d h = cc
pop_back-unlink (n ∷ []) b d h = ground (arith, text_eq_refl b.key)
pop_back-unlink (n ∷ m ∷ l) b d h =
    let (found, popped) = pop_back-unlink (m ∷ l) b d.2 (ground arith) in
    let (x, at, same, named, _) = deref-find_id b.key b.id (m ∷ l) d.2 found in
    let (key_differs, id_differs) = other_node n x b.key b.id (m ∷ l) d.0 d.1 found at in
    (rw key_differs found, rw id_differs (ap (◌∷◌ n) popped))

pub entries_of-IsMap : (l : List Node) → AreDistinct l → IsMap (entries_of l)
entries_of-IsMap [] d = tt
entries_of-IsMap (n ∷ l) d = (find-entries_of n.key l d.0, entries_of-IsMap l d.2)
