-- ===== src/Storage/KvStore.antt =====
-- `KVStore` (src/storage/kv_store.cpp, include/tinykv/storage/kv_store.hpp): a doubly linked list
-- in order of use and a hash index from each key to its list node. A node carries a number of its
-- own, which never changes and stands for the `std::list` iterator, so `index` holds iterators.
-- A method takes the store and returns the new store; the lock makes each one atomic.
pub mod Nodes
pub mod Valid
pub mod Contents
pub mod Interface
use tiny_kv_distributed_stor.Prelude.{
  ℕ, zero, suc, ◌+◌, ◌≡◌, Bool, true, false, Option, none, some, List, [], ◌∷◌, map, ltb, ◌==◌,
  if◌then◌else◌, length,
}
use tiny_kv_distributed_stor.Prelude.Text.{Text}
use tiny_kv_distributed_stor.Prelude.Dict.{Dict, find, insert, erase}
use tiny_kv_distributed_stor.Prelude.Int.{ℤ, pos, ◌+ℤ◌}
use tiny_kv_distributed_stor.Prelude.Decimal.{stoll, to_string, wrap64}
use Nodes.{Node, deref, unlink, set_value, splice, back, pop_back}

pub record KvStore : Type 0 where
  pub capacity : ℕ
  pub lru : List Node
  pub index : Dict ℕ
  pub next_id : ℕ

-- `KVStore(capacity)`
unfoldable pub init : ℕ → KvStore
init capacity = record { capacity = capacity; lru = []; index = []; next_id = 0 }

-- The body of the eviction loop: drop the last node and its index entry.
unfoldable pub evict_back : KvStore → KvStore
evict_back s = elim (back s.lru) [
  | none ↦ s
  | some last ↦ record s { lru = pop_back s.lru; index = erase last.key s.index }
]

-- `while (lru_.size() > capacity_)`, on fuel.
unfoldable pub evict_loop : ℕ → KvStore → KvStore
evict_loop zero s = s
evict_loop (suc fuel) s =
    let rest = evict_loop fuel (evict_back s) in if ltb s.capacity (length s.lru) then rest else s

-- The test `capacity_ != 0` around the loop. A list of n nodes loses one in each round.
unfoldable pub evict : KvStore → KvStore
unfolding evict_loop evict_back
evict s = if s.capacity == 0 then s else evict_loop (length s.lru) s

-- `lru_.emplace_front(key, value); index_[key] = lru_.begin();`
unfoldable pub push_front : Text → Text → KvStore → KvStore
push_front key value s = record s {
  lru = record { id = s.next_id; key = key; value = value } ∷ s.lru;
  index = insert key s.next_id s.index;
  next_id = suc s.next_id;
}

unfoldable pub set_locked : Text → Text → KvStore → KvStore
unfolding evict push_front
set_locked key value s = elim (find key s.index) [
  | some it ↦ record s { lru = splice it (set_value it value s.lru) }
  | none ↦ evict (push_front key value s)
]

unfoldable pub set : Text → Text → KvStore → KvStore
unfolding set_locked
set key value s = set_locked key value s

-- `none` is `std::nullopt`. The last step reads the value through the iterator.
unfoldable pub get : Text → KvStore → Option Text × KvStore
get key s = elim (find key s.index) [
  | none ↦ (none, s)
  | some it ↦
      let moved = splice it s.lru in
      (elim (deref it moved) [ none ↦ none | some n ↦ some n.value ], record s { lru = moved })
]

unfoldable pub del : Text → KvStore → Bool × KvStore
del key s = elim (find key s.index) [
  | none ↦ (false, s)
  | some it ↦ (true, record s { lru = unlink it s.lru; index = erase key s.index })
]

-- What `forEach` hands to its callback, in order.
unfoldable pub entries : KvStore → List (Text × Text)
entries s = map (λ n. (n.key, n.value)) s.lru

unfoldable pub exists : Text → KvStore → Bool
exists key s = elim (find key s.index) [ none ↦ false | some _ ↦ true ]

unfoldable pub size : KvStore → ℕ
size s = length s.index

-- The number that `incrementBy` starts from; `none` where `stoll` throws.
unfoldable pub current : Text → KvStore → Option ℤ
current key s = elim (find key s.index) [
  | none ↦ some (pos 0)
  | some it ↦ elim (deref it s.lru) [ none ↦ none | some n ↦ stoll n.value ]
]

-- `none` is the exception `std::invalid_argument`. The sum of two `long long` wraps around.
unfoldable pub increment_by : Text → ℤ → KvStore → Option ℤ × KvStore
unfolding set_locked
increment_by key delta s = elim (current key s) [
  | none ↦ (none, s)
  | some n ↦
      let updated = wrap64 (n +ℤ delta) in (some updated, set_locked key (to_string updated) s)
]
