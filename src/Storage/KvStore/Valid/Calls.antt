-- ===== src/Storage/KvStore/Valid/Calls.antt =====
-- The methods of `KVStore` (src/storage/kv_store.cpp) against an LRU list of key and value pairs
-- that is searched from its front.
use tiny_kv_distributed_stor.Prelude.{
  ℕ, suc, ◌≡◌, refl, sym, ap, ◌∙◌, none, some, List, [], ◌∷◌, inl, inr, arith, length, All,
  Option-cases, Bool-cases, ◌==◌, ◌<◌,
}
use tiny_kv_distributed_stor.Prelude.Text.{Text, text_eq_iff}
use tiny_kv_distributed_stor.Prelude.Dict.{
  find, erase, find-insert, insert-IsMap, length-insert_new, erase_absent, is_found,
}
use tiny_kv_distributed_stor.Storage.KvStore.{
  KvStore, init, push_front, set_locked, set, get, del, entries, exists, size,
}
use tiny_kv_distributed_stor.Storage.KvStore.Nodes.{
  Node, deref, unlink, set_value, splice, find_id, find-entries_of, unlink-AreDistinct,
  deref-find_id, find_id-unlink, entries_of-unlink, length-unlink, deref-unlink_self,
  unlink-set_value, deref-set_value,
}
use tiny_kv_distributed_stor.Storage.KvStore.Valid.Evict.{
  IsLinked, IsValid, trim, fresh-unlink, unlink-IsLinked, length-entries, evict_lem, take_all,
  length-entries_of,
}

fresh-deref : (m : ℕ) (l : List Node) → All (λ n. n.id < m) l → deref m l ≡ none
unfolding deref
fresh-deref m [] h = refl
fresh-deref m (n ∷ l) h = ground (arith, fresh-deref m l h.1, h.0)

All-suc : (m : ℕ) (l : List Node) → All (λ n. n.id < m) l → All (λ n. n.id < suc m) l
All-suc m [] h = tt
All-suc m (n ∷ l) h = (omega arith, All-suc m l h.1)

All-deref :
    (m i : ℕ) (l : List Node) {n : Node} → All (λ x. x.id < m) l → deref i l ≡ some n → i < m
unfolding deref
All-deref m i [] h e = cc
All-deref m i (x ∷ l) {n} h e = ground (arith, All-deref m i l {n = n} h.1, h.0)

-- A node moved to the front, with a value that may be new.
front-IsValid :
    (s : KvStore) (k v : Text) (i : ℕ)
    → IsValid s
    → find_id k s.lru ≡ some i
    → (l : List Node) → l ≡ record { id = i; key = k; value = v } ∷ unlink i s.lru
    → IsValid (record s { lru = l })
unfolding find_id
front-IsValid s k v i h found l e =
    let links = h.links in
    let distinct = links.distinct in
    let (n, at, same, named, _) = deref-find_id k i s.lru distinct found in
    let shorter = length-unlink i s.lru at in
    rw e (record {
      links = record {
        linked = λ j. ground (
          arith,
          links.linked j,
          find_id-unlink k j i s.lru distinct found,
          text_eq_iff k j,
          found,
        );
        distinct = (
          ground (arith, find_id-unlink k k i s.lru distinct found, text_eq_iff k k),
          deref-unlink_self i s.lru distinct,
          unlink-AreDistinct i s.lru distinct,
        );
        fresh = (
          All-deref s.next_id i s.lru links.fresh at,
          fresh-unlink s.next_id i s.lru links.fresh,
        );
        mapped = links.mapped;
        counted = omega (arith, shorter, links.counted);
      };
      bounded = λ c. omega (arith, shorter, h.bounded c);
    })

splice_found :
    (s : KvStore) (k : Text) (i : ℕ) (n : Node)
    → IsValid s
    → find_id k s.lru ≡ some i
    → deref i s.lru ≡ some n
    → n.id ≡ i
    → n.key ≡ k
    → splice i s.lru ≡ record { id = i; key = k; value = n.value } ∷ unlink i s.lru
unfolding splice
splice_found s k i n h found at same named = ground arith

splice_set :
    (s : KvStore) (k v : Text) (i : ℕ) (n : Node)
    → deref i s.lru ≡ some n
    → n.id ≡ i
    → n.key ≡ k
    → splice i (set_value i v s.lru) ≡ record { id = i; key = k; value = v } ∷ unlink i s.lru
unfolding splice
splice_set s k v i n at same named =
    rw (deref-set_value i v s.lru at, splice, unlink-set_value) (ground arith)

-- Within the capacity nothing is trimmed away.
trim_fits :
    (s : KvStore) (l : List (Text × Text))
    → IsValid s
    → length l ≡ length s.lru
    → trim s.capacity l ≡ l
trim_fits s l h e = elim (Bool-cases (s.capacity == 0)) [
  | inl z ↦ rw z
  | inr z ↦ rw z (take_all s.capacity l (omega (arith, h.bounded (ground arith))))
]

front_entries :
    (s : KvStore) (k v : Text) (i : ℕ) (l : List Node)
    → IsValid s
    → find_id k s.lru ≡ some i
    → l ≡ record { id = i; key = k; value = v } ∷ unlink i s.lru
    → entries (record s { lru = l }) ≡ (k, v) ∷ erase k (entries s)
unfolding entries
front_entries s k v i l h found e = rw (e, entries_of-unlink k i s.lru h.links.distinct found)

erase-length :
    (s : KvStore) (k v : Text) (i : ℕ)
    → IsValid s
    → find_id k s.lru ≡ some i
    → length ((k, v) ∷ erase k (entries s)) ≡ length s.lru
unfolding entries
erase-length s k v i h found =
    let (n, at, _, _, _) = deref-find_id k i s.lru h.links.distinct found in
    rw (← entries_of-unlink k i s.lru h.links.distinct found, length-entries_of)
      (length-unlink i s.lru at)

pub absent_entries :
    (s : KvStore) (k : Text) → IsValid s → find k s.index ≡ none → find k (entries s) ≡ none
unfolding entries
absent_entries s k h miss = find-entries_of k s.lru (sym (h.links.linked k) ∙ miss)

push_front-IsLinked :
    (s : KvStore) (k v : Text) → IsValid s → find k s.index ≡ none → IsLinked (push_front k v s)
unfolding push_front find_id deref
push_front-IsLinked s k v h miss =
    let links = h.links in
    record {
      linked = λ j. ground (arith, find-insert k j s.next_id s.index, links.linked j);
      distinct =
          (sym (links.linked k) ∙ miss, fresh-deref s.next_id s.lru links.fresh, links.distinct);
      fresh = (omega arith, All-suc s.next_id s.lru links.fresh);
      mapped = insert-IsMap k s.next_id s.index links.mapped;
      counted = omega (arith, length-insert_new k s.next_id s.index miss, links.counted);
    }

-- `setLocked` keeps the index and the list in step, and the entries are then those of an LRU list:
-- the key with its value in front, the others in their old order, and at most `capacity` of them.
pub set_locked-refines :
    (s : KvStore) (k v : Text)
    → IsValid s
    → IsValid (set_locked k v s)
      × ((set_locked k v s).capacity ≡ s.capacity)
      × (entries (set_locked k v s) ≡ trim s.capacity ((k, v) ∷ erase k (entries s)))
unfolding set_locked entries
set_locked-refines s k v h = elim (Option-cases (find k s.index)) [
  | inl miss ↦
      let (v', cap, kept) = evict_lem (push_front k v s) (push_front-IsLinked s k v h miss) in
      rw (miss, set_locked)
        (
          v',
          cap,
          kept
              ∙ ap (λ l. trim s.capacity ((k, v) ∷ l))
                  (sym (erase_absent k _ (absent_entries s k h miss))),
        )
  | inr (i, hit) ↦
      let found : find_id k s.lru ≡ some i = sym (h.links.linked k) ∙ hit in
      let (n, at, same, named, _) = deref-find_id k i s.lru h.links.distinct found in
      let moved = splice_set s k v i n at same named in
      rw (hit, set_locked)
        (
          front-IsValid s k v i h found _ moved,
          refl,
          front_entries s k v i _ h found moved
              ∙ sym (trim_fits s _ h (erase-length s k v i h found)),
        )
]

-- `set` on a valid store gives a valid store with the same capacity, whose entries are the new one
-- followed by the others in their old order, cut to the capacity unless that is zero.
pub set-refines :
    (s : KvStore) (k v : Text)
    → IsValid s
    → IsValid (set k v s)
      × ((set k v s).capacity ≡ s.capacity)
      × (entries (set k v s) ≡ trim s.capacity ((k, v) ∷ erase k (entries s)))
unfolding set
set-refines s k v h = set_locked-refines s k v h

-- What a client of an LRU list sees after looking a key up: a hit moves to the front.
abbrev pub looked_up : Text → List (Text × Text) → List (Text × Text)
looked_up k l = elim (find k l) [ none ↦ l | some v ↦ (k, v) ∷ erase k l ]

-- `get` on a valid store returns the value of the key's entry, if there is one, and leaves a valid
-- store with the same capacity, in which only that entry has moved, to the front.
pub get-refines :
    (s : KvStore) (k : Text)
    → IsValid s
    → IsValid (get k s).1
      × ((get k s).1.capacity ≡ s.capacity)
      × ((get k s).0 ≡ find k (entries s))
      × (entries (get k s).1 ≡ looked_up k (entries s))
unfolding get
get-refines s k h = elim (Option-cases (find k s.index)) [
  | inl miss ↦
      let absent = absent_entries s k h miss in
      rw (miss, get) (h, refl, sym absent, rw (absent, looked_up))
  | inr (i, hit) ↦
      let found : find_id k s.lru ≡ some i = sym (h.links.linked k) ∙ hit in
      let (n, at, same, named, value) = deref-find_id k i s.lru h.links.distinct found in
      let value' : find k (entries s) ≡ some n.value = unfold entries in value in
      let moved = splice_found s k i n h found at same named in
      rw (hit, get)
        (
          front-IsValid s k n.value i h found _ moved,
          refl,
          rw (moved, value') (unfold deref in ground arith),
          rw (value', looked_up) (front_entries s k n.value i _ h found moved),
        )
]

-- `del` on a valid store says whether the key had an entry, and leaves a valid store with the same
-- capacity and all the other entries in their order.
pub del-refines :
    (s : KvStore) (k : Text)
    → IsValid s
    → IsValid (del k s).1
      × ((del k s).1.capacity ≡ s.capacity)
      × ((del k s).0 ≡ is_found (find k (entries s)))
      × (entries (del k s).1 ≡ erase k (entries s))
unfolding del
del-refines s k h = elim (Option-cases (find k s.index)) [
  | inl miss ↦
      let absent = absent_entries s k h miss in
      rw (miss, del) (h, refl, rw absent, sym (erase_absent k _ absent))
  | inr (i, hit) ↦
      let found : find_id k s.lru ≡ some i = sym (h.links.linked k) ∙ hit in
      let (n, at, _, _, value) = deref-find_id k i s.lru h.links.distinct found in
      let value' : find k (entries s) ≡ some n.value = unfold entries in value in
      rw (hit, del)
        (
          record {
            links = unlink-IsLinked s k i h.links found;
            bounded = λ c. omega (arith, length-unlink i s.lru at, h.bounded c);
          },
          refl,
          rw value',
          unfold entries in entries_of-unlink k i s.lru h.links.distinct found,
        )
]

-- On a valid store, `exists` says whether the key has an entry in the list, and `size`, which counts
-- the index, is the number of entries of the list.
pub exists_size :
    (s : KvStore) (k : Text)
    → IsValid s
    → (exists k s ≡ is_found (find k (entries s))) × (size s ≡ length (entries s))
unfolding exists size
exists_size s k h = (
  elim (Option-cases (find k s.index)) [
    | inl miss ↦ rw (miss, exists, absent_entries s k h miss)
    | inr (i, hit) ↦
        let found : find_id k s.lru ≡ some i = sym (h.links.linked k) ∙ hit in
        let (n, at, same, named, value) = deref-find_id k i s.lru h.links.distinct found in
        let value' : find k (entries s) ≡ some n.value = unfold entries in value in
        rw (hit, exists, value')
  ],
  h.links.counted ∙ sym (length-entries s),
)

pub init-IsValid : (capacity : ℕ) → IsValid (init capacity) × (entries (init capacity) ≡ [])
unfolding init entries find find_id
init-IsValid capacity = (
  record {
    links = record { linked = λ k. refl; distinct = tt; fresh = tt; mapped = tt; counted = refl };
    bounded = λ h. omega arith;
  },
  refl,
)
