-- ===== src/Storage/KvStore/Valid/Evict.antt =====
-- The invariant of `KVStore` (src/storage/kv_store.cpp) and its eviction loop.
use tiny_kv_distributed_stor.Prelude.{
  ℕ, zero, suc, ◌-◌, ◌≤◌, ◌<◌, ◌≡◌, ◌≢◌, refl, sym, ap, ◌∙◌, none, some, List, [], ◌∷◌, inl, inr,
  arith, ltb, ◌==◌, if◌then◌else◌, length, take, All, Bool-cases, Option-cases,
}
use tiny_kv_distributed_stor.Prelude.Text.{Text}
use tiny_kv_distributed_stor.Prelude.Dict.{
  find, erase, find-erase, IsMap, erase-IsMap, length-erase,
}
use tiny_kv_distributed_stor.Storage.KvStore.{KvStore, entries, evict_back, evict_loop, evict}
use tiny_kv_distributed_stor.Storage.KvStore.Nodes.{
  Node, unlink, back, pop_back, find_id, AreDistinct, entries_of, unlink-AreDistinct, deref-find_id,
  find_id-unlink, length-unlink, pop_back-unlink,
}

-- `index` holds, for each key of the list, the iterator to its node, and nothing else.
pub record IsLinked (s : KvStore) : Type 0 where
  pub linked : (k : Text) → find k s.index ≡ find_id k s.lru
  pub distinct : AreDistinct s.lru
  pub fresh : All (λ n. n.id < s.next_id) s.lru
  pub mapped : IsMap s.index
  pub counted : length s.index ≡ length s.lru

pub record IsValid (s : KvStore) : Type 0 where
  pub links : IsLinked s
  pub bounded : s.capacity ≢ 0 → length s.lru ≤ s.capacity

-- The entries that stay at a capacity, where 0 is no bound.
abbrev pub trim {ℓ} : {A : Type ℓ} → ℕ → List A → List A
trim cap l = if cap == 0 then l else take cap l

pub fresh-unlink :
    (m i : ℕ) (l : List Node) → All (λ n. n.id < m) l → All (λ n. n.id < m) (unlink i l)
unfolding unlink
fresh-unlink m i [] h = tt
fresh-unlink m i (n ∷ l) h = elim (Bool-cases (n.id == i)) [
  | inl e ↦ rw e h.1
  | inr e ↦ rw e (h.0, fresh-unlink m i l h.1)
]

-- Taking a node out of the list and its key out of the index keeps the two in step.
pub unlink-IsLinked :
    (s : KvStore) (k : Text) (i : ℕ)
    → IsLinked s
    → find_id k s.lru ≡ some i
    → IsLinked (record s { lru = unlink i s.lru; index = erase k s.index })
unlink-IsLinked s k i v found =
    let (n, at, _, _, _) = deref-find_id k i s.lru v.distinct found in
    record {
      linked = λ j.
          ground (arith, find-erase k j s.index, v.linked j, find_id-unlink k j i s.lru v.distinct);
      distinct = unlink-AreDistinct i s.lru v.distinct;
      fresh = fresh-unlink s.next_id i s.lru v.fresh;
      mapped = erase-IsMap k s.index v.mapped;
      counted = omega (
        arith,
        length-erase k s.index {v = i} v.mapped (v.linked k ∙ found),
        length-unlink i s.lru at,
        v.counted,
      );
    }

back-none : (l : List Node) → back l ≡ none → l ≡ []
unfolding back
back-none [] h = refl
back-none (n ∷ l) h = ground arith

pop_back-take :
    (l : List Node) (n : ℕ) → length l ≡ suc n → entries_of (pop_back l) ≡ take n (entries_of l)
unfolding pop_back
pop_back-take [] n h = absurd (omega arith)
pop_back-take (x ∷ []) zero h = refl
pop_back-take (x ∷ []) (suc n) h = absurd (omega arith)
pop_back-take (x ∷ y ∷ l) zero h = absurd (omega arith)
pop_back-take (x ∷ y ∷ l) (suc n) h =
    ap (◌∷◌ (x.key, x.value)) (pop_back-take (y ∷ l) n (omega arith))

take-take_pred {ℓ} : {A : Type ℓ} (n m : ℕ) (l : List A) → n ≤ m → take n (take m l) ≡ take n l
take-take_pred zero m l h = refl
take-take_pred (suc n) zero l h = absurd (omega arith)
take-take_pred (suc n) (suc m) [] h = refl
take-take_pred (suc n) (suc m) (x ∷ l) h = ap (◌∷◌ x) (take-take_pred n m l (omega arith))

pub take_all {ℓ} : {A : Type ℓ} (n : ℕ) (l : List A) → length l ≤ n → take n l ≡ l
take_all zero [] h = refl
take_all zero (x ∷ l) h = absurd (omega arith)
take_all (suc n) [] h = refl
take_all (suc n) (x ∷ l) h = ap (◌∷◌ x) (take_all n l (omega arith))

pub length-take-le {ℓ} : {A : Type ℓ} (n : ℕ) (l : List A) → length (take n l) ≤ n
length-take-le zero l = omega arith
length-take-le (suc n) [] = omega arith
length-take-le (suc n) (x ∷ l) = omega (arith, length-take-le n l)

pub length-entries_of : (l : List Node) → length (entries_of l) ≡ length l
length-entries_of [] = refl
length-entries_of (n ∷ l) = ap suc (length-entries_of l)

pub length-entries : (s : KvStore) → length (entries s) ≡ length s.lru
unfolding entries
length-entries s = length-entries_of s.lru

-- One round of the loop, on a list that is not empty.
evict_back_lem :
    (s : KvStore)
    → IsLinked s
    → 0 < length s.lru
    → IsLinked (evict_back s)
      × ((evict_back s).capacity ≡ s.capacity)
      × (entries (evict_back s) ≡ take (length s.lru - 1) (entries s))
      × (suc (length (evict_back s).lru) ≡ length s.lru)
unfolding evict_back entries
evict_back_lem s v some_node = elim (Option-cases (back s.lru)) [
  | inl e ↦ absurd (omega (arith, ap length (back-none s.lru e)))
  | inr (b, e) ↦
      let (found, popped) = pop_back-unlink s.lru b v.distinct e in
      let (n, at, _, _, _) = deref-find_id b.key b.id s.lru v.distinct found in
      rw (e, evict_back)
        (
          rw popped (unlink-IsLinked s b.key b.id v found),
          refl,
          pop_back-take s.lru (length s.lru - 1) (omega arith),
          rw popped (length-unlink b.id s.lru at),
        )
]

-- With as much fuel as the list has nodes the loop ends by its test, and leaves the first
-- `capacity` entries.
evict_loop_lem :
    (fuel : ℕ) (s : KvStore)
    → IsLinked s
    → length s.lru ≤ fuel
    → IsLinked (evict_loop fuel s)
      × ((evict_loop fuel s).capacity ≡ s.capacity)
      × (entries (evict_loop fuel s) ≡ take s.capacity (entries s))
      × (length (evict_loop fuel s).lru ≤ s.capacity)
unfolding evict_loop
evict_loop_lem zero s v h =
    (v, refl, sym (take_all s.capacity (entries s) (entries_short (omega arith))), omega arith)
  where
    entries_short : length s.lru ≤ s.capacity → length (entries s) ≤ s.capacity
    entries_short b = rw length-entries b
evict_loop_lem (suc fuel) s v h = elim (Bool-cases (ltb s.capacity (length s.lru))) [
  | inl e ↦
      let over : s.capacity < length s.lru = ground arith in
      let (v', cap, kept, shorter) = evict_back_lem s v (omega arith) in
      let (v'', cap', kept', fits) = evict_loop_lem fuel (evict_back s) v' (omega arith) in
      rw e (
        v'',
        cap' ∙ cap,
        kept'
            ∙ (ap (λ c. take c (entries (evict_back s))) cap
                ∙ (ap (take s.capacity) kept
                    ∙ take-take_pred s.capacity _ (entries s) (omega arith))),
        omega arith,
      )
  | inr e ↦
      let fits : length s.lru ≤ s.capacity = ground arith in
      rw e (v, refl, sym (take_all s.capacity (entries s) (rw length-entries fits)), fits)
]

-- The eviction makes a store with a sound index valid, and keeps the first entries.
pub evict_lem :
    (s : KvStore)
    → IsLinked s
    → IsValid (evict s)
      × ((evict s).capacity ≡ s.capacity)
      × (entries (evict s) ≡ trim s.capacity (entries s))
unfolding evict
evict_lem s v = elim (Bool-cases (s.capacity == 0)) [
  | inl e ↦ rw e (record { links = v; bounded = λ h. absurd (h (ground arith)) }, refl, refl)
  | inr e ↦
      let (v', cap, kept, fits) = evict_loop_lem (length s.lru) s v (omega arith) in
      rw e (record { links = v'; bounded = λ _. omega arith }, cap, kept)
]
