-- ===== src/Storage/KvStore/Contents.antt =====
-- `KVStore` (src/storage/kv_store.cpp) as a map from keys to values, without the order of use.
use tiny_kv_distributed_stor.Prelude.{
  ℕ, ◌≡◌, refl, sym, ap, ◌∙◌, Option, none, some, List, ◌∷◌, inl, inr, arith, if◌then◌else◌,
  Option-cases,
}
use tiny_kv_distributed_stor.Prelude.Text.{Text, text_eq, text_eq_iff, text_eq_refl}
use tiny_kv_distributed_stor.Prelude.Dict.{find, erase, find-erase}
use tiny_kv_distributed_stor.Prelude.Int.{ℤ, pos, ◌+ℤ◌}
use tiny_kv_distributed_stor.Prelude.Decimal.{stoll, to_string, wrap64, wrap64_of_fits, Fits64}
use tiny_kv_distributed_stor.Prelude.Decimal.RoundTrip.{stoll-to_string}
use tiny_kv_distributed_stor.Storage.KvStore.{
  KvStore, set_locked, get, del, entries, current, increment_by,
}
use tiny_kv_distributed_stor.Storage.KvStore.Nodes.{find_id, deref-find_id}
use tiny_kv_distributed_stor.Storage.KvStore.Valid.{
  IsValid, trim, looked_up, absent_entries, set_locked-refines, get-refines, del-refines,
}

abbrev pub contents : KvStore → Text → Option Text
contents s k = find k (entries s)

-- The number that INCR starts from, for a key with this value. `stoll` skips white space and stops at
-- the end of the digits: the value 12abc counts as 12.
abbrev pub number_of : Option Text → Option ℤ
number_of none = some (pos 0)
number_of (some v) = stoll v

pub current-eq-number_of :
    (s : KvStore) (k : Text) → IsValid s → current k s ≡ number_of (contents s k)
unfolding current
current-eq-number_of s k h = elim (Option-cases (find k s.index)) [
  | inl miss ↦ rw (miss, current, absent_entries s k h miss)
  | inr (i, hit) ↦
      let found : find_id k s.lru ≡ some i = sym (h.links.linked k) ∙ hit in
      let (n, at, same, named, value) = deref-find_id k i s.lru h.links.distinct found in
      let value' : contents s k ≡ some n.value = unfold entries in value in
      rw (hit, current, at, value')
]

-- Without a capacity `set` changes the value of its key and of no other.
pub contents-set_locked :
    (s : KvStore) (k v j : Text)
    → IsValid s
    → s.capacity ≡ 0
    → contents (set_locked k v s) j ≡ (if text_eq k j then some v else contents s j)
contents-set_locked s k v j h unbounded =
    let (_, _, e) = set_locked-refines s k v h in
    ap (find j) (e ∙ ap (λ c. trim c ((k, v) ∷ erase k (entries s))) unbounded)
    ∙ unfold find in ground (arith, find-erase k j (entries s))

-- `get` leaves every value as it was.
pub contents-get : (s : KvStore) (k j : Text) → IsValid s → contents (get k s).1 j ≡ contents s j
contents-get s k j h =
    let (_, _, _, e) = get-refines s k h in ap (find j) e ∙ find-looked_up k j (entries s)
  where
    find-looked_up : (k j : Text) (l : List (Text × Text)) → find j (looked_up k l) ≡ find j l
    find-looked_up k j l = elim (Option-cases (find k l)) [
      | inl e ↦ rw (e, looked_up)
      | inr (v, e) ↦
          rw (e, looked_up) (unfold find in ground (arith, find-erase k j l, text_eq_iff k j, e))
    ]

pub contents-del :
    (s : KvStore) (k j : Text)
    → IsValid s
    → contents (del k s).1 j ≡ (if text_eq k j then none else contents s j)
contents-del s k j h =
    let (_, _, _, e) = del-refines s k h in ap (find j) e ∙ find-erase k j (entries s)

-- What `incrementBy` does from a number that could be read, or not.
abbrev pub incremented : Text → ℤ → KvStore → Option ℤ → Option ℤ × KvStore
incremented k delta s none = (none, s)
incremented k delta s (some n) =
    (some (wrap64 (n +ℤ delta)), set_locked k (to_string (wrap64 (n +ℤ delta))) s)

-- `increment_by` reads the number of its key's value, also where the sum leaves the range.
pub increment_by-incremented :
    (s : KvStore) (k : Text) (delta : ℤ)
    → IsValid s
    → increment_by k delta s ≡ incremented k delta s (number_of (contents s k))
unfolding increment_by
increment_by-incremented s k delta h = ap (incremented k delta s) (current-eq-number_of s k h)

-- The sum is in the range of `long long`, if there is one.
abbrev pub SumFits : ℤ → Option ℤ → Type 0
SumFits delta none = Unit
SumFits delta (some n) = Fits64 (n +ℤ delta)

-- The sum, and the entries with its numeral in front.
abbrev pub sum_with : ℤ → Option ℤ → Option ℤ
sum_with delta none = none
sum_with delta (some n) = some (n +ℤ delta)

abbrev pub with_number : ℕ → Text → List (Text × Text) → Option ℤ → List (Text × Text)
with_number capacity k l none = l
with_number capacity k l (some n) = trim capacity ((k, to_string n) ∷ erase k l)

-- On a valid store, where the sum, if there is one, fits into 64 bits, `increment_by` leaves a valid
-- store of the same capacity. If the key is missing, or its value begins, after white space, with a
-- numeral of 64 bits, whatever follows that, the sum is returned, and its numeral is the key's value, at
-- the front of the entries, cut to the capacity. Otherwise it fails, and the entries stay as they are.
pub increment_by-refines :
    (s : KvStore) (k : Text) (delta : ℤ)
    → IsValid s
    → SumFits delta (number_of (contents s k))
    → IsValid (increment_by k delta s).1
      × ((increment_by k delta s).1.capacity ≡ s.capacity)
      × ((increment_by k delta s).0 ≡ sum_with delta (number_of (contents s k)))
      × (entries (increment_by k delta s).1
          ≡ with_number s.capacity k (entries s) (sum_with delta (number_of (contents s k))))
increment_by-refines s k delta h fits =
    rw (increment_by-incremented s k delta h) (of_number (number_of (contents s k)) fits)
  where
    of_number :
        (o : Option ℤ)
        → SumFits delta o
        → IsValid (incremented k delta s o).1
          × ((incremented k delta s o).1.capacity ≡ s.capacity)
          × ((incremented k delta s o).0 ≡ sum_with delta o)
          × (entries (incremented k delta s o).1
              ≡ with_number s.capacity k (entries s) (sum_with delta o))
    of_number none f = (h, refl, refl, refl)
    of_number (some n) f =
        let (valid, same, e) = set_locked-refines s k (to_string (n +ℤ delta)) h in
        rw (wrap64_of_fits (n +ℤ delta) f) (valid, same, refl, e)

-- On a valid store without a capacity limit whose key holds the number n (or is missing, for zero),
-- `increment_by` by d and then by e returns n + d + e, if n + d and n + d + e fit into 64 bits.
pub increment_by_twice :
    (s : KvStore) (k : Text) (n d e : ℤ)
    → IsValid s
    → s.capacity ≡ 0
    → number_of (contents s k) ≡ some n
    → Fits64 (n +ℤ d)
    → Fits64 (n +ℤ d +ℤ e)
    → (increment_by k e (increment_by k d s).1).0 ≡ some (n +ℤ d +ℤ e)
increment_by_twice s k n d e h unbounded start first second =
    let (h', _, _) = set_locked-refines s k (to_string (n +ℤ d)) h in
    let again : number_of (contents (set_locked k (to_string (n +ℤ d)) s) k) ≡ some (n +ℤ d) =
      ap number_of (
        contents-set_locked s k (to_string (n +ℤ d)) k h unbounded
        ∙ ap (λ b. if b then some (to_string (n +ℤ d)) else contents s k) (text_eq_refl k))
      ∙ stoll-to_string (n +ℤ d) first in
    rw (increment_by-incremented s k d h, start, incremented, wrap64_of_fits (n +ℤ d) first)
      (rw (
        increment_by-incremented _ k e h',
        again,
        incremented,
        wrap64_of_fits (n +ℤ d +ℤ e) second,
      ))
