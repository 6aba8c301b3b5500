-- ===== src/Storage/KvStore/Interface/Reorder.antt =====
-- Writes to a `KVStore` (src/storage/kv_store.cpp) by threads that take turns: which orders of them come
-- to the same.
use tiny_kv_distributed_stor.Prelude.{
  ◌≡◌, refl, sym, ap, ◌∙◌, false, Option, none, some, List, [], ◌∷◌, arith, if◌then◌else◌,
}
use tiny_kv_distributed_stor.Prelude.Text.{Text, text_eq, text_eq_iff}
use tiny_kv_distributed_stor.Storage.KvStore
use tiny_kv_distributed_stor.Storage.KvStore.{KvStore}
use tiny_kv_distributed_stor.Storage.KvStore.Valid.{IsValid}
use tiny_kv_distributed_stor.Storage.KvStore.Interface.{KeyValue, Unbounded, unbounded_key_value}

pub data Write : Type 0 where
  set : Text → Text → Write
  del : Text → Write

abbrev pub key_of : Write → Text
key_of (Write.set k v) = k
key_of (Write.del k) = k

abbrev written : Write → Option Text
written (Write.set k v) = some v
written (Write.del k) = none

-- The same writes, where two that stand side by side may change places if their keys differ.
pub data Reordered : List Write → List Write → Type 0 where
  same : (ws : List Write) → Reordered ws ws
  swapped :
      (w v : Write) (ws : List Write)
      → text_eq (key_of w) (key_of v) ≡ false
      → Reordered (w ∷ v ∷ ws) (v ∷ w ∷ ws)
  after : (w : Write) {ws vs : List Write} → Reordered ws vs → Reordered (w ∷ ws) (w ∷ vs)
  then_again : {ws vs us : List Write} → Reordered ws vs → Reordered vs us → Reordered ws us

module _ {ℓ} {S : Type ℓ} ⦃store : KeyValue S⦄ where
  abbrev write : Write → S → S
  write (Write.set k v) s = store.set k v s
  write (Write.del k) s = store.del k s

  abbrev write_all : List Write → S → S
  write_all [] s = s
  write_all (w ∷ ws) s = write_all ws (write w s)

  -- The states show the same map.
  abbrev Alike : S → S → Type 0
  Alike s t = (k : Text) → store.lookup s k ≡ store.lookup t k

  lookup-write :
      (w : Write) (s : S) (k : Text)
      → store.lookup (write w s) k ≡ (if text_eq (key_of w) k then written w else store.lookup s k)
  lookup-write (Write.set j v) s k = store.lookup-set s j v k
  lookup-write (Write.del j) s k = store.lookup-del s j k

  write-Alike : (w : Write) (s t : S) → Alike s t → Alike (write w s) (write w t)
  write-Alike w s t h k =
      lookup-write w s k
      ∙ (ap (λ x. if text_eq (key_of w) k then written w else x) (h k) ∙ sym (lookup-write w t k))

  write_all-Alike :
      (ws : List Write) (s t : S) → Alike s t → Alike (write_all ws s) (write_all ws t)
  write_all-Alike [] s t h = h
  write_all-Alike (w ∷ ws) s t h = write_all-Alike ws (write w s) (write w t) (write-Alike w s t h)

  write_comm :
      (w v : Write) (s : S)
      → text_eq (key_of w) (key_of v) ≡ false
      → Alike (write v (write w s)) (write w (write v s))
  write_comm w v s e k = ground (
    arith,
    lookup-write v (write w s) k,
    lookup-write w s k,
    lookup-write w (write v s) k,
    lookup-write v s k,
    text_eq_iff (key_of w) k,
    text_eq_iff (key_of v) k,
    text_eq_iff (key_of w) (key_of v),
    e,
  )

  reordered-Alike :
      {ws vs : List Write} → Reordered ws vs → (s : S) → Alike (write_all ws s) (write_all vs s)
  reordered-Alike (Reordered.same ws) s k = refl
  reordered-Alike (Reordered.swapped w v ws e) s k =
      write_all-Alike ws (write v (write w s)) (write w (write v s)) (write_comm w v s e) k
  reordered-Alike (Reordered.after w h) s k = reordered-Alike h (write w s) k
  reordered-Alike (Reordered.then_again h g) s k = reordered-Alike h s k ∙ reordered-Alike g s k

  -- What a client reads after the writes.
  reordered_answer :
      (ws vs : List Write)
      → Reordered ws vs
      → (s : S) (k : Text) → (store.get k (write_all ws s)).0 ≡ (store.get k (write_all vs s)).0
  reordered_answer ws vs h s k =
      store.answer-get (write_all ws s) k
      ∙ (reordered-Alike h s k ∙ sym (store.answer-get (write_all vs s) k))

-- The writes, as calls of the methods.
unfoldable pub call_all : List Write → KvStore → KvStore
unfolding KvStore.set KvStore.del
call_all [] s = s
call_all (Write.set k v ∷ ws) s = call_all ws (KvStore.set k v s)
call_all (Write.del k ∷ ws) s = call_all ws (KvStore.del k s).1

call_all-write_all : (ws : List Write) (s : Unbounded) → (write_all ws s).0 ≡ call_all ws s.0
unfolding call_all unbounded_key_value
call_all-write_all [] s = refl
call_all-write_all (Write.set k v ∷ ws) s = call_all-write_all ws (write (Write.set k v) s)
call_all-write_all (Write.del k ∷ ws) s = call_all-write_all ws (write (Write.del k) s)

-- On a valid store without a capacity limit, sets and deletions whose order differs only between
-- different keys give every later `get` the same answer.
pub reordered_writes :
    (ws vs : List Write) (s : KvStore) (k : Text)
    → IsValid s
    → s.capacity ≡ 0
    → Reordered ws vs
    → (KvStore.get k (call_all ws s)).0 ≡ (KvStore.get k (call_all vs s)).0
unfolding unbounded_key_value
reordered_writes ws vs s k h unbounded order =
    ap (λ t. (KvStore.get k t).0) (sym (call_all-write_all ws (s, h, unbounded)))
    ∙ (reordered_answer {S = Unbounded} ws vs order (s, h, unbounded) k
        ∙ ap (λ t. (KvStore.get k t).0) (call_all-write_all vs (s, h, unbounded)))
