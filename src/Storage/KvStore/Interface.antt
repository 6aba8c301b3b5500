-- ===== src/Storage/KvStore/Interface.antt =====
-- What the users of `KVStore` (include/tinykv/storage/kv_store.hpp) rely on: its methods, as changes to a
-- map from keys to values. A store without a capacity limit provides it.
pub mod Reorder
use tiny_kv_distributed_stor.Prelude.{◌≡◌, sym, ap, ◌∙◌, Option, none, some, if◌then◌else◌}
use tiny_kv_distributed_stor.Prelude.Text.{Text, text_eq}
use tiny_kv_distributed_stor.Storage.KvStore
use tiny_kv_distributed_stor.Storage.KvStore.{KvStore}
use tiny_kv_distributed_stor.Storage.KvStore.Valid.{IsValid, set-refines, get-refines, del-refines}
use tiny_kv_distributed_stor.Storage.KvStore.Contents.{
  contents, contents-set_locked, contents-get, contents-del,
}

-- The operations on a state, what they show of it, and their laws.
pub record KeyValue {ℓ} (S : Type ℓ) : Type ℓ where
  pub lookup : S → Text → Option Text
  pub set : Text → Text → S → S
  pub del : Text → S → S
  pub get : Text → S → Option Text × S
  pub lookup-set :
      (s : S) (k v j : Text) → lookup (set k v s) j ≡ (if text_eq k j then some v else lookup s j)
  pub lookup-del :
      (s : S) (k j : Text) → lookup (del k s) j ≡ (if text_eq k j then none else lookup s j)
  pub answer-get : (s : S) (k : Text) → (get k s).0 ≡ lookup s k
  pub lookup-get : (s : S) (k j : Text) → lookup (get k s).1 j ≡ lookup s j

abbrev pub Unbounded : Type 0
Unbounded = (s : KvStore) × IsValid s × (s.capacity ≡ 0)

abbrev set_unbounded : Text → Text → Unbounded → Unbounded
set_unbounded k v (s, h, free) = let r = set-refines s k v h in (KvStore.set k v s, r.0, r.1 ∙ free)

abbrev del_unbounded : Text → Unbounded → Unbounded
del_unbounded k (s, h, free) = let r = del-refines s k h in ((KvStore.del k s).1, r.0, r.1 ∙ free)

abbrev get_unbounded : Text → Unbounded → Option Text × Unbounded
get_unbounded k (s, h, free) =
    let r = get-refines s k h in ((KvStore.get k s).0, ((KvStore.get k s).1, r.0, r.1 ∙ free))

-- `KVStore(0)` and every store that its methods make of it.
instance unfoldable pub unbounded_key_value : KeyValue Unbounded
unfolding KvStore.set
unbounded_key_value = record {
  lookup = λ s. contents s.0;
  set = set_unbounded;
  del = del_unbounded;
  get = get_unbounded;
  lookup-set = λ s k v j. contents-set_locked s.0 k v j s.1 s.2;
  lookup-del = λ s k j. contents-del s.0 k j s.1;
  answer-get = λ s k. (get-refines s.0 k s.1).2;
  lookup-get = λ s k j. contents-get s.0 k j s.1;
}
