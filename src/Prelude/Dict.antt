-- ===== src/Prelude/Dict.antt =====
-- `std::unordered_map` with `std::string` keys: `find`, `operator[]=` and `erase`. The program
-- never iterates over one, so the order of the entries is not part of the model.
use Prim.Native.Nat.{suc}
use mathlib.Core.Path.{◌≡◌, refl, ap}
use mathlib.Core.Logic.{inl, inr}
use mathlib.Core.Bool.{Bool, true, false}
use mathlib.Core.Option.{Option, none, some}
use mathlib.Core.List.{List, [], ◌∷◌}
use native.Mathlib.Omega.{arith}
use tiny_kv_distributed_stor.Prelude.Tests.{Bool-cases, if◌then◌else◌}
use tiny_kv_distributed_stor.Prelude.Lists.{length}
use tiny_kv_distributed_stor.Prelude.Text.{Text, text_eq, text_eq_iff}

abbrev pub Dict {ℓ} : Type ℓ → Type ℓ
Dict V = List (Text × V)

module _ {ℓ} {V : Type ℓ} where
  unfoldable pub find : Text → Dict V → Option V
  find k [] = none
  find k ((j, v) ∷ d) = if text_eq j k then some v else find k d

  unfoldable pub insert : Text → V → Dict V → Dict V
  insert k v [] = (k, v) ∷ []
  insert k v ((j, w) ∷ d) = if text_eq j k then (k, v) ∷ d else (j, w) ∷ insert k v d

  -- Every entry with the key: a map holds one at most.
  unfoldable pub erase : Text → Dict V → Dict V
  erase k [] = []
  erase k ((j, v) ∷ d) = let rest = erase k d in if text_eq j k then rest else (j, v) ∷ rest

  -- `find(k) != end()`
  abbrev pub is_found : Option V → Bool
  is_found none = false
  is_found (some v) = true

  pub find-insert :
      (k j : Text) (v : V) (d : Dict V)
      → find j (insert k v d) ≡ (if text_eq k j then some v else find j d)
  unfolding find insert
  find-insert k j v [] = refl
  find-insert k j v ((i, w) ∷ d) =
      ground (arith, text_eq_iff k j, text_eq_iff i k, text_eq_iff i j, find-insert k j v d)

  pub find-erase :
      (k j : Text) (d : Dict V) → find j (erase k d) ≡ (if text_eq k j then none else find j d)
  unfolding find erase
  find-erase k j [] = ground arith
  find-erase k j ((i, w) ∷ d) =
      ground (arith, text_eq_iff k j, text_eq_iff i k, text_eq_iff i j, find-erase k j d)

  pub length-insert_new :
      (k : Text) (v : V) (d : Dict V) → find k d ≡ none → length (insert k v d) ≡ suc (length d)
  unfolding find insert
  length-insert_new k v [] h = refl
  length-insert_new k v ((j, w) ∷ d) h = ground (arith, length-insert_new k v d)

  -- Each key once.
  abbrev pub IsMap : Dict V → Type ℓ
  IsMap [] = Unit
  IsMap ((k, v) ∷ d) = (find k d ≡ none) × IsMap d

  pub insert-IsMap : (k : Text) (v : V) (d : Dict V) → IsMap d → IsMap (insert k v d)
  unfolding insert
  insert-IsMap k v [] h = (unfold find in refl, tt)
  insert-IsMap k v ((j, w) ∷ d) h = elim (Bool-cases (text_eq j k)) [
    | inl e ↦ rw e (rw (← (text_eq_iff j k).0 e) h.0, h.1)
    | inr e ↦ rw e (
      ground (arith, find-insert k j v d, h.0, text_eq_iff k j, text_eq_iff j k),
      insert-IsMap k v d h.1,
    )
  ]

  pub erase-IsMap : (k : Text) (d : Dict V) → IsMap d → IsMap (erase k d)
  unfolding erase
  erase-IsMap k [] h = tt
  erase-IsMap k ((j, w) ∷ d) h = elim (Bool-cases (text_eq j k)) [
    | inl e ↦ rw e (erase-IsMap k d h.1)
    | inr e ↦ rw e (ground (arith, find-erase k j d, h.0), erase-IsMap k d h.1)
  ]

  pub erase_absent : (k : Text) (d : Dict V) → find k d ≡ none → erase k d ≡ d
  unfolding find erase
  erase_absent k [] h = refl
  erase_absent k ((j, w) ∷ d) h = ground (arith, erase_absent k d)

  pub length-erase :
      (k : Text) (d : Dict V) {v : V}
      → IsMap d
      → find k d ≡ some v
      → suc (length (erase k d)) ≡ length d
  unfolding find erase
  length-erase k [] m h = cc
  length-erase k ((j, w) ∷ d) {v} m h = elim (Bool-cases (text_eq j k)) [
    | inl e ↦ rw (e, erase_absent k d (rw (← (text_eq_iff j k).0 e) m.0))
    | inr e ↦ rw e (ap suc (length-erase k d {v = v} m.1 (ground arith)))
  ]
