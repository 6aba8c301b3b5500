-- ===== src/Storage/ExpiryManager/Sweep.antt =====
-- The heap and the schedules of `ExpiryManager` (src/storage/expiry_manager.cpp).
use tiny_kv_distributed_stor.Prelude.{
  ◌≡◌, refl, ap, ◌∙◌, some, List, [], ◌∷◌, inl, inr, ◌⊎◌, arith, if◌then◌else◌, All, Bool-cases,
  if_cases,
}
use mathlib.Core.Path.{subst₂}
use tiny_kv_distributed_stor.Prelude.Text.{Text, text_eq, text_eq_iff}
use tiny_kv_distributed_stor.Prelude.Dict.{find, insert, find-insert, find-erase}
use tiny_kv_distributed_stor.Prelude.Int.{◌≤ℤ◌, ltb_ℤ}
use tiny_kv_distributed_stor.Storage.ExpiryManager.{
  TimePoint, HeapEntry, ExpiryManager, init, push, schedule, cancel,
}

-- The heap holds the entry.
abbrev pub Holds : HeapEntry → List HeapEntry → Type 0
Holds e [] = ⊥
Holds e (x ∷ h) = (x ≡ e) ⊎ Holds e h

abbrev pub IsSorted : List HeapEntry → Type 0
IsSorted [] = Unit
IsSorted (x ∷ h) = All (λ y. x.when ≤ℤ y.when) h × IsSorted h

-- The earliest deadline is first, and each live schedule has its heap entry.
pub record IsValid (s : ExpiryManager) : Type 0 where
  pub sorted : IsSorted s.heap
  pub covered :
      (k : Text) (t : TimePoint)
      → find k s.current_expiry ≡ some t
      → Holds (record { when = t; key = k }) s.heap

Holds-push_self : (e : HeapEntry) (h : List HeapEntry) → Holds e (push e h)
unfolding push
Holds-push_self e [] = inl refl
Holds-push_self e (x ∷ h) =
    if_cases (Holds e) (ltb_ℤ e.when x.when) (λ b. inl refl) (λ b. inr (Holds-push_self e h))

Holds-push : (d e : HeapEntry) (h : List HeapEntry) → Holds d h → Holds d (push e h)
unfolding push
Holds-push d e [] m = absurd m
Holds-push d e (x ∷ h) (inl p) =
    if_cases (Holds d) (ltb_ℤ e.when x.when) (λ b. inr (inl p)) (λ b. inl p)
Holds-push d e (x ∷ h) (inr m) =
    if_cases (Holds d) (ltb_ℤ e.when x.when) (λ b. inr (inr m)) (λ b. inr (Holds-push d e h m))

All-push :
    (P : HeapEntry → Type 0) (e : HeapEntry) (h : List HeapEntry) → P e → All P h → All P (push e h)
unfolding push
All-push P e [] p a = (p, tt)
All-push P e (x ∷ h) p a =
    if_cases (All P) (ltb_ℤ e.when x.when) (λ b. (p, a)) (λ b. (a.0, All-push P e h p a.1))

All-le :
    (t u : TimePoint) (h : List HeapEntry)
    → t ≤ℤ u
    → All (λ y. u ≤ℤ y.when) h
    → All (λ y. t ≤ℤ y.when) h
All-le t u [] le a = tt
All-le t u (x ∷ h) le a = (omega (arith, a.0), All-le t u h le a.1)

push-IsSorted : (e : HeapEntry) (h : List HeapEntry) → IsSorted h → IsSorted (push e h)
unfolding push
push-IsSorted e [] s = (tt, tt)
push-IsSorted e (x ∷ h) s =
    if_cases IsSorted (ltb_ℤ e.when x.when)
      (λ b. let le : e.when ≤ℤ x.when = ground arith in ((le, All-le e.when x.when h le s.0), s))
      (λ b. (All-push (λ y. x.when ≤ℤ y.when) e h (ground arith) s.0, push-IsSorted e h s.1))

-- An entry that the heap holds is not earlier than a bound of all its entries.
pub All-Holds :
    (t : TimePoint) (e : HeapEntry) (h : List HeapEntry)
    → All (λ y. t ≤ℤ y.when) h
    → Holds e h
    → t ≤ℤ e.when
All-Holds t e [] a m = absurd m
All-Holds t e (x ∷ h) a (inl p) = ground (arith, a.0)
All-Holds t e (x ∷ h) a (inr m) = All-Holds t e h a.1 m

pub init-IsValid : IsValid init
unfolding init find
init-IsValid = record { sorted = tt; covered = λ k t e. absurd (ground arith) }

-- `schedule`, for a key that is scheduled already too, keeps the heap in order and every live schedule
-- in the heap.
pub schedule-IsValid :
    (s : ExpiryManager) (k : Text) (t : TimePoint) → IsValid s → IsValid (schedule k t s)
unfolding schedule
schedule-IsValid s k t v = record {
  sorted = push-IsSorted _ s.heap v.sorted;
  covered = λ j u e. elim (Bool-cases (text_eq k j)) [
    | inl same ↦
        let as_set : find j (insert k t s.current_expiry) ≡ some t =
          find-insert k j t s.current_expiry
          ∙ ap (λ b. if b then some t else find j s.current_expiry) same in
        let times : t ≡ u = ground (arith, as_set, e) in
        let keys : k ≡ j = (text_eq_iff k j).0 same in
        subst₂
          (λ a b. Holds (record { when = a; key = b }) (push (record { when = t; key = k }) s.heap))
          times keys (Holds-push_self _ s.heap)
    | inr other ↦
        Holds-push _ _ s.heap
          (v.covered j u (ground (arith, find-insert k j t s.current_expiry, e)))
  ];
}

pub cancel-IsValid : (s : ExpiryManager) (k : Text) → IsValid s → IsValid (cancel k s)
unfolding cancel
cancel-IsValid s k v = record {
  sorted = v.sorted;
  covered = λ j u e. v.covered j u (ground (arith, find-erase k j s.current_expiry, e));
}
