-- ===== src/Sharding/Ring/Map.antt =====
-- `std::map` with numbers as keys, as a list in ascending order: `operator[]=`, `erase` and
-- `lower_bound`, with the laws that every lookup obeys.
use tiny_kv_distributed_stor.Prelude.{
  ℕ, ◌≤◌, ◌<◌, ◌≡◌, refl, Option, none, some, List, [], ◌∷◌, ltb, ◌==◌, if◌then◌else◌, arith, All,
  if_cases,
}
use tiny_kv_distributed_stor.Prelude.Text.{Text}

unfoldable pub insert : ℕ → Text → List (ℕ × Text) → List (ℕ × Text)
insert p n [] = (p, n) ∷ []
insert p n ((q, m) ∷ l) =
    if ltb p q then (p, n) ∷ (q, m) ∷ l else if p == q then (p, n) ∷ l else (q, m) ∷ insert p n l

unfoldable pub erase : ℕ → List (ℕ × Text) → List (ℕ × Text)
erase p [] = []
erase p ((q, m) ∷ l) = if p == q then l else (q, m) ∷ erase p l

-- The first entry whose key is not below the bound.
unfoldable pub lower_bound : ℕ → List (ℕ × Text) → Option (ℕ × Text)
lower_bound p [] = none
lower_bound p ((q, m) ∷ l) = if ltb q p then lower_bound p l else some (q, m)

unfoldable pub node_at : ℕ → List (ℕ × Text) → Option Text
node_at p [] = none
node_at p ((q, m) ∷ l) = if q == p then some m else node_at p l

abbrev pub IsAscending : List (ℕ × Text) → Type 0
IsAscending [] = Unit
IsAscending ((p, n) ∷ l) = All (λ e. p < e.0) l × IsAscending l

pub All-insert :
    (b p : ℕ) (n : Text) (l : List (ℕ × Text))
    → b < p
    → All (λ e. b < e.0) l
    → All (λ e. b < e.0) (insert p n l)
unfolding insert
All-insert b p n [] h a = (h, tt)
All-insert b p n ((q, m) ∷ l) h a =
    if_cases (All (λ (e : ℕ × Text). b < e.0)) (ltb p q) (λ _. (h, a))
      (λ _.
        if_cases (All (λ (e : ℕ × Text). b < e.0)) (p == q) (λ _. (h, a.1))
          (λ _. (a.0, All-insert b p n l h a.1)))

All-below : (p q : ℕ) (l : List (ℕ × Text)) → p < q → All (λ e. q < e.0) l → All (λ e. p < e.0) l
All-below p q [] h a = tt
All-below p q (e ∷ l) h a = (omega (arith, a.0), All-below p q l h a.1)

pub insert-IsAscending :
    (p : ℕ) (n : Text) (l : List (ℕ × Text)) → IsAscending l → IsAscending (insert p n l)
unfolding insert
insert-IsAscending p n [] h = (tt, tt)
insert-IsAscending p n ((q, m) ∷ l) h =
    if_cases IsAscending (ltb p q)
      (λ b. let lt : p < q = ground arith in ((lt, All-below p q l lt h.0), h))
      (λ b.
        if_cases IsAscending (p == q) (λ e. let same : p ≡ q = ground arith in (rw same h.0, h.1))
          (λ e. (All-insert q p n l (ground arith) h.0, insert-IsAscending p n l h.1)))

All-erase : (b p : ℕ) (l : List (ℕ × Text)) → All (λ e. b < e.0) l → All (λ e. b < e.0) (erase p l)
unfolding erase
All-erase b p [] a = tt
All-erase b p ((q, m) ∷ l) a =
    if_cases (All (λ (e : ℕ × Text). b < e.0)) (p == q) (λ _. a.1) (λ _. (a.0, All-erase b p l a.1))

pub erase-IsAscending : (p : ℕ) (l : List (ℕ × Text)) → IsAscending l → IsAscending (erase p l)
unfolding erase
erase-IsAscending p [] h = tt
erase-IsAscending p ((q, m) ∷ l) h =
    if_cases IsAscending (p == q) (λ _. h.1) (λ _. (All-erase q p l h.0, erase-IsAscending p l h.1))

pub node_at-insert :
    (p j : ℕ) (n : Text) (l : List (ℕ × Text))
    → node_at j (insert p n l) ≡ (if p == j then some n else node_at j l)
unfolding insert node_at
node_at-insert p j n [] = refl
node_at-insert p j n ((q, m) ∷ l) = ground (arith, node_at-insert p j n l)

pub node_at_above :
    (j b : ℕ) (l : List (ℕ × Text)) → j ≤ b → All (λ e. b < e.0) l → node_at j l ≡ none
unfolding node_at
node_at_above j b [] h a = refl
node_at_above j b ((q, m) ∷ l) h a = ground (arith, node_at_above j b l h a.1, a.0)

pub node_at-erase :
    (p j : ℕ) (l : List (ℕ × Text))
    → IsAscending l
    → node_at j (erase p l) ≡ (if p == j then none else node_at j l)
unfolding erase node_at
node_at-erase p j [] h = ground arith
node_at-erase p j ((q, m) ∷ l) h = ground (arith, node_at-erase p j l h.1, node_at_above j q l, h.0)
