-- ===== src/Concurrency/ThreadPool/Counts.antt =====
-- Sums over the workers of src/concurrency/thread_pool.cpp.
use tiny_kv_distributed_stor.Prelude.{
  ℕ, zero, suc, ◌+◌, ◌*◌, ◌≤◌, ◌<◌, ◌≡◌, refl, ap, ◌==◌, arith, Bool-cases, inl, inr,
}
use tiny_kv_distributed_stor.Concurrency.ThreadPool.{Worker, update}

module _ {A : Type 0} (w : Worker A → ℕ) where
  unfoldable pub weigh : ℕ → (ℕ → Worker A) → ℕ
  weigh zero f = 0
  weigh (suc n) f = weigh n f + w (f n)

  weigh-update_outside :
      (n : ℕ) (f : ℕ → Worker A) (i : ℕ) (x : Worker A) → n ≤ i → weigh n (update f i x) ≡ weigh n f
  unfolding weigh
  weigh-update_outside zero f i x h = refl
  weigh-update_outside (suc n) f i x h = ground (arith, weigh-update_outside n f i x)

  pub weigh-update :
      (n : ℕ) (f : ℕ → Worker A) (i : ℕ) (x : Worker A)
      → i < n
      → weigh n (update f i x) + w (f i) ≡ weigh n f + w x
  unfolding weigh
  weigh-update zero f i x h = absurd (omega arith)
  weigh-update (suc n) f i x h = elim (Bool-cases (i == n)) [
    | inl last ↦
        let same : i ≡ n = ground arith in ground (arith, weigh-update_outside n f i x, ap f same)
    | inr below ↦ ground (arith, weigh-update n f i x)
  ]

  pub weigh_mono :
      (n : ℕ) (f g : ℕ → Worker A) (k : ℕ)
      → ((i : ℕ) → w (g i) ≤ w (f i) + k)
      → weigh n g ≤ weigh n f + n * k
  unfolding weigh
  weigh_mono zero f g k h = omega arith
  weigh_mono (suc n) f g k h = omega (arith, weigh_mono n f g k h, h n)

  pub weigh_same :
      (n : ℕ) (f g : ℕ → Worker A) → ((i : ℕ) → w (g i) ≡ w (f i)) → weigh n g ≡ weigh n f
  unfolding weigh
  weigh_same zero f g h = refl
  weigh_same (suc n) f g h = omega (arith, weigh_same n f g h, h n)
