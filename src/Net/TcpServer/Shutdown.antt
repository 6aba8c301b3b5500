-- ===== src/Net/TcpServer/Shutdown.antt =====
-- The end of `run` in src/net/tcp_server.cpp.
use mathlib.Core.Path.{subst}
use tiny_kv_distributed_stor.Prelude.{
  ℕ, zero, suc, ◌+◌, ◌*◌, ◌≤◌, ◌≡◌, ◌⊎◌, ◌&&◌, arith, ltb, if_cases, inr,
}
use tiny_kv_distributed_stor.Net.TcpServer.{sleeps}

module _ (deadline : ℕ) (active clock : ℕ → ℕ) (step : (i : ℕ) → clock i + 20 ≤ clock (suc i)) where
  abbrev IsOver : ℕ → Type 0
  IsOver k = (active k ≡ 0) ⊎ (deadline ≤ clock k)

  sleeps-IsOver :
      (fuel i : ℕ)
      → deadline ≤ clock i + 20 * fuel
      → IsOver (i + sleeps fuel deadline active clock i)
  unfolding sleeps
  sleeps-IsOver zero i h =
      let here : i ≡ i + 0 = omega arith in subst IsOver here (inr (omega (arith, h)))
  sleeps-IsOver (suc fuel) i h =
      let rest = sleeps fuel deadline active clock (suc i) in
      let here : i ≡ i + 0 = omega arith in
      let next : suc i + rest ≡ i + suc rest = omega arith in
      if_cases (λ n. IsOver (i + n)) (ltb 0 (active i) && ltb (clock i) deadline)
        (λ again. subst IsOver next (sleeps-IsOver fuel (suc i) (omega (arith, step i, h))))
        (λ over. subst IsOver here (ground (arith, over)))

sleeps_at_most :
    (fuel deadline : ℕ) (active clock : ℕ → ℕ) (i : ℕ) → sleeps fuel deadline active clock i ≤ fuel
unfolding sleeps
sleeps_at_most zero deadline active clock i = omega arith
sleeps_at_most (suc fuel) deadline active clock i =
    if_cases (λ n. n ≤ suc fuel) (ltb 0 (active i) && ltb (clock i) deadline)
      (λ again. omega (arith, sleeps_at_most fuel deadline active clock (suc i)))
      (λ over. omega arith)

-- If each sleep takes at least the 20 milliseconds that it is asked to, then the wait for the connections
-- ends after at most 100 sleeps, whatever the connections do: when it ends there is no connection left, or
-- 2000 milliseconds have passed.
sleeps_end :
    (active clock : ℕ → ℕ)
    → ((i : ℕ) → clock i + 20 ≤ clock (suc i))
    → (sleeps 100 (clock 0 + 2000) active clock 0 ≤ 100)
      × ((active (sleeps 100 (clock 0 + 2000) active clock 0) ≡ 0)
          ⊎ (clock 0 + 2000 ≤ clock (sleeps 100 (clock 0 + 2000) active clock 0)))
sleeps_end active clock step =
    let start = clock 0 + 2000 in
    let same : 0 + sleeps 100 start active clock 0 ≡ sleeps 100 start active clock 0 =
      omega arith in
    (
      sleeps_at_most 100 start active clock 0,
      subst (IsOver start active clock step) same
          (sleeps-IsOver start active clock step 100 0 (omega arith)),
    )
