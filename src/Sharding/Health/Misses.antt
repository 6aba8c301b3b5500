-- ===== src/Sharding/Health/Misses.antt =====
-- The health that src/sharding/shard_topology.cpp keeps of each node, and its count of missed pings.
use mathlib.Core.Path.{subst}
use tiny_kv_distributed_stor.Prelude.{
  ℕ, suc, ◌+◌, ◌^◌, ◌≤◌, ◌<◌, ◌≡◌, refl, sym, ap, ◌∙◌, Bool, true, List, [], ◌∷◌, map, All, length,
  arith, ltb, inl, inr, if_cases, Bool-cases,
}
use tiny_kv_distributed_stor.Prelude.Text.{Text, codes, text_eq}
use tiny_kv_distributed_stor.Prelude.Int.{ℤ, pos, negsuc, ◌+ℤ◌, ltb_ℤ}
use tiny_kv_distributed_stor.Prelude.Decimal.{wrap32, wrap32_of_fits}
use tiny_kv_distributed_stor.Sharding.Topology.{
  ShardTopology, Shard, ShardNode, NodeRole, split_csv, parse_shard, parse_shards, find_shard,
  update_shard, pinged, ping_shard, record_ping_result, promoted, can_promote, promote_replica,
  has_replica_of,
}
use tiny_kv_distributed_stor.Sharding.Health.{Answers, is_up, check_shard, run_checks}
use tiny_kv_distributed_stor.Sharding.Health.Failover.{All-update_shard, fail_over_keeps}

-- A count of at most so many.
abbrev pub IsUpTo : ℕ → ℤ → Type 0
IsUpTo bound (pos k) = k ≤ bound
IsUpTo bound (negsuc k) = ⊥

-- The node is up as long as it has missed fewer pings in a row than the limit, and its count of them is
-- no negative number and at most the bound.
abbrev pub IsCounted : ℕ → ℕ → ShardNode → Type 0
IsCounted max_missed_pings bound node =
    (is_up node.health ≡ ltb_ℤ node.consecutive_misses (pos max_missed_pings))
    × IsUpTo bound node.consecutive_misses

abbrev AreWithin : ℕ → ℕ → ℕ → Shard → Type 0
AreWithin max_missed_pings i j s =
    IsCounted max_missed_pings i s.primary_node × IsCounted max_missed_pings j s.replica_node

abbrev pub AreCounted : ℕ → ℕ → Shard → Type 0
AreCounted max_missed_pings bound s = AreWithin max_missed_pings bound bound s

bound_grows : (i : ℕ) (z : ℤ) → IsUpTo i z → IsUpTo (suc i) z
bound_grows i (pos k) h = omega arith
bound_grows i (negsuc k) h = h

number_up_to : (i : ℕ) (z : ℤ) → IsUpTo i z → (k : ℕ) × (z ≡ pos k) × (k ≤ i)
number_up_to i (pos k) h = (k, refl, h)
number_up_to i (negsuc k) h = absurd h

one_more : (k : ℕ) → pos k +ℤ pos 1 ≡ pos (suc k)
unfolding ◌+ℤ◌
one_more k = ground arith

-- A count that is below the range of `int` goes up by one.
counted_up : (k : ℕ) → suc k < 2 ^ 31 → wrap32 (pos k +ℤ pos 1) ≡ pos (suc k)
counted_up k h = ap wrap32 (one_more k) ∙ wrap32_of_fits (pos (suc k)) h

below_before :
    (k n : ℕ) (z w : ℤ)
    → z ≡ pos k
    → w ≡ pos (suc k)
    → ltb_ℤ w (pos n) ≡ true
    → ltb_ℤ z (pos n) ≡ true
below_before k n z w e f h =
    let above : ltb_ℤ (pos (suc k)) (pos n) ≡ true = sym (ap (λ x. ltb_ℤ x (pos n)) f) ∙ h in
    ap (λ x. ltb_ℤ x (pos n)) e ∙ ground (arith, above)

node_bound_grows : (n i : ℕ) (node : ShardNode) → IsCounted n i node → IsCounted n (suc i) node
node_bound_grows n i node h = (h.0, bound_grows i node.consecutive_misses h.1)

each_kept :
    (P Q : Shard → Type 0) (t : ShardTopology) → ((s : Shard) → P s → Q s) → All P t → All Q t
each_kept P Q [] other a = tt
each_kept P Q (s ∷ t) other a = (other s a.0, each_kept P Q t other a.1)

All-update_between :
    (P Q : Shard → Type 0) (k : Text) (f : Shard → Shard) (t : ShardTopology)
    → ((s : Shard) → P s → Q (f s))
    → ((s : Shard) → P s → Q s)
    → All P t
    → All Q (update_shard k f t)
unfolding update_shard
All-update_between P Q k f [] changed other a = tt
All-update_between P Q k f (s ∷ t) changed other a = elim (Bool-cases (text_eq s.id k)) [
  | inl e ↦ rw e (changed s a.0, each_kept P Q t other a.1)
  | inr e ↦ rw e (other s a.0, All-update_between P Q k f t changed other a.1)
]

module _ (n : ℕ) (positive : 1 ≤ n) where
  pinged-IsCounted :
      (i : ℕ) (success : Bool) (node : ShardNode)
      → suc i < 2 ^ 31
      → IsCounted n i node
      → IsCounted n (suc i) (pinged success n node)
  unfolding pinged
  pinged-IsCounted i success node small h =
      let (k, at, below) = number_up_to i node.consecutive_misses h.1 in
      let next : wrap32 (node.consecutive_misses +ℤ pos 1) ≡ pos (suc k) =
        ap (λ z. wrap32 (z +ℤ pos 1)) at ∙ counted_up k (omega arith) in
      let counted : IsUpTo (suc i) (wrap32 (node.consecutive_misses +ℤ pos 1)) =
        subst (IsUpTo (suc i)) (sym next) (omega arith) in
      if_cases (IsCounted n (suc i)) success (λ _. (ground (arith, positive), omega arith))
        (λ _.
          if_cases (IsCounted n (suc i)) (ltb_ℤ (wrap32 (node.consecutive_misses +ℤ pos 1)) (pos n))
            (λ e. (h.0 ∙ (below_before k n _ _ at next e ∙ sym e), counted))
            (λ e. (sym e, counted)))

  primary-AreWithin :
      (i : ℕ) (success : Bool) (k : Text) (t : ShardTopology)
      → suc i < 2 ^ 31
      → All (AreWithin n i i) t
      → All (AreWithin n (suc i) i) (record_ping_result k NodeRole.primary success n t)
  unfolding record_ping_result ping_shard
  primary-AreWithin i success k t small =
      All-update_between (AreWithin n i i) (AreWithin n (suc i) i) k
        (ping_shard NodeRole.primary success n) t
        (λ s h. (pinged-IsCounted i success s.primary_node small h.0, h.1))
        (λ s h. (node_bound_grows n i s.primary_node h.0, h.1))

  replica-AreWithin :
      (i : ℕ) (success : Bool) (k : Text) (t : ShardTopology)
      → suc i < 2 ^ 31
      → All (AreWithin n (suc i) i) t
      → All (AreWithin n (suc i) (suc i)) (record_ping_result k NodeRole.replica success n t)
  unfolding record_ping_result ping_shard
  replica-AreWithin i success k t small =
      All-update_between (AreWithin n (suc i) i) (AreWithin n (suc i) (suc i)) k
        (ping_shard NodeRole.replica success n) t
        (λ s h. (h.0, pinged-IsCounted i success s.replica_node small h.1))
        (λ s h. (h.0, node_bound_grows n i s.replica_node h.1))

  promote_replica-AreWithin :
      (i j : ℕ) (k : Text) (t : ShardTopology)
      → All (AreWithin n i j) t
      → All (AreWithin n i j) (promote_replica k t).1
  unfolding promote_replica promoted
  promote_replica-AreWithin i j k t a =
      if_cases (λ (r : Bool × ShardTopology). All (AreWithin n i j) r.1)
        (can_promote (find_shard k t))
        (λ _. All-update_shard (AreWithin n i j) k promoted t (λ s _ h. h) a) (λ _. a)

  -- A check adds at most one to the count of each node.
  check_shard-AreCounted :
      (i : ℕ) (k : Text) (a : Answers) (t : ShardTopology)
      → suc i < 2 ^ 31
      → All (AreCounted n i) t
      → All (AreCounted n (suc i)) (check_shard n k a t)
  unfolding check_shard
  check_shard-AreCounted i k a t small h =
      let once = primary-AreWithin i a.primary_up k t small h in
      if_cases (All (AreCounted n (suc i)))
        (has_replica_of k (record_ping_result k NodeRole.primary a.primary_up n t))
        (λ _.
          fail_over_keeps (All (AreCounted n (suc i))) (promote_replica-AreWithin (suc i) (suc i)) k
            a _ (replica-AreWithin i a.replica_up k _ small once))
        (λ _.
          each_kept (AreWithin n (suc i) i) (AreCounted n (suc i)) _
            (λ s h. (h.0, node_bound_grows n i s.replica_node h.1)) once)

  checks-AreCounted :
      (i : ℕ) (checks : List (Text × Answers)) (t : ShardTopology)
      → i + length checks < 2 ^ 31
      → All (AreCounted n i) t
      → All (AreCounted n (i + length checks)) (run_checks n checks t)
  unfolding run_checks
  checks-AreCounted i [] t small h =
      let same : i ≡ i + 0 = omega arith in subst (λ j. All (AreCounted n j) t) same h
  checks-AreCounted i ((k, a) ∷ checks) t small h =
      let same : suc i + length checks ≡ i + suc (length checks) = omega arith in
      subst (λ j. All (AreCounted n j) (run_checks n checks (check_shard n k a t))) same
        (checks-AreCounted (suc i) checks (check_shard n k a t) (omega arith)
          (check_shard-AreCounted i k a t (omega arith) h))

parse_shards-AreCounted :
    (n : ℕ) (get_string : Text → Text) → 1 ≤ n → All (AreCounted n 0) (parse_shards get_string)
unfolding parse_shards parse_shard
parse_shards-AreCounted n get_string positive = each (split_csv (get_string (codes "shards")))
  where
    each : (ids : List Text) → All (AreCounted n 0) (map (parse_shard get_string) ids)
    each [] = tt
    each (id ∷ ids) =
        let up : true ≡ ltb (0 + 0) (n + 0) = ground (arith, positive) in
        (((up, omega arith), (up, omega arith)), each ids)

-- With a limit of at least one, and after fewer than 2^31 checks, whatever the configuration and the
-- network's answers, a node counts as up exactly as long as its missed pings in a row are below the
-- limit, and its count of them, an `int`, is no negative number and at most the number of checks.
pub run_checks-AreCounted :
    (max_missed_pings : ℕ) (checks : List (Text × Answers)) (get_string : Text → Text)
    → 1 ≤ max_missed_pings
    → length checks < 2 ^ 31
    → All
        (AreCounted max_missed_pings (length checks))
        (run_checks max_missed_pings checks (parse_shards get_string))
run_checks-AreCounted n checks get_string positive few =
    let same : 0 + length checks ≡ length checks = omega arith in
    subst (λ j. All (AreCounted n j) (run_checks n checks (parse_shards get_string))) same
      (checks-AreCounted n positive 0 checks (parse_shards get_string) (omega arith)
        (parse_shards-AreCounted n get_string positive))
