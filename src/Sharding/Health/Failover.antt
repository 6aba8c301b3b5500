-- ===== src/Sharding/Health/Failover.antt =====
-- The failover of src/sharding/health_checker.cpp and shard_topology.cpp: which node serves a shard.
use mathlib.Core.Path.{subst}
use tiny_kv_distributed_stor.Prelude.{
  ℕ, ◌≡◌, refl, sym, ap, ◌∙◌, Bool, true, false, not, ◌&&◌, Option, none, some, List, [], ◌∷◌, map,
  All, arith, inl, inr, if◌then◌else◌, if_cases, Bool-cases,
}
use tiny_kv_distributed_stor.Prelude.Text.{Text, codes, text_eq, text_eq_iff}
use tiny_kv_distributed_stor.Sharding.Topology.{
  ShardTopology, Shard, ShardNode, NodeRole, split_csv, parse_shard, parse_shards, find_shard,
  update_shard, active_address_for, already_failed_over, pinged, ping_shard, record_ping_result,
  promoted, can_promote, promote_replica, has_replica_of, health_of,
}
use tiny_kv_distributed_stor.Sharding.Health.{Answers, is_up, fail_over, check_shard, run_checks}

-- The primary serves before the failover and the replica after it, which takes a replica.
abbrev pub IsServing : Shard → Type 0
IsServing s =
    (s.active_address ≡ (if s.failed_over then s.replica_node.address else s.primary_node.address))
    × ((s.failed_over && not s.has_replica) ≡ false)

pub All-update_shard :
    (P : Shard → Type 0) (k : Text) (f : Shard → Shard) (t : ShardTopology)
    → ((s : Shard) → find_shard k t ≡ some s → P s → P (f s))
    → All P t
    → All P (update_shard k f t)
unfolding update_shard find_shard
All-update_shard P k f [] h a = tt
All-update_shard P k f (s ∷ t) h a = elim (Bool-cases (text_eq s.id k)) [
  | inl e ↦ rw e (h s (rw (e, find_shard) refl) a.0, a.1)
  | inr e ↦ rw e (a.0, All-update_shard P k f t (λ x found. h x (rw (e, find_shard) found)) a.1)
]

pinged-address :
    (success : Bool) (n : ℕ) (node : ShardNode) → (pinged success n node).address ≡ node.address
unfolding pinged
pinged-address success n node = ground arith

ping_shard-IsServing :
    (role : NodeRole) (success : Bool) (n : ℕ) (s : Shard)
    → IsServing s
    → IsServing (ping_shard role success n s)
unfolding ping_shard
ping_shard-IsServing NodeRole.primary success n s h = rw (pinged-address success n s.primary_node) h
ping_shard-IsServing NodeRole.replica success n s h = rw (pinged-address success n s.replica_node) h

promote_replica-IsServing :
    (k : Text) (t : ShardTopology) → All IsServing t → All IsServing (promote_replica k t).1
unfolding promote_replica
promote_replica-IsServing k t a =
    if_cases (λ (r : Bool × ShardTopology). All IsServing r.1) (can_promote (find_shard k t))
      (λ yes.
        All-update_shard IsServing k promoted t
          (λ s found _. unfold promoted can_promote in (refl, ground (arith, found, yes))) a)
      (λ _. a)

record_ping_result-IsServing :
    (k : Text) (role : NodeRole) (success : Bool) (n : ℕ) (t : ShardTopology)
    → All IsServing t
    → All IsServing (record_ping_result k role success n t)
unfolding record_ping_result
record_ping_result-IsServing k role success n t =
    All-update_shard IsServing k (ping_shard role success n) t
      (λ s _. ping_shard-IsServing role success n s)

-- What a promotion keeps, the end of a check keeps.
module _ (Q : ShardTopology → Type 0)
    (promotes : (k : Text) (t : ShardTopology) → Q t → Q (promote_replica k t).1) where
  pub fail_over_keeps : (k : Text) (a : Answers) (t : ShardTopology) → Q t → Q (fail_over k a t)
  unfolding fail_over
  fail_over_keeps k a t q =
      if_cases Q (is_up (health_of k NodeRole.primary t)) (λ _. q)
        (λ _.
          if_cases Q (not (is_up (health_of k NodeRole.replica t))) (λ _. q)
            (λ _.
              if_cases Q (already_failed_over k t) (λ _. q)
                (λ _. if_cases Q a.accepted (λ _. promotes k t q) (λ _. q))))

-- What a check keeps: the pings keep it, and so does a promotion.
module _ (n : ℕ) (Q : ShardTopology → Type 0)
    (pings : (k : Text) (role : NodeRole) (success : Bool) (t : ShardTopology)
      → Q t
      → Q (record_ping_result k role success n t))
    (promotes : (k : Text) (t : ShardTopology) → Q t → Q (promote_replica k t).1) where
  check_shard_keeps : (k : Text) (a : Answers) (t : ShardTopology) → Q t → Q (check_shard n k a t)
  unfolding check_shard
  check_shard_keeps k a t q =
      let once = pings k NodeRole.primary a.primary_up t q in
      if_cases Q (has_replica_of k (record_ping_result k NodeRole.primary a.primary_up n t))
        (λ _. fail_over_keeps Q promotes k a _ (pings k NodeRole.replica a.replica_up _ once))
        (λ _. once)

  pub run_checks_keeps :
      (checks : List (Text × Answers)) (t : ShardTopology) → Q t → Q (run_checks n checks t)
  unfolding run_checks
  run_checks_keeps [] t q = q
  run_checks_keeps ((k, a) ∷ checks) t q =
      run_checks_keeps checks (check_shard n k a t) (check_shard_keeps k a t q)

parse_shards-IsServing : (get_string : Text → Text) → All IsServing (parse_shards get_string)
unfolding parse_shards parse_shard
parse_shards-IsServing get_string = each (split_csv (get_string (codes "shards")))
  where
    each : (ids : List Text) → All IsServing (map (parse_shard get_string) ids)
    each [] = tt
    each (id ∷ ids) = ((refl, refl), each ids)

-- Whatever the configuration says and the network answers, after any checks each shard is served by
-- its primary, if it was not failed over, and otherwise by its replica, which it then has.
pub run_checks-IsServing :
    (max_missed_pings : ℕ) (checks : List (Text × Answers)) (get_string : Text → Text)
    → All IsServing (run_checks max_missed_pings checks (parse_shards get_string))
run_checks-IsServing n checks get_string =
    run_checks_keeps n (All IsServing)
      (λ k role success t. record_ping_result-IsServing k role success n t)
      promote_replica-IsServing checks (parse_shards get_string) (parse_shards-IsServing get_string)

abbrev update_found : Bool → (Shard → Shard) → Option Shard → Option Shard
update_found same f none = none
update_found same f (some s) = if same then some (f s) else some s

update_found-false : (f : Shard → Shard) (o : Option Shard) → update_found false f o ≡ o
update_found-false f none = refl
update_found-false f (some s) = refl

find_shard-update_shard :
    (j k : Text) (f : Shard → Shard) (t : ShardTopology)
    → ((s : Shard) → (f s).id ≡ s.id)
    → find_shard k (update_shard j f t) ≡ update_found (text_eq j k) f (find_shard k t)
unfolding find_shard update_shard
find_shard-update_shard j k f [] h = refl
find_shard-update_shard j k f (s ∷ t) h = elim (Bool-cases (text_eq s.id j)) [
  | inl e ↦
      let same : text_eq j k ≡ text_eq s.id k =
        ap (λ i. text_eq i k) (sym ((text_eq_iff s.id j).0 e)) in
      rw (e, same, update_shard)
        (elim (Bool-cases (text_eq s.id k)) [
          | inl q ↦
              let named : text_eq (f s).id k ≡ true = ap (λ i. text_eq i k) (h s) ∙ q in
              rw (named, q, update_found, q) refl
          | inr q ↦
              let named : text_eq (f s).id k ≡ false = ap (λ i. text_eq i k) (h s) ∙ q in
              rw (named, q) (sym (update_found-false f (find_shard k t)))
        ])
  | inr e ↦
      rw (e, update_shard)
        (elim (Bool-cases (text_eq s.id k)) [
          | inl q ↦
              let other : text_eq j k ≡ false =
                ground (arith, text_eq_iff s.id k, text_eq_iff s.id j, text_eq_iff j k) in
              rw (q, other, update_found) refl
          | inr q ↦ rw q (find_shard-update_shard j k f t h)
        ])
]

-- The shard is there, was failed over, and this is its address.
abbrev IsFixed : Text → Option Shard → Type 0
IsFixed address none = ⊥
IsFixed address (some s) = (s.failed_over ≡ true) × (s.active_address ≡ address)

ping_shard-IsFixed :
    (b : Bool) (role : NodeRole) (success : Bool) (n : ℕ) (address : Text) (o : Option Shard)
    → IsFixed address o
    → IsFixed address (update_found b (ping_shard role success n) o)
unfolding ping_shard
ping_shard-IsFixed b role success n address none h = elim h [ ]
ping_shard-IsFixed true NodeRole.primary success n address (some s) h = h
ping_shard-IsFixed true NodeRole.replica success n address (some s) h = h
ping_shard-IsFixed false role success n address (some s) h = h

ping_shard-id :
    (role : NodeRole) (success : Bool) (n : ℕ) (s : Shard) → (ping_shard role success n s).id ≡ s.id
unfolding ping_shard
ping_shard-id NodeRole.primary success n s = refl
ping_shard-id NodeRole.replica success n s = refl

module _ (k address : Text) where
  record_ping_result-IsFixed :
      (j : Text) (role : NodeRole) (success : Bool) (n : ℕ) (t : ShardTopology)
      → IsFixed address (find_shard k t)
      → IsFixed address (find_shard k (record_ping_result j role success n t))
  unfolding record_ping_result
  record_ping_result-IsFixed j role success n t h =
      subst (IsFixed address)
        (sym (
          find_shard-update_shard j k (ping_shard role success n) t (ping_shard-id role success n)))
        (ping_shard-IsFixed (text_eq j k) role success n address (find_shard k t) h)

  not-can_promote : (o : Option Shard) → IsFixed address o → can_promote o ≡ false
  unfolding can_promote
  not-can_promote none h = elim h [ ]
  not-can_promote (some s) h = ground (arith, h.0)

  promote_replica-IsFixed :
      (j : Text) (t : ShardTopology)
      → IsFixed address (find_shard k t)
      → IsFixed address (find_shard k (promote_replica j t).1)
  unfolding promote_replica
  promote_replica-IsFixed j t h =
      if_cases (λ (r : Bool × ShardTopology). IsFixed address (find_shard k r.1))
        (can_promote (find_shard j t))
        (λ yes.
          subst (IsFixed address)
            (sym (find_shard-update_shard j k promoted t (λ s. unfold promoted in refl)))
            (elim (Bool-cases (text_eq j k)) [
              | inl e ↦
                  let same : find_shard j t ≡ find_shard k t =
                    ap (λ i. find_shard i t) ((text_eq_iff j k).0 e) in
                  absurd (ground (arith, yes, not-can_promote (find_shard k t) h, same))
              | inr e ↦
                  rw e
                    (subst (IsFixed address) (sym (update_found-false promoted (find_shard k t))) h)
            ]))
        (λ _. h)

  IsFixed-of :
      (o : Option Shard)
      → elim o [ none ↦ false | some s ↦ s.failed_over ] ≡ true
      → elim o [ none ↦ [] | some s ↦ s.active_address ] ≡ address
      → IsFixed address o
  IsFixed-of none h e = absurd (ground arith)
  IsFixed-of (some s) h e = (h, e)

  of_fixed :
      (o : Option Shard)
      → IsFixed address o
      → (elim o [ none ↦ false | some s ↦ s.failed_over ] ≡ true)
        × (elim o [ none ↦ [] | some s ↦ s.active_address ] ≡ address)
  of_fixed none h = elim h [ ]
  of_fixed (some s) h = h

-- Once a shard was failed over, no check fails it over again or changes the address that serves it,
-- whichever nodes come back or go.
pub run_checks_latch :
    (max_missed_pings : ℕ) (checks : List (Text × Answers)) (shard_id : Text) (t : ShardTopology)
    → already_failed_over shard_id t ≡ true
    → (already_failed_over shard_id (run_checks max_missed_pings checks t) ≡ true)
      × (active_address_for shard_id (run_checks max_missed_pings checks t)
          ≡ active_address_for shard_id t)
unfolding already_failed_over active_address_for
run_checks_latch n checks k t h = of_fixed k _ _ (
    run_checks_keeps n (λ u. IsFixed (active_address_for k t) (find_shard k u))
      (λ j role success u. record_ping_result-IsFixed k (active_address_for k t) j role success n u)
      (promote_replica-IsFixed k _) checks t
      (IsFixed-of k (active_address_for k t) (find_shard k t) h refl))
