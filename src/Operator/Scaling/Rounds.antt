-- ===== src/Operator/Scaling/Rounds.antt =====
-- Rounds of safe scaling reach the wanted number of replicas.
use coherence_operator.Prelude.{
  ℕ, zero, suc, ◌+◌, ◌-◌, ◌≤◌, ◌<◌, ◌≡◌, refl, ap, List, true, ◌⊎◌, inl, inr, Text, Bool-cases,
  arith, ◌==◌, if◌then◌else◌,
}
use coherence_operator.Operator.Scaling.{
  StatefulSet, Effect, Kube, Cluster, get_replicas, note, scaled_to, patched, parallel_scale,
  check_ha, toward, safe_scale, ha_checked,
}
use coherence_operator.Operator.Scaling.Step.{toward-bounds, safely_scaled-cluster}

-- A host on which every check says StatusHA and every patch is applied as asked for.
pub record IsHealthy (k : Kube) : Type 0 where
  pub safe : (es : List Effect) → k.is_status_ha es ≡ true
  pub applies :
      (es : List Effect) (sts desired : StatefulSet)
      → k.three_way_patch es sts desired ≡ inr desired

-- The number of replicas that the API server has.
abbrev pub count : Cluster → ℕ
count c = get_replicas c.stateful_set

-- The reconciler scales as long as the counts differ.
unfoldable pub rounds : Kube → ℕ → ℕ → Cluster → Cluster
rounds k desired zero c = c
rounds k desired (suc n) c =
    rounds k desired n
      (if count c == desired then c else (safe_scale k c.stateful_set desired (count c) c).1)

patched-count :
    (sts : StatefulSet) (replicas : ℕ) (answer : Text ⊎ StatefulSet) (c : Cluster)
    → answer ≡ inr (scaled_to sts replicas)
    → count (patched sts replicas answer c).1 ≡ replicas
unfolding patched note scaled_to get_replicas
patched-count sts replicas (inl err) c e = cc
patched-count sts replicas (inr applied) c e =
    let same : applied ≡ scaled_to sts replicas = cc in ap get_replicas same

parallel_scale-count :
    (k : Kube) (sts : StatefulSet) (replicas : ℕ) (c : Cluster)
    → IsHealthy k
    → count (parallel_scale k sts replicas c).1 ≡ replicas
unfolding parallel_scale
parallel_scale-count k sts replicas c healthy =
    patched-count sts replicas _ _ (healthy.applies _ sts (scaled_to sts replicas))

safe_scale-count :
    (k : Kube) (sts : StatefulSet) (desired current : ℕ) (c : Cluster)
    → IsHealthy k
    → count (safe_scale k sts desired current c).1 ≡ toward desired current
unfolding safe_scale check_ha
safe_scale-count k sts desired current c healthy =
    let step = toward desired current in
    elim (Bool-cases (current == 1)) [
      | inl single ↦
          rw (single, safely_scaled-cluster k desired step (parallel_scale k sts step c))
            (parallel_scale-count k sts step c healthy)
      | inr several ↦
          rw
            (
              several,
              healthy.safe c.effects,
              safely_scaled-cluster k desired step (parallel_scale k sts step (note ha_checked c)),
            )
            (parallel_scale-count k sts step (note ha_checked c) healthy)
    ]

-- One round brings the count one closer.
round-count :
    (k : Kube) (desired : ℕ) (c : Cluster)
    → IsHealthy k
    → count (if count c == desired then c else (safe_scale k c.stateful_set desired (count c) c).1)
      ≡ (if count c == desired then count c else toward desired (count c))
round-count k desired c healthy = elim (Bool-cases (count c == desired)) [
  | inl e ↦ rw e refl
  | inr e ↦ rw e (safe_scale-count k c.stateful_set desired (count c) c healthy)
]

-- The distance between two counts.
abbrev pub distance : ℕ → ℕ → ℕ
distance a b = (a - b) + (b - a)

closer :
    (desired current n : ℕ)
    → desired < 2147483648
    → current < 2147483648
    → distance current desired ≤ suc n
    → (distance (if current == desired then current else toward desired current) desired ≤ n)
      × ((if current == desired then current else toward desired current) < 2147483648)
closer desired current n hd hc near = elim (Bool-cases (current == desired)) [
  | inl e ↦ rw e (ground arith, hc)
  | inr e ↦
      let (up, down) = toward-bounds desired current hd hc in rw e (ground arith, ground arith)
]

-- On a healthy cluster whose counts are below 2 ^ 31, as many rounds of safe scaling as the counts lie
-- apart reach the wanted count, from above and from below.
pub rounds-count :
    (k : Kube) (desired n : ℕ) (c : Cluster)
    → IsHealthy k
    → desired < 2147483648
    → count c < 2147483648
    → distance (count c) desired ≤ n
    → count (rounds k desired n c) ≡ desired
unfolding rounds
rounds-count k desired zero c healthy hd hc near = omega arith
rounds-count k desired (suc n) c healthy hd hc near =
    let next =
      (if count c == desired then c else (safe_scale k c.stateful_set desired (count c) c).1) in
    let (nearer, bounded) = closer desired (count c) n hd hc near in
    let after = round-count k desired c healthy in
    rounds-count k desired n next healthy hd (rw after bounded) (rw after nearer)
