-- ===== src/Operator/Scaling/Step.antt =====
-- Safe scaling takes one step at a time, and only if it is safe.
use coherence_operator.Prelude.{
  ℕ, ◌+◌, ◌≤◌, ◌<◌, ◌≡◌, refl, List, [], ◌∷◌, true, false, ◌⊎◌, inl, inr, Text, codes, text_eq,
  Bool-cases, Option-cases, arith, ◌==◌,
}
use coherence_operator.Operator.Scaling.{
  StatefulSet, Effect, phase_updated, ha_checked, patch_requested, scale_failed, scaled, Outcome,
  Kube, Cluster, less, plus_one, minus_one, note, scaled_to, patched, parallel_scale, safely_scaled,
  check_ha, toward, safe_scale, scale,
}

-- The StatefulSets that the API server was asked to store, the last first.
unfoldable pub patches : List Effect → List StatefulSet
patches [] = []
patches (patch_requested sts ∷ es) = sts ∷ patches es
patches (phase_updated phase ∷ es) = patches es
patches (ha_checked ∷ es) = patches es
patches (scale_failed current replicas ∷ es) = patches es
patches (scaled current replicas ∷ es) = patches es

-- A step towards the desired count, without wrapping: counts are below 2 ^ 31.
pub toward-bounds :
    (desired current : ℕ)
    → desired < 2147483648
    → current < 2147483648
    → (current < desired
        → (toward desired current ≡ current + 1) × (toward desired current ≤ desired))
      × (desired < current
          → (toward desired current + 1 ≡ current) × (desired ≤ toward desired current))
unfolding toward less plus_one minus_one
toward-bounds desired current hd hc =
    (λ up. (ground arith, ground arith), λ down. (ground arith, ground arith))

patched-patches :
    (sts : StatefulSet) (replicas : ℕ) (answer : Text ⊎ StatefulSet) (c : Cluster)
    → patches (patched sts replicas answer c).1.effects ≡ patches c.effects
unfolding patched note patches
patched-patches sts replicas (inl err) c = refl
patched-patches sts replicas (inr applied) c = refl

-- `parallelScale` asks for one patch.
pub parallel_scale-patches :
    (k : Kube) (sts : StatefulSet) (replicas : ℕ) (c : Cluster)
    → patches (parallel_scale k sts replicas c).1.effects
      ≡ scaled_to sts replicas ∷ patches c.effects
unfolding parallel_scale note patches
parallel_scale-patches k sts replicas c = patched-patches sts replicas _ _

pub safely_scaled-cluster :
    (k : Kube) (desired replicas : ℕ) (a : Outcome × Cluster)
    → (safely_scaled k desired replicas a).1 ≡ a.1
unfolding safely_scaled
safely_scaled-cluster k desired replicas (o, c) = elim (Option-cases o.err) [
  | inl fine ↦ rw fine refl
  | inr (err, failed) ↦ rw failed refl
]

-- Nothing was asked for, or one step was, by a single member or a cluster that is StatusHA.
abbrev pub IsStep : Kube → StatefulSet → ℕ → ℕ → Cluster → Cluster → Type 0
IsStep k sts desired current c d =
    (patches d.effects ≡ patches c.effects)
    ⊎ ((patches d.effects ≡ scaled_to sts (toward desired current) ∷ patches c.effects)
        × ((current ≡ 1) ⊎ (k.is_status_ha c.effects ≡ true)))

safe_scale-IsStep :
    (k : Kube) (sts : StatefulSet) (desired current : ℕ) (c : Cluster)
    → IsStep k sts desired current c (safe_scale k sts desired current c).1
unfolding safe_scale check_ha note patches
safe_scale-IsStep k sts desired current c = elim (Bool-cases (current == 1)) [
  | inl single ↦
      let step = toward desired current in
      inr (
        rw single (
            rw (safely_scaled-cluster k desired step (parallel_scale k sts step c))
              (parallel_scale-patches k sts step c)),
        inl (ground (arith, single)),
      )
  | inr several ↦ elim (Bool-cases (k.is_status_ha c.effects)) [
    | inl ha ↦
        let step = toward desired current in
        inr (
          rw (several, ha)
              (rw
                (safely_scaled-cluster k desired step
                  (parallel_scale k sts step (note ha_checked c)))
                (parallel_scale-patches k sts step (note ha_checked c))),
          inr ha,
        )
    | inr unsafe ↦ inl (rw (several, unsafe) refl)
  ]
]

not_less :
    (current desired : ℕ) → current < 2147483648 → desired < current → less current desired ≡ false
unfolding less
not_less current desired bounded down = ground arith

scale-down :
    (k : Kube) (policy : Text) (sts : StatefulSet) (current desired : ℕ) (c : Cluster)
    → text_eq policy (codes "Parallel") ≡ false
    → current < 2147483648
    → desired < current
    → scale k policy sts current desired c
      ≡ safe_scale k sts desired current (note (phase_updated (codes "Scaling")) c)
unfolding scale
scale-down k policy sts current desired c other bounded down =
    elim (Bool-cases (text_eq policy (codes "Safe"))) [
      | inl e ↦ rw e refl
      | inr e ↦ elim (Bool-cases (text_eq policy (codes "ParallelUpSafeDown"))) [
        | inl both ↦ rw (e, other, both, not_less current desired bounded down) refl
        | inr neither ↦ rw (e, other, neither) refl
      ]
    ]

-- Scaling down from a count below 2 ^ 31 by any policy but Parallel asks the API server for one patch at
-- most. That patch takes exactly one member away and leaves no fewer than are wanted, and it is asked
-- for only if there is a single member or the probe says that the cluster is StatusHA.
pub scale-IsSafe :
    (k : Kube) (policy : Text) (sts : StatefulSet) (current desired : ℕ) (c : Cluster)
    → text_eq policy (codes "Parallel") ≡ false
    → current < 2147483648
    → desired < current
    → let after = (scale k policy sts current desired c).1 in
      (patches after.effects ≡ patches c.effects)
      ⊎ ((left : ℕ) × (left + 1 ≡ current)
          × (desired ≤ left)
          × (patches after.effects ≡ scaled_to sts left ∷ patches c.effects)
          × ((current ≡ 1) ⊎ (k.is_status_ha (phase_updated (codes "Scaling") ∷ c.effects) ≡ true)))
unfolding note patches
scale-IsSafe k policy sts current desired c other bounded down =
    let d : Cluster = note (phase_updated (codes "Scaling")) c in
    let down_is_safe = scale-down k policy sts current desired c other bounded down in
    let (step, wanted) = (toward-bounds desired current (ground arith) bounded).1 down in
    elim (safe_scale-IsStep k sts desired current d) [
      | inl nothing ↦ inl (rw down_is_safe nothing)
      | inr (asked, safe) ↦ inr (toward desired current, step, wanted, rw down_is_safe asked, safe)
    ]
