-- ===== src/Operator/Scaling.antt =====
-- The scaling of a StatefulSet (controllers/statefulset/statefulset_controller.go). An int32 is its
-- pattern of 32 bits. The Kubernetes API, the StatusHA probe and the error handler are the fields of
-- `Kube`; log lines and the texts that wrap an
-- error are left out.
pub mod Step
pub mod Partition
pub mod Rounds
mod Tests
use coherence_operator.Prelude.{
  ℕ, ◌+◌, ◌%◌, List, [], ◌∷◌, Option, none, some, Bool, true, false, not, ◌||◌, ◌⊎◌, inl, inr, Text,
  codes, text_eq, ltb, ◌==◌, if◌then◌else◌,
}
use coherence_operator.Operator.Status.{Status}

pub record RollingUpdate : Type 0 where
  pub partition : Option ℕ
  pub max_unavailable : Option Text

pub record StatefulSet : Type 0 where
  pub replicas : Option ℕ
  pub strategy : Text
  pub rolling_update : Option RollingUpdate
  pub ready_replicas : ℕ

-- What the scaling does to the world, the last first.
pub data Effect : Type 0 where
  phase_updated : Text → Effect
  ha_checked : Effect
  patch_requested : StatefulSet → Effect
  scale_failed : ℕ → ℕ → Effect
  scaled : ℕ → ℕ → Effect

-- `reconcile.Result` with its delay in seconds, and the error.
pub record Outcome : Type 0 where
  pub requeue_after : ℕ
  pub err : Option Text

pub record Kube : Type 0 where
  pub is_status_ha : List Effect → Bool
  pub three_way_patch : List Effect → StatefulSet → StatefulSet → Text ⊎ StatefulSet
  pub handle_error : List Effect → Text → Outcome
  pub status_ha_retry : ℕ

-- The effects, the resource in memory, and the StatefulSet that the API server has.
pub record Cluster : Type 0 where
  pub effects : List Effect
  pub deployment : Status
  pub stateful_set : StatefulSet

-- `a < b` on int32.
unfoldable pub less : ℕ → ℕ → Bool
less a b = ltb ((a + 2147483648) % 4294967296) ((b + 2147483648) % 4294967296)

unfoldable pub plus_one : ℕ → ℕ
plus_one n = (n + 1) % 4294967296

unfoldable pub minus_one : ℕ → ℕ
minus_one n = (n + 4294967295) % 4294967296

unfoldable pub get_replicas : StatefulSet → ℕ
get_replicas sts = elim sts.replicas [ none ↦ 1 | some replicas ↦ replicas ]

unfoldable pub note : Effect → Cluster → Cluster
note effect c = record c { effects = effect ∷ c.effects }

unfoldable pub with_partition : ℕ → Option RollingUpdate → RollingUpdate
with_partition n none = record { partition = some n; max_unavailable = none }
with_partition n (some update) = record update { partition = some n }

-- `stsDesired`
unfoldable pub scaled_to : StatefulSet → ℕ → StatefulSet
scaled_to sts replicas =
    let current = get_replicas sts in
    record sts {
      replicas = some replicas;
      rolling_update =
          if text_eq sts.strategy (codes "RollingUpdate")
          then some (
              with_partition (if less replicas current then replicas else current)
                sts.rolling_update)
          else sts.rolling_update;
    }

unfoldable pub patched : StatefulSet → ℕ → Text ⊎ StatefulSet → Cluster → Outcome × Cluster
patched sts replicas (inl err) c = (
  record { requeue_after = 0; err = some err },
  note (scale_failed (get_replicas sts) replicas) c,
)
patched sts replicas (inr applied) c = (
  record { requeue_after = if less replicas (get_replicas sts) then 60 else 0; err = none },
  note (scaled (get_replicas sts) replicas) (record c { stateful_set = applied }),
)

unfoldable pub parallel_scale : Kube → StatefulSet → ℕ → Cluster → Outcome × Cluster
parallel_scale k sts replicas c =
    let d = note (phase_updated (codes "Scaling")) (record c {
      deployment = record c.deployment { phase = codes "Scaling"; replicas = replicas };
    }) in
    patched sts replicas (k.three_way_patch d.effects sts (scaled_to sts replicas))
      (note (patch_requested (scaled_to sts replicas)) d)

-- What `safeScale` makes of the answer of `parallelScale`.
unfoldable pub safely_scaled : Kube → ℕ → ℕ → Outcome × Cluster → Outcome × Cluster
safely_scaled k desired replicas (o, c) = elim o.err [
  | none ↦ (record { requeue_after = if replicas == desired then 0 else 60; err = none }, c)
  | some err ↦ (k.handle_error c.effects err, c)
]

-- `current == 1 || checker.IsStatusHA(...)`: a single member is not probed.
unfoldable pub check_ha : Kube → ℕ → Cluster → Bool × Cluster
check_ha k current c =
    if current == 1 then (true, c) else (k.is_status_ha c.effects, note ha_checked c)

unfoldable pub toward : ℕ → ℕ → ℕ
toward desired current = if less current desired then plus_one current else minus_one current

unfoldable pub at_least_a_minute : ℕ → ℕ
at_least_a_minute seconds = if ltb seconds 60 then 60 else seconds

unfoldable pub safe_scale : Kube → StatefulSet → ℕ → ℕ → Cluster → Outcome × Cluster
safe_scale k sts desired current c =
    let (ha, d) = check_ha k current c in
    if ha
    then safely_scaled k desired (toward desired current)
        (parallel_scale k sts (toward desired current) d)
    else (record { requeue_after = at_least_a_minute k.status_ha_retry; err = none }, d)

-- `ScalingPolicy` is a string: any other value is treated like `Safe`.
unfoldable pub scale : Kube → Text → StatefulSet → ℕ → ℕ → Cluster → Outcome × Cluster
scale k policy sts current desired c =
    let d = note (phase_updated (codes "Scaling")) c in
    if text_eq policy (codes "Safe")
    then safe_scale k sts desired current d
    else if text_eq policy (codes "Parallel")
    then parallel_scale k sts desired d
    else if text_eq policy (codes "ParallelUpSafeDown")
    then (if less current desired
        then parallel_scale k sts desired d
        else safe_scale k sts desired current d)
    else safe_scale k sts desired current d

-- `GetEffectiveScalingPolicy`, from the policy and the flag `storageEnabled` of the specification.
unfoldable pub effective_policy : Option Text → Option Bool → Text
effective_policy (some policy) storage_enabled = policy
effective_policy none none = codes "ParallelUpSafeDown"
effective_policy none (some true) = codes "ParallelUpSafeDown"
effective_policy none (some false) = codes "Parallel"
