-- ===== src/Operator/Scaling/Partition.antt =====
-- A change of the number of replicas does not upgrade the members that stay: the partition of the rolling
-- update keeps every member below it at its revision.
use coherence_operator.Prelude.{
  ℕ, ◌<◌, ◌≡◌, refl, Option, none, some, true, codes, text_eq, arith, if◌then◌else◌,
}
use coherence_operator.Operator.Scaling.{
  RollingUpdate, StatefulSet, less, get_replicas, with_partition, scaled_to,
}

with_partition_lem :
    (n : ℕ) (update : Option RollingUpdate) → (with_partition n update).partition ≡ some n
unfolding with_partition
with_partition_lem n none = refl
with_partition_lem n (some update) = refl

below_both :
    (current replicas member : ℕ)
    → current < 2147483648
    → replicas < 2147483648
    → member < current
    → member < replicas
    → member < (if less replicas current then replicas else current)
unfolding less
below_both current replicas member hc hr mc mr = ground arith

-- For a StatefulSet that is updated by RollingUpdate, and counts below 2 ^ 31, `parallelScale` asks for the wanted number of
-- replicas and for a partition that lies above the ordinal of every member that is there before and
-- after, so that none of them is upgraded by the scaling.
pub scaled_to-partition :
    (sts : StatefulSet) (replicas : ℕ)
    → text_eq sts.strategy (codes "RollingUpdate") ≡ true
    → get_replicas sts < 2147483648
    → replicas < 2147483648
    → (get_replicas (scaled_to sts replicas) ≡ replicas)
      × ((update : RollingUpdate) × (n : ℕ) × ((scaled_to sts replicas).rolling_update
            ≡ some update)
          × (update.partition ≡ some n)
          × ((member : ℕ) → member < get_replicas sts → member < replicas → member < n))
unfolding scaled_to get_replicas
scaled_to-partition sts replicas rolling hc hr = (
  refl,
  (
    with_partition _ sts.rolling_update,
    (if less replicas (get_replicas sts) then replicas else get_replicas sts),
    rw rolling refl,
    with_partition_lem _ sts.rolling_update,
    λ member mc mr. below_both (get_replicas sts) replicas member hc hr mc mr,
  ),
)
