-- ===== src/Operator/Scaling/Tests.antt =====
-- The theorems about scaling, applied to a StatefulSet with five members.
use coherence_operator.Prelude.{
  ℕ, ◌+◌, ◌≤◌, ◌<◌, ◌≡◌, refl, [], ◌∷◌, none, some, true, false, ◌⊎◌, inr, codes, text_eq, arith,
}
use coherence_operator.Operator.Status.{Status}
use coherence_operator.Operator.Scaling.{
  RollingUpdate, StatefulSet, Kube, Cluster, get_replicas, scaled_to, scale, effective_policy,
}
use coherence_operator.Operator.Scaling.Step.{patches, scale-IsSafe}
use coherence_operator.Operator.Scaling.Partition.{scaled_to-partition}
use coherence_operator.Operator.Scaling.Rounds.{IsHealthy, count, rounds, rounds-count}

abbrev five_members : StatefulSet
five_members = record {
  replicas = some 5;
  strategy = codes "RollingUpdate";
  rolling_update = none;
  ready_replicas = 5;
}

abbrev healthy_kube : Kube
healthy_kube = record {
  is_status_ha = λ es. true;
  three_way_patch = λ es sts desired. inr desired;
  handle_error = λ es err. record { requeue_after = 60; err = none };
  status_ha_retry = 0;
}

healthy_kube-IsHealthy : IsHealthy healthy_kube
healthy_kube-IsHealthy = record { safe = λ es. refl; applies = λ es sts desired. refl }

abbrev unused_status : Status
unused_status = record {
  phase = codes "Ready";
  coherence_cluster = codes "storage";
  coherence_type = codes "StatefulSet";
  replicas = 5;
  current_replicas = 5;
  ready_replicas = 5;
  active = 0;
  succeeded = 0;
  failed = 0;
  role = codes "storage";
  selector = [];
  conditions = [];
  hash = [];
  actions_executed = false;
  job_probes = [];
}

abbrev sample_cluster : Cluster
sample_cluster = record { effects = []; deployment = unused_status; stateful_set = five_members }

abbrev sample_cluster_count : ℕ
sample_cluster_count = 5

scale-IsSafe_example :
    let after =
      (scale healthy_kube (codes "ParallelUpSafeDown") five_members 5 2 sample_cluster).1 in
    (patches after.effects ≡ patches [])
    ⊎ ((left : ℕ) × (left + 1 ≡ 5)
        × (2 ≤ left)
        × (patches after.effects ≡ scaled_to five_members left ∷ patches [])
        × ((sample_cluster_count ≡ 1) ⊎ (true ≡ true)))
unfolding text_eq
scale-IsSafe_example =
    scale-IsSafe healthy_kube (codes "ParallelUpSafeDown") five_members 5 2 sample_cluster refl
      (omega arith) (omega arith)

scaled_to-partition_example :
    (get_replicas (scaled_to five_members 3) ≡ 3)
    × ((update : RollingUpdate) × (n : ℕ) × ((scaled_to five_members 3).rolling_update
          ≡ some update)
        × (update.partition ≡ some n)
        × ((member : ℕ) → member < get_replicas five_members → member < 3 → member < n))
unfolding text_eq get_replicas
scaled_to-partition_example = scaled_to-partition five_members 3 refl (omega arith) (omega arith)

rounds-count_example : count (rounds healthy_kube 2 3 sample_cluster) ≡ 2
unfolding get_replicas
rounds-count_example =
    rounds-count healthy_kube 2 3 sample_cluster healthy_kube-IsHealthy (omega arith) (omega arith)
      (omega arith)

-- Without a policy, members that store no data are scaled in parallel.
policies :
    (effective_policy none (some false) ≡ codes "Parallel")
    × (effective_policy none none ≡ codes "ParallelUpSafeDown")
unfolding effective_policy
policies = (refl, refl)
