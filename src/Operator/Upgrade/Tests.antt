-- ===== src/Operator/Upgrade/Tests.antt =====
-- A rolling upgrade of three pods on two nodes.
use coherence_operator.Prelude.{
  ℕ, ◌≡◌, refl, List, [], ◌∷◌, none, some, true, false, ◌⊎◌, inr, codes, text_eq, ◌&&◌,
}
use coherence_operator.Runtime.{ok}
use coherence_operator.Operator.Upgrade.{
  upgrade_by, get_upgrade_strategy, group_onto, is_stale, Pod, pod_node_name, NodeApi, Progress,
  StatefulSet, rolling_upgrade, is_unready, group_pods, Groups,
}
use coherence_operator.Operator.Upgrade.Deletion.{IsSafeUpgrade}
use coherence_operator.Operator.Upgrade.Reference.{find_group, chosen, group_pods-chosen}
use coherence_operator.Operator.Upgrade.Safety.{PicksOne, rolling_upgrade-IsSafeUpgrade}

abbrev pod_on : List ℕ → List ℕ → List ℕ → Pod
pod_on name node revision = record {
  name = name;
  node_name = node;
  labels = (codes "controller-revision-hash", revision) ∷ [];
}

abbrev three_pods : List Pod
three_pods =
    pod_on (codes "storage-0") (codes "n1") (codes "r1")
    ∷ pod_on (codes "storage-1") (codes "n2") (codes "r1")
    ∷ pod_on (codes "storage-2") (codes "n1") (codes "r1")
    ∷ []

abbrev sample_api : NodeApi
sample_api = record {
  is_node_lookup_enabled = true;
  get_label = λ node label. inr node;
  get_pods = inr three_pods;
  is_safe = λ pods group. true;
  delete_error = λ deleted pod. none;
  first_group = λ group groups. group;
}

sample_api-PicksOne : PicksOne sample_api
sample_api-PicksOne = λ group groups. ([], groups, refl)

abbrev three_members : StatefulSet
three_members = record {
  replicas = some 3;
  ready_replicas = 3;
  current_revision = codes "r1";
  update_revision = codes "r2";
}

abbrev not_begun : Progress
not_begun = record { cache = []; deleted = [] }

-- Both pods of the first node are deleted, the one of the other node stays.
by_node_name :
    upgrade_by sample_api (get_upgrade_strategy (some (codes "Node")) none) three_members not_begun
    ≡ (ok 0, record { cache = []; deleted = codes "storage-2" ∷ codes "storage-0" ∷ [] })
unfolding rolling_upgrade group_onto is_stale text_eq upgrade_by get_upgrade_strategy
by_node_name = refl

-- Nobody but the StatefulSet upgrades the pods one by one.
by_pod_alone :
    upgrade_by sample_api (get_upgrade_strategy none none) three_members not_begun
    ≡ (ok 0, not_begun)
unfolding upgrade_by get_upgrade_strategy
by_pod_alone = refl

rolling_upgrade-IsSafeUpgrade_example :
    let end = (rolling_upgrade sample_api pod_node_name three_members not_begun).1 in
    (end.deleted ≡ not_begun.deleted)
    ⊎ ((pods : List Pod) × (sample_api.get_pods ≡ inr pods)
        × (is_unready three_members ≡ false)
        × IsSafeUpgrade sample_api pod_node_name three_members.update_revision pods not_begun end)
rolling_upgrade-IsSafeUpgrade_example =
    rolling_upgrade-IsSafeUpgrade sample_api pod_node_name three_members not_begun
      sample_api-PicksOne tt

group_pods-chosen_example :
    (stale : Groups) × (all : Groups) × (t : Progress) × (group_pods sample_api pod_node_name
        (codes "r2")
        three_pods
        not_begun
      ≡ (ok (stale, all), t))
    × ((id : List ℕ)
        → (find_group id stale
            ≡ chosen (λ pod. is_stale (codes "r2") pod && text_eq pod.node_name id) three_pods)
          × (find_group id all ≡ chosen (λ pod. text_eq pod.node_name id) three_pods))
group_pods-chosen_example =
    group_pods-chosen sample_api pod_node_name (codes "r2") (λ pod. pod.node_name) (λ pod. refl)
      three_pods not_begun tt
