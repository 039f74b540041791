-- ===== src/Operator/Upgrade.antt =====
-- The rolling upgrade of a StatefulSet that the operator manages by node
-- (controllers/statefulset/upgrade_strategy.go). The Kubernetes API, the probe and the order in which Go
-- goes through a map are the fields of `NodeApi`; an error of Go is a `Thrown`; log lines are left out.
pub mod Groups
pub mod Reference
pub mod Deletion
pub mod Safety
mod Tests
use coherence_operator.Prelude.{
  ℕ, zero, suc, List, [], ◌∷◌, ◌++◌, Option, none, some, Bool, true, false, not, ◌&&◌, ◌||◌, ◌⊎◌,
  inl, inr, Text, codes, text_eq, is_empty, ltb, ◌==◌, if◌then◌else◌,
}
use coherence_operator.Runtime.{
  Thrown, Result, ok, throws, pending, Run, ◌>>=◌, ◌>>◌, pure, throw, or_empty,
}

pub record Pod : Type 0 where
  pub name : Text
  pub node_name : Text
  pub labels : List (Text × Text)

unfoldable pub lookup : Text → List (Text × Text) → Option Text
lookup key [] = none
lookup key ((k, v) ∷ rest) = if text_eq k key then some v else lookup key rest

-- `pod.Labels["controller-revision-hash"]`, which is empty for a pod without the label.
unfoldable pub pod_revision : Pod → Text
unfolding lookup
pod_revision pod = or_empty (lookup (codes "controller-revision-hash") pod.labels)

-- `RollingUpdateStrategy`, `RollingUpdateLabel`.
pub data UpgradeStrategy : Type 0 where
  by_pod : UpgradeStrategy
  manual : UpgradeStrategy
  by_node : UpgradeStrategy
  by_node_label : Text → UpgradeStrategy

unfoldable pub get_upgrade_strategy : Option Text → Option Text → UpgradeStrategy
get_upgrade_strategy none label = by_pod
get_upgrade_strategy (some name) label =
    if text_eq name (codes "Manual")
    then manual
    else if text_eq name (codes "Node")
    then by_node
    else if text_eq name (codes "NodeLabel")
    then elim label [ none ↦ by_node | some l ↦ by_node_label l ]
    else by_pod

unfoldable pub is_operator_managed : UpgradeStrategy → Bool
is_operator_managed by_pod = false
is_operator_managed manual = false
is_operator_managed by_node = true
is_operator_managed (by_node_label label) = true

-- `PodNodeName` and `PodNodeLabel`.
pub data PodNodeId : Type 0 where
  pod_node_name : PodNodeId
  pod_node_label : Text → PodNodeId

abbrev pub Groups : Type 0
Groups = List (Text × List Pod)

pub record NodeApi : Type 0 where
  pub is_node_lookup_enabled : Bool
  pub get_label : Text → Text → Thrown ⊎ Text
  pub get_pods : Thrown ⊎ List Pod
  pub is_safe : List Pod → List Pod → Bool
  pub delete_error : List Text → Pod → Option Thrown
  pub first_group : (Text × List Pod) → Groups → Text × List Pod

-- The cache of the labels by the name of the node, and the names of the deleted pods, the last first.
pub record Progress : Type 0 where
  pub cache : List (Text × Text)
  pub deleted : List Text

abbrev pub from_api : {A : Type 0} → Thrown ⊎ A → Run Progress A
from_api (inl err) = throw err
from_api (inr a) = pure a

unfoldable pub cached_label : NodeApi → Text → Text → Option Text → Run Progress Text
cached_label api label node (some value) s = (ok value, s)
cached_label api label node none s = elim (api.get_label node label) [
  | inl err ↦ (throws err, s)
  | inr value ↦ (ok value, record s { cache = (node, value) ∷ s.cache })
]

-- `GetNodeId`. The first call finds no cache, which is like an empty one.
unfoldable pub get_node_id : NodeApi → PodNodeId → Pod → Run Progress Text
unfolding cached_label lookup
get_node_id api pod_node_name pod = pure pod.node_name
get_node_id api (pod_node_label label) pod =
    λ s. cached_label api label pod.node_name (lookup pod.node_name s.cache) s

unfoldable pub append_pod : Text → Pod → Groups → Groups
append_pod id pod [] = (id, pod ∷ []) ∷ []
append_pod id pod ((key, pods) ∷ groups) =
    let rest = append_pod id pod groups in
    if text_eq key id then (key, pods ++ (pod ∷ [])) ∷ groups else (key, pods) ∷ rest

unfoldable pub is_stale : Text → Pod → Bool
unfolding pod_revision
is_stale revision pod = not (text_eq revision (pod_revision pod))

-- The loop of `groupPods`: the pods of another revision, and all pods, by their node.
unfoldable pub group_onto :
    NodeApi → PodNodeId → Text → List Pod → Groups → Groups → Run Progress (Groups × Groups)
unfolding append_pod get_node_id
group_onto api fn revision [] by_id all = pure (by_id, all)
group_onto api fn revision (pod ∷ pods) by_id all = do
  id ← get_node_id api fn pod
  group_onto api fn revision pods (if is_stale revision pod then append_pod id pod by_id else by_id)
      (append_pod id pod all)

unfoldable pub group_pods : NodeApi → PodNodeId → Text → List Pod → Run Progress (Groups × Groups)
group_pods api fn revision pods = group_onto api fn revision pods [] []

unfoldable pub delete_answered : Pod → Option Thrown → Run Progress (Unit {0})
delete_answered pod (some err) s = (throws err, s)
delete_answered pod none s = (ok tt, record s { deleted = pod.name ∷ s.deleted })

unfoldable pub delete_pods : NodeApi → List Pod → Run Progress (Unit {0})
unfolding delete_answered
delete_pods api [] = pure tt
delete_pods api (pod ∷ pods) = do
  λ s. delete_answered pod (api.delete_error s.deleted pod) s
  delete_pods api pods

-- The delay in seconds after which the request comes again, 0 for none.
abbrev pub Requeue : Type 0
Requeue = ℕ

-- `GetNodeId` of the first pod, for a log line: its error is ignored.
unfoldable pub look_at : NodeApi → PodNodeId → List Pod → Run Progress (Unit {0})
look_at api fn [] = pure tt
look_at api fn (pod ∷ pods) = λ s. (ok tt, (get_node_id api fn pod s).1)

unfoldable pub upgrade_pods : NodeApi → PodNodeId → List Pod → List Pod → Run Progress Requeue
unfolding look_at delete_pods
upgrade_pods api fn pods [] = pure 0
upgrade_pods api fn pods (pod ∷ more) = do
  look_at api fn pods
  if api.is_safe pods (pod ∷ more) then (delete_pods api (pod ∷ more) >> pure 0) else pure 60

-- `GetNodeId` of the first pod, whose error is returned.
unfoldable pub single_node : NodeApi → PodNodeId → Pod → Run Progress Requeue
single_node api fn pod = do id ← get_node_id api fn pod; pure 0

-- The groups of several pods: nothing is stale, there is one node only, or one group is upgraded.
unfoldable pub upgrade_group :
    NodeApi → PodNodeId → Pod → List Pod → Groups × Groups → Run Progress Requeue
unfolding upgrade_pods single_node
upgrade_group api fn pod pods ([], all) = pure 0
upgrade_group api fn pod pods (group ∷ groups, one ∷ []) = single_node api fn pod
upgrade_group api fn pod pods (group ∷ groups, []) =
    upgrade_pods api fn (pod ∷ pods) (api.first_group group groups).1
upgrade_group api fn pod pods (group ∷ groups, one ∷ (two ∷ others)) =
    upgrade_pods api fn (pod ∷ pods) (api.first_group group groups).1

unfoldable pub upgrade_listed : NodeApi → PodNodeId → Text → List Pod → Run Progress Requeue
unfolding upgrade_group group_pods
upgrade_listed api fn revision [] = pure 0
upgrade_listed api fn revision (pod ∷ []) =
    upgrade_pods api fn (pod ∷ []) (if is_stale revision pod then pod ∷ [] else [])
upgrade_listed api fn revision (pod ∷ (second ∷ more)) =
    group_pods api fn revision (pod ∷ (second ∷ more)) >>= upgrade_group api fn pod (second ∷ more)

pub record StatefulSet : Type 0 where
  pub replicas : Option ℕ
  pub ready_replicas : ℕ
  pub current_revision : Text
  pub update_revision : Text

unfoldable pub is_unready : StatefulSet → Bool
is_unready sts = elim sts.replicas [
  | none ↦ sts.ready_replicas == 0
  | some replicas ↦ not (sts.ready_replicas == replicas)
]

unfoldable pub wanted : StatefulSet → ℕ
wanted sts = elim sts.replicas [ none ↦ 1 | some replicas ↦ replicas ]

unfoldable pub count : List Pod → ℕ
count [] = 0
count (pod ∷ pods) = suc (count pods)

unfoldable pub rolling_upgrade : NodeApi → PodNodeId → StatefulSet → Run Progress Requeue
unfolding upgrade_listed is_unready wanted count
rolling_upgrade api fn sts =
    if is_unready sts
    then pure 0
    else if text_eq sts.current_revision sts.update_revision
    then pure 0
    else if not api.is_node_lookup_enabled
    then pure 0
    else (do
      pods ← from_api api.get_pods
      if not (count pods == wanted sts)
          then pure 0
          else upgrade_listed api fn sts.update_revision pods)

-- `RollingUpgrade` of each strategy.
unfoldable pub upgrade_by : NodeApi → UpgradeStrategy → StatefulSet → Run Progress Requeue
unfolding rolling_upgrade
upgrade_by api by_pod sts = pure 0
upgrade_by api manual sts = pure 0
upgrade_by api by_node sts = rolling_upgrade api pod_node_name sts
upgrade_by api (by_node_label label) sts = rolling_upgrade api (pod_node_label label) sts
