-- ===== src/Operator/Upgrade/Groups.antt =====
-- `groupPods` groups the pods by the node that they are on.
use coherence_operator.Prelude.{
  ◌≡◌, refl, sym, ap, ◌∙◌, List, [], ◌∷◌, ◌++◌, Option, none, some, true, ◌⊎◌, inl, inr, Text,
  text_eq, text_eq_sound, Bool-cases, if◌then◌else◌,
}
use coherence_operator.Runtime.{Thrown, Result, ok, throws, pending, Run}
use coherence_operator.Runtime.Laws.{>>=-ok, >>=-throws}
use coherence_operator.Operator.Upgrade.{
  Pod, lookup, PodNodeId, pod_node_name, pod_node_label, Groups, NodeApi, Progress, cached_label,
  get_node_id, append_pod, is_stale, group_onto,
}

-- The node identifier of a pod, without a cache.
abbrev pub node_id : NodeApi → PodNodeId → Pod → Thrown ⊎ Text
node_id api pod_node_name pod = inr pod.node_name
node_id api (pod_node_label label) pod = api.get_label pod.node_name label

pub with_answer : {A B : Type 0} → {x : A × B} → {a : A} → x.0 ≡ a → x ≡ (a, x.1)
with_answer {x = x} e = ap (λ r. (r, x.1)) e

-- What is cached is what the API says.
abbrev pub IsCached : NodeApi → PodNodeId → Progress → Type 0
IsCached api pod_node_name s = Unit {0}
IsCached api (pod_node_label label) s =
    (node value : Text) → lookup node s.cache ≡ some value → api.get_label node label ≡ inr value

abbrev outcome : {A : Type 0} → Thrown ⊎ A → Result A
outcome (inl err) = throws err
outcome (inr a) = ok a

pub sum_cases : {A B : Type 0} (x : A ⊎ B) → ((a : A) × (x ≡ inl a)) ⊎ ((b : B) × (x ≡ inr b))
sum_cases (inl a) = inl (a, refl)
sum_cases (inr b) = inr (b, refl)

some-inj : {A : Type 0} → {a b : A} → some a ≡ some b → a ≡ b
some-inj e = cc

learned :
    (api : NodeApi) (label node value : Text) (s : Progress)
    → IsCached api (pod_node_label label) s
    → api.get_label node label ≡ inr value
    → IsCached api (pod_node_label label) (record s { cache = (node, value) ∷ s.cache })
unfolding lookup
learned api label node value s cached said n v there = elim (Bool-cases (text_eq node n)) [
  | inl same ↦
      let found : value ≡ v = some-inj (sym (rw (lookup, same) refl) ∙ there) in
      rw (sym (text_eq_sound node n same), sym found) said
  | inr other ↦ cached n v (sym (rw (lookup, other) refl) ∙ there)
]

labelled :
    (api : NodeApi) (label node : Text) (s : Progress)
    → IsCached api (pod_node_label label) s
    → (o : Option Text) → lookup node s.cache ≡ o
    → ((cached_label api label node o s).0 ≡ outcome (api.get_label node label))
      × IsCached api (pod_node_label label) (cached_label api label node o s).1
      × ((cached_label api label node o s).1.deleted ≡ s.deleted)
unfolding cached_label
labelled api label node s cached (some value) there =
    (rw (cached node value there) refl, cached, refl)
labelled api label node s cached none there = elim (sum_cases (api.get_label node label)) [
  | inl (err, said) ↦ rw (said, cached_label) (refl, cached, refl)
  | inr (value, said) ↦
      rw (said, cached_label) (refl, learned api label node value s cached said, refl)
]

-- `GetNodeId` answers with the identifier of the node, keeps the cache true and deletes nothing.
pub get_node_id_lem :
    (api : NodeApi) (fn : PodNodeId) (pod : Pod) (s : Progress)
    → IsCached api fn s
    → ((get_node_id api fn pod s).0 ≡ outcome (node_id api fn pod))
      × IsCached api fn (get_node_id api fn pod s).1
      × ((get_node_id api fn pod s).1.deleted ≡ s.deleted)
unfolding get_node_id
get_node_id_lem api pod_node_name pod s cached = (refl, cached, refl)
get_node_id_lem api (pod_node_label label) pod s cached =
    labelled api label pod.node_name s cached (lookup pod.node_name s.cache) refl

-- Pods of one node.
unfoldable pub IsAll : (Pod → Type 0) → List Pod → Type 0
IsAll P [] = Unit {0}
IsAll P (pod ∷ pods) = P pod × IsAll P pods

IsAll-snoc :
    (P : Pod → Type 0) (pods : List Pod) (pod : Pod)
    → IsAll P pods
    → P pod
    → IsAll P (pods ++ (pod ∷ []))
unfolding IsAll
IsAll-snoc P [] pod tt here = (here, tt)
IsAll-snoc P (first ∷ pods) pod (h, hs) here = (h, IsAll-snoc P pods pod hs here)

-- Each pod of each group has the property that goes with the identifier of the group.
unfoldable pub IsGrouped : (Text → Pod → Type 0) → Groups → Type 0
IsGrouped P [] = Unit {0}
IsGrouped P ((id, pods) ∷ groups) = IsAll (P id) pods × IsGrouped P groups

append_pod-IsGrouped :
    (P : Text → Pod → Type 0) (id : Text) (pod : Pod) (groups : Groups)
    → IsGrouped P groups
    → P id pod
    → IsGrouped P (append_pod id pod groups)
unfolding IsGrouped IsAll append_pod
append_pod-IsGrouped P id pod [] tt here = ((here, tt), tt)
append_pod-IsGrouped P id pod ((key, pods) ∷ groups) (h, hs) here =
    elim (Bool-cases (text_eq key id)) [
      | inl same ↦ rw same (IsAll-snoc (P key) pods pod h (rw (text_eq_sound key id same) here), hs)
      | inr other ↦ rw other (h, append_pod-IsGrouped P id pod groups hs here)
    ]

module _ (api : NodeApi) (fn : PodNodeId) (revision : Text) (Q : Pod → Type 0) where
  -- A pod that is to be upgraded with the others of its node.
  abbrev pub IsDue : Text → Pod → Type 0
  IsDue id pod = (node_id api fn pod ≡ inr id) × (is_stale revision pod ≡ true) × Q pod

  abbrev pub AreDue : Result (Groups × Groups) → Type 0
  AreDue (ok (by_id, all)) = IsGrouped IsDue by_id
  AreDue (throws err) = Unit {0}
  AreDue pending = Unit {0}

  abbrev pub Grouped : Progress → Result (Groups × Groups) × Progress → Type 0
  Grouped s end = AreDue end.0 × IsCached api fn end.1 × (end.1.deleted ≡ s.deleted)

  if-IsGrouped :
      (id : Text) (pod : Pod) (by_id : Groups)
      → IsGrouped IsDue by_id
      → node_id api fn pod ≡ inr id
      → Q pod
      → IsGrouped IsDue (if is_stale revision pod then append_pod id pod by_id else by_id)
  if-IsGrouped id pod by_id grouped named here = elim (Bool-cases (is_stale revision pod)) [
    | inl stale ↦ rw stale (append_pod-IsGrouped IsDue id pod by_id grouped (named, stale, here))
    | inr fresh ↦ rw fresh grouped
  ]

  pub group_onto-Grouped :
      (pods : List Pod) (by_id all : Groups) (s : Progress)
      → IsCached api fn s
      → IsGrouped IsDue by_id
      → IsAll Q pods
      → Grouped s (group_onto api fn revision pods by_id all s)
  unfolding group_onto IsAll
  group_onto-Grouped [] by_id all s cached grouped tt = (grouped, cached, refl)
  group_onto-Grouped (pod ∷ pods) by_id all s cached grouped (here, rest) =
      let (answer, cached', kept) = get_node_id_lem api fn pod s cached in
      let t : Progress = (get_node_id api fn pod s).1 in
      let continue : Text → Run Progress (Groups × Groups) = λ id.
        group_onto api fn revision pods
          (if is_stale revision pod then append_pod id pod by_id else by_id)
          (append_pod id pod all) in
      elim (sum_cases (node_id api fn pod)) [
        | inl (err, failed) ↦
            rw
              (>>=-throws (get_node_id api fn pod) continue s
                (with_answer (answer ∙ ap outcome failed)))
              (tt, cached', kept)
        | inr (id, named) ↦
            let (due, cached'', kept') =
              group_onto-Grouped pods
                (if is_stale revision pod then append_pod id pod by_id else by_id)
                (append_pod id pod all) t cached' (if-IsGrouped id pod by_id grouped named here)
                rest in
            rw
              (>>=-ok (get_node_id api fn pod) continue s (with_answer (answer ∙ ap outcome named)))
              (due, cached'', kept' ∙ kept)
      ]
