-- ===== src/Operator/Upgrade/Reference.antt =====
-- `groupPods` as two filters of the list of the pods.
use coherence_operator.Prelude.{
  ◌≡◌, ◌≢◌, refl, sym, ap, ◌∙◌, List, [], ◌∷◌, ◌++◌, Bool, true, false, ◌&&◌, inl, inr, Text,
  text_eq, text_eq_sound, Bool-cases, if◌then◌else◌, append_assoc, append-nil,
}
use coherence_operator.Runtime.{ok, Run}
use coherence_operator.Runtime.Laws.{>>=-ok}
use coherence_operator.Operator.Upgrade.{
  Pod, PodNodeId, Groups, NodeApi, Progress, get_node_id, append_pod, is_stale, group_onto,
  group_pods,
}
use coherence_operator.Operator.Upgrade.Groups.{with_answer, node_id, IsCached, get_node_id_lem}

-- The pods of a group, none for an identifier that is not there.
unfoldable pub find_group : Text → Groups → List Pod
find_group id [] = []
find_group id ((key, pods) ∷ groups) = if text_eq key id then pods else find_group id groups

-- The pods that pass a test, in their order.
unfoldable pub chosen : (Pod → Bool) → List Pod → List Pod
chosen test [] = []
chosen test (pod ∷ pods) = let rest = chosen test pods in if test pod then pod ∷ rest else rest

abbrev one_if : Bool → Pod → List Pod
one_if b pod = if b then pod ∷ [] else []

one_if-append :
    (b : Bool) (pod : Pod) (pods : List Pod)
    → (one_if b pod ++ pods) ≡ (if b then pod ∷ pods else pods)
one_if-append true pod pods = refl
one_if-append false pod pods = refl

true-false : true ≢ false
true-false = λ e. cc

find_group-append_pod :
    (id key : Text) (pod : Pod) (groups : Groups)
    → find_group id (append_pod key pod groups)
      ≡ find_group id groups ++ one_if (text_eq key id) pod
unfolding find_group append_pod
find_group-append_pod id key pod [] = refl
find_group-append_pod id key pod ((k, pods) ∷ groups) = elim (Bool-cases (text_eq k key)) [
  | inl same ↦
      rw (same, sym (text_eq_sound k key same))
        (elim (Bool-cases (text_eq k id)) [
          | inl here ↦ rw here refl
          | inr away ↦ rw away (sym (append-nil (find_group id groups)))
        ])
  | inr other ↦ rw other (elim (Bool-cases (text_eq k id)) [
    | inl here ↦ elim (Bool-cases (text_eq key id)) [
      | inl both ↦ absurd (true-false (sym (rw (text_eq_sound key id both) here) ∙ other))
      | inr away ↦ rw (here, away) (sym (append-nil pods))
    ]
    | inr away ↦ rw away (find_group-append_pod id key pod groups)
  ])
]

find_group-if :
    (b : Bool) (id key : Text) (pod : Pod) (groups : Groups)
    → find_group id (if b then append_pod key pod groups else groups)
      ≡ find_group id groups ++ one_if (b && text_eq key id) pod
find_group-if true id key pod groups = find_group-append_pod id key pod groups
find_group-if false id key pod groups = sym (append-nil (find_group id groups))

-- One more pod at the end of what was found is one more pod at the front of the rest.
found_then :
    (before found rest : List Pod) (b : Bool) (pod : Pod)
    → found ≡ before ++ one_if b pod
    → (found ++ rest) ≡ before ++ (if b then pod ∷ rest else rest)
found_then before found rest b pod e =
    ap (λ x. x ++ rest) e
    ∙ append_assoc before (one_if b pod) rest
    ∙ ap (λ x. before ++ x) (one_if-append b pod rest)

module _ (api : NodeApi) (fn : PodNodeId) (revision : Text) (id_of : Pod → Text)
    (named : (pod : Pod) → node_id api fn pod ≡ inr (id_of pod)) where
  -- The pods of one node, and those of them that are to be upgraded.
  abbrev pub on_node : Text → Pod → Bool
  on_node id pod = text_eq (id_of pod) id

  abbrev pub due_on_node : Text → Pod → Bool
  due_on_node id pod = is_stale revision pod && text_eq (id_of pod) id

  abbrev IsFiltered : List Pod → Groups → Groups → Groups → Groups → Type 0
  IsFiltered pods by_id all by_id' all' =
      (id : Text)
      → (find_group id by_id' ≡ find_group id by_id ++ chosen (due_on_node id) pods)
        × (find_group id all' ≡ find_group id all ++ chosen (on_node id) pods)

  group_onto-IsFiltered :
      (pods : List Pod) (by_id all : Groups) (s : Progress)
      → IsCached api fn s
      → (by_id' : Groups) × (all' : Groups) × (t : Progress) × (group_onto api fn revision pods
            by_id all s
          ≡ (ok (by_id', all'), t))
        × IsFiltered pods by_id all by_id' all'
  unfolding group_onto chosen
  group_onto-IsFiltered [] by_id all s cached = (
    by_id,
    all,
    s,
    refl,
    λ id. (sym (append-nil (find_group id by_id)), sym (append-nil (find_group id all))),
  )
  group_onto-IsFiltered (pod ∷ pods) by_id all s cached =
      let (answer, cached', kept) = get_node_id_lem api fn pod s cached in
      let key = id_of pod in
      let known : (get_node_id api fn pod s).0 ≡ ok key = answer ∙ rw (named pod) refl in
      let more = if is_stale revision pod then append_pod key pod by_id else by_id in
      let continue : Text → Run Progress (Groups × Groups) = λ id.
        group_onto api fn revision pods
          (if is_stale revision pod then append_pod id pod by_id else by_id)
          (append_pod id pod all) in
      let (by_id', all', t, ends, filtered) =
        group_onto-IsFiltered pods more (append_pod key pod all) (get_node_id api fn pod s).1
          cached' in
      (
        by_id',
        all',
        t,
        >>=-ok (get_node_id api fn pod) continue s (with_answer known) ∙ ends,
        λ id. (
          (filtered id).0
              ∙ found_then (find_group id by_id) (find_group id more) (chosen (due_on_node id) pods)
                  (due_on_node id pod) pod (find_group-if (is_stale revision pod) id key pod by_id),
          (filtered id).1
              ∙ found_then (find_group id all) (find_group id (append_pod key pod all))
                  (chosen (on_node id) pods) (on_node id pod) pod
                  (find_group-append_pod id key pod all),
        ),
      )

  -- If the node of every pod is known and the cache is true to the labels of the nodes, `groupPods`
  -- returns two maps: the first has under each identifier the pods of another revision on that node, the
  -- second all pods on that node, both in the order of the list.
  pub group_pods-chosen :
      (pods : List Pod) (s : Progress)
      → IsCached api fn s
      → (stale : Groups) × (all : Groups) × (t : Progress) × (group_pods api fn revision pods s
          ≡ (ok (stale, all), t))
        × ((id : Text)
            → (find_group id stale ≡ chosen (due_on_node id) pods)
              × (find_group id all ≡ chosen (on_node id) pods))
  unfolding group_pods find_group
  group_pods-chosen pods s cached = group_onto-IsFiltered pods [] [] s cached
