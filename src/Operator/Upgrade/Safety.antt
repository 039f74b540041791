-- ===== src/Operator/Upgrade/Safety.antt =====
-- What `rollingUpgrade` deletes.
use coherence_operator.Prelude.{
  ◌≡◌, refl, sym, ap, ◌∙◌, List, [], ◌∷◌, ◌++◌, true, false, ◌⊎◌, inl, inr, Text, text_eq,
  Bool-cases, append_assoc, ◌==◌,
}
use coherence_operator.Runtime.{Result, ok, throws, pending, ◌>>=◌}
use coherence_operator.Runtime.Laws.{>>=-ok, >>=-throws, >>=-pending}
use coherence_operator.Operator.Upgrade.{
  Pod, PodNodeId, Groups, NodeApi, Progress, is_stale, group_pods, upgrade_group, upgrade_listed,
  StatefulSet, is_unready, wanted, count, rolling_upgrade,
}
use coherence_operator.Operator.Upgrade.Groups.{
  sum_cases, IsCached, IsAll, IsGrouped, IsDue, AreDue, group_onto-Grouped,
}
use coherence_operator.Operator.Upgrade.Deletion.{
  names_onto, IsListed, IsOneNode, IsSafeUpgrade, upgrade_pods-IsSafeUpgrade, single_node-deleted,
}

-- The group that Go's iteration over the map meets first is one of the groups.
abbrev pub PicksOne : NodeApi → Type 0
PicksOne api =
    (group : Text × List Pod)
    → (groups : Groups)
    → (before : Groups) × (after : Groups) × (before ++ (api.first_group group groups ∷ after)
        ≡ group ∷ groups)

middle :
    (P : Text → Pod → Type 0) (before : Groups) (group : Text × List Pod) (after : Groups)
    → IsGrouped P (before ++ (group ∷ after))
    → IsAll (P group.0) group.1
unfolding IsGrouped
middle P [] (id, pods) after (here, rest) = here
middle P ((key, first) ∷ before) group after (here, rest) = middle P before group after rest

carried_over :
    {whole other : List Pod} (pods : List Pod)
    → whole ≡ other
    → IsAll (IsListed whole) pods
    → IsAll (IsListed other) pods
carried_over pods same all = rw (sym same) all

IsAll-IsListed : (before pods : List Pod) → IsAll (IsListed (before ++ pods)) pods
unfolding IsAll
IsAll-IsListed before [] = tt
IsAll-IsListed before (pod ∷ pods) = (
  (before, pods, refl),
  carried_over pods (append_assoc before (pod ∷ []) pods)
      (IsAll-IsListed (before ++ (pod ∷ [])) pods),
)

module _ (api : NodeApi) (fn : PodNodeId) (revision : Text) (picks : PicksOne api) where
  picked :
      (pods : List Pod) (group : Text × List Pod) (groups : Groups)
      → IsGrouped (IsDue api fn revision (IsListed pods)) (group ∷ groups)
      → IsOneNode api fn revision pods (api.first_group group groups).1
  picked pods group groups due =
      let (before, after, parts) = picks group groups in
      inl (
        (api.first_group group groups).0,
        middle (IsDue api fn revision (IsListed pods)) before (api.first_group group groups) after
            (rw parts due),
      )

  upgrade_group-IsSafeUpgrade :
      (pod : Pod) (pods : List Pod) (stale all : Groups) (s : Progress)
      → IsCached api fn s
      → IsGrouped (IsDue api fn revision (IsListed (pod ∷ pods))) stale
      → IsSafeUpgrade api fn revision
          (pod ∷ pods)
          s
          (upgrade_group api fn pod pods (stale, all) s).1
  unfolding upgrade_group
  upgrade_group-IsSafeUpgrade pod pods [] all s cached due = inl refl
  upgrade_group-IsSafeUpgrade pod pods (group ∷ groups) (one ∷ []) s cached due =
      inl (single_node-deleted api fn revision (pod ∷ pods) pod s cached)
  upgrade_group-IsSafeUpgrade pod pods (group ∷ groups) [] s cached due =
      upgrade_pods-IsSafeUpgrade api fn revision (pod ∷ pods) _ s cached
        (picked (pod ∷ pods) group groups due)
  upgrade_group-IsSafeUpgrade pod pods (group ∷ groups) (one ∷ (two ∷ others)) s cached due =
      upgrade_pods-IsSafeUpgrade api fn revision (pod ∷ pods) _ s cached
        (picked (pod ∷ pods) group groups due)

  later :
      (pods : List Pod) (s t u : Progress)
      → t.deleted ≡ s.deleted
      → IsSafeUpgrade api fn revision pods t u
      → IsSafeUpgrade api fn revision pods s u
  later pods s t u kept (inl same) = inl (same ∙ kept)
  later pods s t u kept (inr (group, one, safe, (gone, left, parts, names))) =
      inr (group, one, safe, (gone, left, parts, names ∙ ap (names_onto gone) kept))

  grouped :
      (pod : Pod) (pods : List Pod) (s : Progress) (r : Result (Groups × Groups)) (t : Progress)
      → group_pods api fn revision (pod ∷ pods) s ≡ (r, t)
      → AreDue api fn revision (IsListed (pod ∷ pods)) r
      → IsCached api fn t
      → t.deleted ≡ s.deleted
      → IsSafeUpgrade api fn revision
          (pod ∷ pods)
          s
          ((group_pods api fn revision (pod ∷ pods) >>= upgrade_group api fn pod pods) s).1
  grouped pod pods s (ok (stale, all)) t e due cached kept =
      rw (>>=-ok (group_pods api fn revision (pod ∷ pods)) (upgrade_group api fn pod pods) s e) (
        later (pod ∷ pods) s t (upgrade_group api fn pod pods (stale, all) t).1 kept
          (upgrade_group-IsSafeUpgrade pod pods stale all t cached due))
  grouped pod pods s (throws err) t e due cached kept =
      rw (>>=-throws (group_pods api fn revision (pod ∷ pods)) (upgrade_group api fn pod pods) s e)
        (inl kept)
  grouped pod pods s pending t e due cached kept =
      rw (>>=-pending (group_pods api fn revision (pod ∷ pods)) (upgrade_group api fn pod pods) s e)
        (inl kept)

  upgrade_listed-IsSafeUpgrade :
      (pods : List Pod) (s : Progress)
      → IsCached api fn s
      → IsSafeUpgrade api fn revision pods s (upgrade_listed api fn revision pods s).1
  unfolding upgrade_listed group_pods IsGrouped IsAll count
  upgrade_listed-IsSafeUpgrade [] s cached = inl refl
  upgrade_listed-IsSafeUpgrade (pod ∷ []) s cached = elim (Bool-cases (is_stale revision pod)) [
    | inl stale ↦ rw stale (
        upgrade_pods-IsSafeUpgrade api fn revision (pod ∷ []) (pod ∷ []) s cached
          (inr (refl, refl, (stale, tt))))
    | inr fresh ↦
        rw fresh (upgrade_pods-IsSafeUpgrade api fn revision (pod ∷ []) [] s cached (inl ([], tt)))
  ]
  upgrade_listed-IsSafeUpgrade (pod ∷ (second ∷ more)) s cached =
      let pods = pod ∷ (second ∷ more) in
      let (due, cached', kept) =
        group_onto-Grouped api fn revision (IsListed pods) pods [] [] s cached tt
          (IsAll-IsListed [] pods) in
      grouped pod (second ∷ more) s _ _ refl due cached' kept

runs :
    (api : NodeApi) (fn : PodNodeId) (sts : StatefulSet) (pods : List Pod) (s : Progress)
    → is_unready sts ≡ false
    → text_eq sts.current_revision sts.update_revision ≡ false
    → api.is_node_lookup_enabled ≡ true
    → api.get_pods ≡ inr pods
    → (count pods == wanted sts) ≡ true
    → rolling_upgrade api fn sts s ≡ upgrade_listed api fn sts.update_revision pods s
unfolding rolling_upgrade
runs api fn sts pods s ready differ on listed all = rw (ready, differ, on, listed, all) refl

-- If the cache is true to the labels of the nodes and the group that is met first is one of the groups,
-- `rollingUpgrade` deletes nothing, or the StatefulSet has all its replicas ready, the listed pods could
-- be read, and what it deletes, from the first pod on, is a group of them that passed the probe: pods
-- of another revision that are on one node, or the only pod there is.
pub rolling_upgrade-IsSafeUpgrade :
    (api : NodeApi) (fn : PodNodeId) (sts : StatefulSet) (s : Progress)
    → PicksOne api
    → IsCached api fn s
    → let end = (rolling_upgrade api fn sts s).1 in
      (end.deleted ≡ s.deleted)
      ⊎ ((pods : List Pod) × (api.get_pods ≡ inr pods)
          × (is_unready sts ≡ false)
          × IsSafeUpgrade api fn sts.update_revision pods s end)
unfolding rolling_upgrade
rolling_upgrade-IsSafeUpgrade api fn sts s picks cached = elim (Bool-cases (is_unready sts)) [
  | inl unready ↦ inl (rw (rolling_upgrade, unready) refl)
  | inr ready ↦ elim (Bool-cases (text_eq sts.current_revision sts.update_revision)) [
    | inl same ↦ inl (rw (rolling_upgrade, ready, same) refl)
    | inr differ ↦ elim (Bool-cases api.is_node_lookup_enabled) [
      | inr off ↦ inl (rw (rolling_upgrade, ready, differ, off) refl)
      | inl on ↦ elim (sum_cases api.get_pods) [
        | inl (err, failed) ↦ inl (rw (rolling_upgrade, ready, differ, on, failed) refl)
        | inr (pods, listed) ↦ elim (Bool-cases (count pods == wanted sts)) [
          | inr few ↦ inl (rw (rolling_upgrade, ready, differ, on, listed, few) refl)
          | inl all ↦ inr (
            pods,
            listed,
            ready,
            rw (runs api fn sts pods s ready differ on listed all)
                (upgrade_listed-IsSafeUpgrade api fn sts.update_revision picks pods s cached),
          )
        ]
      ]
    ]
  ]
]
