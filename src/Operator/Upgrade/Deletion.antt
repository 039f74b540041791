-- ===== src/Operator/Upgrade/Deletion.antt =====
-- The deletion of the pods of one group.
use coherence_operator.Prelude.{
  ◌≡◌, refl, ap, ◌∙◌, List, [], ◌∷◌, ◌++◌, true, ◌⊎◌, inl, inr, Text, Bool-cases, Option-cases,
  if◌then◌else◌,
}
use coherence_operator.Runtime.{Result, ok, throws, pending, Run, ◌>>=◌, ◌>>◌, pure}
use coherence_operator.Runtime.Laws.{>>=-ok, >>=-throws}
use coherence_operator.Operator.Upgrade.{
  Pod, PodNodeId, NodeApi, Progress, get_node_id, is_stale, delete_answered, delete_pods, look_at,
  upgrade_pods, single_node, count, Requeue,
}
use coherence_operator.Operator.Upgrade.Groups.{
  with_answer, IsCached, get_node_id_lem, IsAll, IsDue,
}

-- The names of the deleted pods once these were deleted too.
unfoldable pub names_onto : List Pod → List Text → List Text
names_onto [] deleted = deleted
names_onto (pod ∷ pods) deleted = names_onto pods (pod.name ∷ deleted)

-- Some of the pods were deleted, from the first on.
abbrev pub DeletesFrom : List Pod → List Text → List Text → Type 0
DeletesFrom pods before after =
    (gone : List Pod) × (left : List Pod) × (gone ++ left ≡ pods) × (after ≡ names_onto gone before)

delete_pods-lem :
    (api : NodeApi) (pods : List Pod) (s : Progress)
    → DeletesFrom pods s.deleted (delete_pods api pods s).1.deleted
unfolding delete_pods delete_answered names_onto
delete_pods-lem api [] s = ([], [], refl, refl)
delete_pods-lem api (pod ∷ pods) s =
    let delete : Run Progress (Unit {0}) =
      λ s. delete_answered pod (api.delete_error s.deleted pod) s in
    elim (Option-cases (api.delete_error s.deleted pod)) [
      | inr (err, failed) ↦ (
        [],
        pod ∷ pods,
        refl,
        rw
            (>>=-throws delete (λ _. delete_pods api pods) s {v = s} {e = err}
              (rw (failed, delete_answered) refl))
            refl,
      )
      | inl fine ↦
          let (gone, left, parts, names) =
            delete_pods-lem api pods (record s { deleted = pod.name ∷ s.deleted }) in
          (
            pod ∷ gone,
            left,
            ap (λ ps. pod ∷ ps) parts,
            rw
                (>>=-ok delete (λ _. delete_pods api pods) s
                  {v = record s { deleted = pod.name ∷ s.deleted }}
                  (rw (fine, delete_answered) refl))
                names,
          )
    ]

same_end :
    {A B : Type 0}
    → (r : Result A) → (t : Progress) → (b : B)
    → (◌>>=◌ (λ (x : Progress). (r, t)) (λ a. pure b) t).1 ≡ t
same_end (ok a) t b = refl
same_end (throws err) t b = refl
same_end pending t b = refl

then_pure :
    {A B : Type 0}
    → (m : Run Progress A) → (b : B) → (s : Progress) → ((m >>= λ a. pure b) s).1 ≡ (m s).1
then_pure m b s = same_end (m s).0 (m s).1 b

look_at-lem :
    (api : NodeApi) (fn : PodNodeId) (pods : List Pod) (s : Progress)
    → IsCached api fn s
    → ((look_at api fn pods s).0 ≡ ok tt) × ((look_at api fn pods s).1.deleted ≡ s.deleted)
unfolding look_at
look_at-lem api fn [] s cached = (refl, refl)
look_at-lem api fn (pod ∷ pods) s cached =
    let (answer, cached', kept) = get_node_id_lem api fn pod s cached in (refl, kept)

-- The pod is one of these.
abbrev pub IsListed : List Pod → Pod → Type 0
IsListed pods pod = (before : List Pod) × (after : List Pod) × (before ++ (pod ∷ after) ≡ pods)

-- The pods to be upgraded together: all of them are listed and of another revision, and they are on one
-- node, or there is one pod only.
abbrev pub IsOneNode : NodeApi → PodNodeId → Text → List Pod → List Pod → Type 0
IsOneNode api fn revision pods group =
    ((id : Text) × IsAll (IsDue api fn revision (IsListed pods) id) group)
    ⊎ ((group ≡ pods) × (count pods ≡ 1) × IsAll (λ pod. is_stale revision pod ≡ true) group)

-- Nothing was deleted, or pods of one such group were that passed the probe.
abbrev pub IsSafeUpgrade : NodeApi → PodNodeId → Text → List Pod → Progress → Progress → Type 0
IsSafeUpgrade api fn revision pods s t =
    (t.deleted ≡ s.deleted)
    ⊎ ((group : List Pod) × IsOneNode api fn revision pods group
        × (api.is_safe pods group ≡ true)
        × DeletesFrom group s.deleted t.deleted)

module _ (api : NodeApi) (fn : PodNodeId) (revision : Text) (pods : List Pod) where
  pub upgrade_pods-IsSafeUpgrade :
      (group : List Pod) (s : Progress)
      → IsCached api fn s
      → IsOneNode api fn revision pods group
      → IsSafeUpgrade api fn revision pods s (upgrade_pods api fn pods group s).1
  unfolding upgrade_pods
  upgrade_pods-IsSafeUpgrade [] s cached one = inl refl
  upgrade_pods-IsSafeUpgrade (pod ∷ more) s cached one =
      let (fine, kept) = look_at-lem api fn pods s cached in
      let t : Progress = (look_at api fn pods s).1 in
      let act : Run Progress Requeue =
        if api.is_safe pods (pod ∷ more)
        then (delete_pods api (pod ∷ more) >> pure 0)
        else pure 60 in
      rw (>>=-ok (look_at api fn pods) (λ _. act) s (with_answer fine))
        (elim (Bool-cases (api.is_safe pods (pod ∷ more))) [
          | inl safe ↦
              let (gone, left, parts, names) = delete_pods-lem api (pod ∷ more) t in
              inr (
                pod ∷ more,
                one,
                safe,
                (
                  gone,
                  left,
                  parts,
                  rw safe (
                      ap (λ x. x.deleted) (then_pure (delete_pods api (pod ∷ more)) 0 t)
                      ∙ names
                      ∙ ap (names_onto gone) kept),
                ),
              )
          | inr unsafe ↦ inl (rw unsafe kept)
        ])

  pub single_node-deleted :
      (pod : Pod) (s : Progress)
      → IsCached api fn s
      → (single_node api fn pod s).1.deleted ≡ s.deleted
  unfolding single_node
  single_node-deleted pod s cached =
      let (answer, cached', kept) = get_node_id_lem api fn pod s cached in
      ap (λ x. x.deleted) (then_pure (get_node_id api fn pod) 0 s) ∙ kept
