-- ===== src/Operator/Status/Table.antt =====
-- The phase that `Update` settles on.
use coherence_operator.Prelude.{
  ℕ, ◌≡◌, refl, sym, ap, ◌∙◌, inl, inr, Option, none, some, Bool, true, false, not, ◌&&◌, Text,
  Bool-cases, codes, text_eq, text_eq_sound, arith, ◌==◌, if◌then◌else◌,
}
use coherence_operator.Operator.Status.{
  Status, Coherence, Progress, CoherenceResource, assign, enter, lacks, set_version, put_condition,
  coherence_resource, spec_replicas, replicas_of,
}
use coherence_operator.Operator.Status.Update.{
  ◌▹◌, started, ensure_initialized, set_hash, set_replicas, set_cluster, set_selector, set_role,
  set_type, initialize, StatefulSetStatus, set_current, set_ready, follow_revisions,
  follow_stateful_set, stop_if_zero, should_be_ready, is_not, update,
}
use coherence_operator.Operator.Status.Phases.{set_phase-phase}

-- What the StatefulSet makes of a phase.
abbrev pub followed : ℕ → Option StatefulSetStatus → Text → Text
followed wanted none phase = phase
followed wanted (some s) phase =
    if text_eq s.current_revision s.update_revision
    then (if wanted == s.ready_replicas && wanted == s.current_replicas
        then codes "Ready"
        else phase)
    else codes "RollingUpgrade"

-- The table: the number of replicas in the specification, the number that is wanted, what the StatefulSet
-- says and the phase before.
abbrev pub phase_after : ℕ → ℕ → Option StatefulSetStatus → Text → Text
phase_after replicas wanted sts phase =
    if replicas == 0 then codes "Stopped" else followed wanted sts phase

-- What an assignment to another field leaves alone.
assign-keeps :
    {A : Type 0}
    → (view : Status → A) (differs : Status → Bool) (f : Status → Status) (p : Progress)
    → ((st : Status) → view (f st) ≡ view st)
    → view (assign differs f p).status ≡ view p.status
unfolding assign
assign-keeps view differs f p same = elim (Bool-cases (differs p.status)) [
  | inl e ↦ rw e (same p.status)
  | inr e ↦ rw e refl
]

-- What an assignment sets to a value is that value.
assign-sets :
    (view : Status → ℕ) (n : ℕ) (f : Status → Status) (p : Progress)
    → ((st : Status) → view (f st) ≡ n)
    → view (assign (λ st. not (view st == n)) f p).status ≡ n
unfolding assign
assign-sets view n f p sets = elim (Bool-cases (view p.status == n)) [
  | inl e ↦ rw e (ground (arith, e))
  | inr e ↦ rw e (sets p.status)
]

and-true : (b : Bool) → b ≡ (b && true)
and-true true = refl
and-true false = refl

same_either : (b : Bool) (t : Text) → t ≡ (if b then t else t)
same_either true t = refl
same_either false t = refl

enter-phase :
    (clock : ℕ → ℕ) (guard : Status → Bool) (phase : Text) (p : Progress)
    → text_eq p.status.phase (codes "Completed") ≡ false
    → (guard p.status ≡ true → text_eq p.status.phase phase ≡ false)
    → (enter clock guard phase p).status.phase ≡ (if guard p.status then phase else p.status.phase)
unfolding enter
enter-phase clock guard phase p going elsewhere = elim (Bool-cases (guard p.status)) [
  | inl e ↦ rw e (set_phase-phase clock phase p (elsewhere e) ∙ rw going refl)
  | inr e ↦ rw e refl
]

module _ (clock : ℕ → ℕ) (version : Text) (d : CoherenceResource) (p : Progress)
    (has : lacks (codes "Initialized") p.status ≡ false) where
  abbrev looked_up : Progress
  looked_up = p ▹ set_hash d ▹ set_replicas d ▹ set_cluster d

  looked_up-conditions : looked_up.status.conditions ≡ p.status.conditions
  unfolding set_hash set_replicas set_cluster
  looked_up-conditions =
      assign-keeps (λ st. st.conditions) _ _ _ (λ st. refl)
      ∙ assign-keeps (λ st. st.conditions) _ _ _ (λ st. refl)
      ∙ assign-keeps (λ st. st.conditions) _ _ p (λ st. refl)

  initialize-idle : initialize clock looked_up ≡ looked_up
  unfolding initialize enter lacks
  initialize-idle =
      let here : lacks (codes "Initialized") looked_up.status ≡ false =
        rw (lacks, looked_up-conditions) has in
      rw here refl

  ensure_initialized-phase : (ensure_initialized clock version d p).status.phase ≡ p.status.phase
  unfolding ensure_initialized set_hash set_replicas set_cluster set_selector set_role set_type
      set_version put_condition
  ensure_initialized-phase =
      assign-keeps (λ st. st.phase) _ _ _ (λ st. refl)
      ∙ assign-keeps (λ st. st.phase) _ _ _ (λ st. refl)
      ∙ assign-keeps (λ st. st.phase) _ _ _ (λ st. refl)
      ∙ ap (λ q. q.status.phase) initialize-idle
      ∙ assign-keeps (λ st. st.phase) _ _ _ (λ st. refl)
      ∙ assign-keeps (λ st. st.phase) _ _ _ (λ st. refl)
      ∙ assign-keeps (λ st. st.phase) _ _ p (λ st. refl)

  ensure_initialized-replicas :
      (ensure_initialized clock version d p).status.replicas ≡ d.get_replicas
  unfolding ensure_initialized set_hash set_replicas set_cluster set_selector set_role set_type
      set_version put_condition
  ensure_initialized-replicas =
      assign-keeps (λ st. st.replicas) _ _ _ (λ st. refl)
      ∙ assign-keeps (λ st. st.replicas) _ _ _ (λ st. refl)
      ∙ assign-keeps (λ st. st.replicas) _ _ _ (λ st. refl)
      ∙ ap (λ q. q.status.replicas) initialize-idle
      ∙ assign-keeps (λ st. st.replicas) _ _ _ (λ st. refl)
      ∙ assign-sets (λ st. st.replicas) d.get_replicas _ _ (λ st. refl)

module _ (clock : ℕ → ℕ) (p : Progress)
    (going : text_eq p.status.phase (codes "Completed") ≡ false) where
  -- A phase that is entered where something holds, unless it is the present one.
  reached :
      (guard : Status → Bool) (phase : Text) (b : Bool)
      → guard p.status ≡ (not (text_eq p.status.phase phase) && b)
      → (enter clock guard phase p).status.phase ≡ (if b then phase else p.status.phase)
  reached guard phase b e =
      enter-phase clock guard phase p going (λ on. ground (arith, e, on))
      ∙ elim (Bool-cases (text_eq p.status.phase phase)) [
        | inl here ↦ rw (e, here, text_eq_sound p.status.phase phase here) (same_either b phase)
        | inr other ↦ rw (e, other) refl
      ]

  ready_phase :
      (s : StatefulSetStatus)
      → p.status.current_replicas ≡ s.current_replicas
      → p.status.ready_replicas ≡ s.ready_replicas
      → (follow_revisions clock s p).status.phase ≡ (
          if text_eq s.current_revision s.update_revision
          then (if p.status.replicas == s.ready_replicas && p.status.replicas == s.current_replicas
              then codes "Ready"
              else p.status.phase)
          else codes "RollingUpgrade")
  unfolding follow_revisions should_be_ready is_not
  ready_phase s current ready = elim (Bool-cases (text_eq s.current_revision s.update_revision)) [
    | inl e ↦ rw e (
        reached should_be_ready (codes "Ready")
          (p.status.replicas == s.ready_replicas && p.status.replicas == s.current_replicas)
          (rw (sym current, sym ready) refl))
    | inr e ↦ rw e (
        reached (is_not (codes "RollingUpgrade")) (codes "RollingUpgrade") true
          (and-true (not (text_eq p.status.phase (codes "RollingUpgrade")))))
  ]

  stopped_phase :
      (replicas : ℕ)
      → (stop_if_zero clock replicas p).status.phase
        ≡ (if replicas == 0 then codes "Stopped" else p.status.phase)
  unfolding stop_if_zero is_not
  stopped_phase replicas = elim (Bool-cases (replicas == 0)) [
    | inl e ↦ rw e (
        reached (is_not (codes "Stopped")) (codes "Stopped") true
          (and-true (not (text_eq p.status.phase (codes "Stopped")))))
    | inr e ↦ rw e refl
  ]

followed-going :
    (wanted : ℕ) (sts : Option StatefulSetStatus) (phase : Text)
    → text_eq phase (codes "Completed") ≡ false
    → text_eq (followed wanted sts phase) (codes "Completed") ≡ false
unfolding text_eq
followed-going wanted none phase going = going
followed-going wanted (some s) phase going =
    elim (Bool-cases (text_eq s.current_revision s.update_revision)) [
      | inl e ↦ elim (Bool-cases (wanted == s.ready_replicas && wanted == s.current_replicas)) [
        | inl all ↦ rw (e, all) refl
        | inr few ↦ rw (e, few) going
      ]
      | inr e ↦ rw e refl
    ]

follow_stateful_set-phase :
    (clock : ℕ → ℕ) (sts : Option StatefulSetStatus) (p : Progress)
    → text_eq p.status.phase (codes "Completed") ≡ false
    → (follow_stateful_set clock sts p).status.phase ≡ followed p.status.replicas sts p.status.phase
unfolding follow_stateful_set set_current set_ready
follow_stateful_set-phase clock none p going =
    assign-keeps (λ st. st.phase) _ _ _ (λ st. refl)
    ∙ assign-keeps (λ st. st.phase) _ _ p (λ st. refl)
follow_stateful_set-phase clock (some s) p going =
    let q : Progress = set_current s.current_replicas p in
    let r : Progress = set_ready s.ready_replicas q in
    let phase : r.status.phase ≡ p.status.phase =
      assign-keeps (λ st. st.phase) _ _ q (λ st. refl)
      ∙ assign-keeps (λ st. st.phase) _ _ p (λ st. refl) in
    let replicas : r.status.replicas ≡ p.status.replicas =
      assign-keeps (λ st. st.replicas) _ _ q (λ st. refl)
      ∙ assign-keeps (λ st. st.replicas) _ _ p (λ st. refl) in
    let current : r.status.current_replicas ≡ s.current_replicas =
      assign-keeps (λ st. st.current_replicas) _ _ q (λ st. refl)
      ∙ assign-sets (λ st. st.current_replicas) s.current_replicas _ p (λ st. refl) in
    let ready : r.status.ready_replicas ≡ s.ready_replicas =
      assign-sets (λ st. st.ready_replicas) s.ready_replicas _ q (λ st. refl) in
    ready_phase clock r (rw phase going) s current ready ∙ rw (phase, replicas) refl

-- For a status that has the condition Initialized and is not complete, the phase behind `Update` is
-- Stopped if the specification asks for no replicas; else, without a StatefulSet, the phase before;
-- else RollingUpgrade if the StatefulSet has two revisions; else Ready if as many replicas as are
-- wanted are there and ready; else the phase before.
pub update-phase :
    (clock : ℕ → ℕ) (version : Text) (deployment : Coherence) (sts : Option StatefulSetStatus)
    (st : Status)
    → lacks (codes "Initialized") st ≡ false
    → text_eq st.phase (codes "Completed") ≡ false
    → (update clock version deployment sts st).status.phase
      ≡ phase_after
          (spec_replicas deployment.replicas deployment.initial_replicas)
          (replicas_of deployment)
          sts
          st.phase
unfolding update coherence_resource
update-phase clock version deployment sts st has going =
    let d : CoherenceResource = coherence_resource deployment in
    let q : Progress = ensure_initialized clock version d (started st) in
    let phase : q.status.phase ≡ st.phase =
      ensure_initialized-phase clock version d (started st) has in
    let replicas : q.status.replicas ≡ replicas_of deployment =
      ensure_initialized-replicas clock version d (started st) has in
    let r : Progress = follow_stateful_set clock sts q in
    let follows : r.status.phase ≡ followed (replicas_of deployment) sts st.phase =
      follow_stateful_set-phase clock sts q (rw phase going) ∙ rw (phase, replicas) refl in
    stopped_phase clock r (rw follows (followed-going (replicas_of deployment) sts st.phase going))
      _
    ∙ rw follows refl
