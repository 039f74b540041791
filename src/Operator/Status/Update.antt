-- ===== src/Operator/Status/Update.antt =====
-- `ensureInitialized`, `SetCondition`, `Update` and `UpdateFromJob` of the status. `version` is the
-- version of the operator, `clock` the clock.
use coherence_operator.Prelude.{
  ℕ, ◌+◌, ◌%◌, List, [], ◌∷◌, Option, none, some, Bool, true, false, not, ◌&&◌, ◌||◌, Text, codes,
  text_eq, is_empty, ltb, ◌==◌, if◌then◌else◌,
}
use coherence_operator.Operator.Conditions.{Condition}
use coherence_operator.Operator.Status.{
  Status, Coherence, CoherenceJob, CoherenceJobProbeStatus, CoherenceResource, Progress, assign,
  enter, set_phase, set_version, lacks, status_selector, coherence_resource, job_resource,
  spec_replicas, job_replicas,
}

infixl 20 ◌▹◌
abbrev pub ◌▹◌ : {A B : Type 0} → A → (A → B) → B
x ▹ f = f x

abbrev pub started : Status → Progress
started st = record { updated = false; status = st; readings = 0 }

unfoldable pub set_hash : CoherenceResource → Progress → Progress
set_hash d =
    assign (λ st. not (text_eq st.hash d.get_status.hash))
      (λ st. record st { hash = d.get_status.hash })

unfoldable pub set_replicas : CoherenceResource → Progress → Progress
set_replicas d =
    assign (λ st. not (st.replicas == d.get_replicas))
      (λ st. record st { replicas = d.get_replicas })

unfoldable pub set_cluster : CoherenceResource → Progress → Progress
set_cluster d =
    assign (λ st. not (text_eq st.coherence_cluster d.get_coherence_cluster_name))
      (λ st. record st { coherence_cluster = d.get_coherence_cluster_name })

unfoldable pub set_selector : CoherenceResource → Progress → Progress
set_selector d =
    assign (λ st. is_empty st.selector) (λ st. record st { selector = status_selector d })

unfoldable pub set_role : CoherenceResource → Progress → Progress
set_role d =
    assign (λ st. not (text_eq st.role d.get_role_name))
      (λ st. record st { role = d.get_role_name })

unfoldable pub set_type : CoherenceResource → Progress → Progress
set_type d =
    assign (λ st. not (text_eq st.coherence_type d.get_type))
      (λ st. record st { coherence_type = d.get_type })

-- The first status update sets the Initialized condition.
unfoldable pub initialize : (ℕ → ℕ) → Progress → Progress
initialize clock = enter clock (lacks (codes "Initialized")) (codes "Initialized")

module _ (clock : ℕ → ℕ) (version : Text) where
  unfoldable pub ensure_initialized : CoherenceResource → Progress → Progress
  ensure_initialized d p =
      p
      ▹ set_hash d
      ▹ set_replicas d
      ▹ set_cluster d
      ▹ initialize clock
      ▹ set_selector d
      ▹ set_role d
      ▹ set_type d
      ▹ set_version clock version

  -- The status starts as a copy of the one of the resource.
  unfoldable pub set_status_condition : CoherenceResource → Condition → Progress
  set_status_condition d c =
      let p = ensure_initialized d (started d.get_status) in
      if not (is_empty p.status.phase) && text_eq p.status.phase c.condition_type
      then p
      else (let q = set_phase clock c.condition_type p in
          record q { updated = q.updated || p.updated })

unfoldable pub set_current : ℕ → Progress → Progress
set_current n =
    assign (λ st. not (st.current_replicas == n)) (λ st. record st { current_replicas = n })

unfoldable pub set_ready : ℕ → Progress → Progress
set_ready n = assign (λ st. not (st.ready_replicas == n)) (λ st. record st { ready_replicas = n })

unfoldable pub set_active : ℕ → Progress → Progress
set_active n = assign (λ st. not (st.active == n)) (λ st. record st { active = n })

unfoldable pub set_succeeded : ℕ → Progress → Progress
set_succeeded n = assign (λ st. not (st.succeeded == n)) (λ st. record st { succeeded = n })

unfoldable pub set_failed_count : ℕ → Progress → Progress
set_failed_count n = assign (λ st. not (st.failed == n)) (λ st. record st { failed = n })

unfoldable pub is_not : Text → Status → Bool
is_not phase st = not (text_eq st.phase phase)

-- Not `Ready` yet, with all replicas there and ready.
unfoldable pub should_be_ready : Status → Bool
should_be_ready st =
    is_not (codes "Ready") st
    && (st.replicas == st.ready_replicas && st.replicas == st.current_replicas)

-- `appsv1.StatefulSetStatus`
pub record StatefulSetStatus : Type 0 where
  pub current_replicas : ℕ
  pub ready_replicas : ℕ
  pub current_revision : Text
  pub update_revision : Text

-- `batchv1.JobStatus`
pub record JobStatus : Type 0 where
  pub active : ℕ
  pub succeeded : ℕ
  pub failed : ℕ
  pub ready : Option ℕ
  pub completion_time : Option ℕ

unfoldable pub maybe_ready : Option ℕ → Progress → Progress
maybe_ready none p = p
maybe_ready (some n) p = set_ready n p

module _ (clock : ℕ → ℕ) where
  unfoldable pub follow_revisions : StatefulSetStatus → Progress → Progress
  follow_revisions sts p =
      if text_eq sts.current_revision sts.update_revision
      then enter clock should_be_ready (codes "Ready") p
      else enter clock (is_not (codes "RollingUpgrade")) (codes "RollingUpgrade") p

  unfoldable pub follow_stateful_set : Option StatefulSetStatus → Progress → Progress
  follow_stateful_set none p = p ▹ set_current 0 ▹ set_ready 0
  follow_stateful_set (some sts) p =
      p ▹ set_current sts.current_replicas ▹ set_ready sts.ready_replicas ▹ follow_revisions sts

  unfoldable pub stop_if_zero : ℕ → Progress → Progress
  stop_if_zero replicas p =
      if replicas == 0 then enter clock (is_not (codes "Stopped")) (codes "Stopped") p else p

  unfoldable pub maybe_complete : Option ℕ → Progress → Progress
  maybe_complete none p = p
  maybe_complete (some time) p = set_phase clock (codes "Completed") p

  unfoldable pub follow_job : Option JobStatus → Progress → Progress
  follow_job none p =
      p ▹ set_current 0 ▹ set_ready 0 ▹ set_active 0 ▹ set_succeeded 0 ▹ set_failed_count 0
  follow_job (some job) p =
      p
      ▹ set_current ((job.active + job.succeeded) % 4294967296)
      ▹ maybe_ready job.ready
      ▹ enter clock should_be_ready (codes "Ready")
      ▹ maybe_complete job.completion_time
      ▹ set_active job.active
      ▹ set_succeeded job.succeeded
      ▹ set_failed_count job.failed

-- `metav1.Time.Before` on pointers.
unfoldable pub is_before : Option ℕ → Option ℕ → Bool
is_before none u = false
is_before (some t) none = false
is_before (some t) (some u) = ltb t u

-- One round of the loop over the new probe statuses: the first status of that pod is brought up to
-- date, a new one is added.
unfoldable pub note_probe :
    CoherenceJobProbeStatus → List CoherenceJobProbeStatus → Bool × List CoherenceJobProbeStatus
note_probe s [] = (true, s ∷ [])
note_probe s (ps ∷ rest) =
    let (noted, more) = note_probe s rest in
    if text_eq ps.pod s.pod
    then (if is_before ps.last_probe_time s.last_probe_time
        then (true, record s { pod = ps.pod } ∷ rest)
        else (false, ps ∷ rest))
    else (noted, ps ∷ more)

unfoldable pub note_probes : List CoherenceJobProbeStatus → Progress → Progress
note_probes [] p = p
note_probes (s ∷ more) p =
    let (noted, probes) = note_probe s p.status.job_probes in
    note_probes more
      (record p { updated = noted || p.updated; status = record p.status { job_probes = probes } })

unfoldable pub follow_probes : List CoherenceJobProbeStatus → Progress → Progress
follow_probes [] p = p
follow_probes (s ∷ more) p =
    if is_empty p.status.job_probes
    then record p { updated = true; status = record p.status { job_probes = s ∷ more } }
    else note_probes (s ∷ more) p

module _ (clock : ℕ → ℕ) (version : Text) where
  unfoldable pub update : Coherence → Option StatefulSetStatus → Status → Progress
  update deployment sts st =
      started st
      ▹ ensure_initialized clock version (coherence_resource deployment)
      ▹ follow_stateful_set clock sts
      ▹ stop_if_zero clock (spec_replicas deployment.replicas deployment.initial_replicas)

  unfoldable pub update_from_job :
      CoherenceJob → Option JobStatus → List CoherenceJobProbeStatus → Status → Progress
  update_from_job deployment job probes st =
      started st
      ▹ ensure_initialized clock version (job_resource deployment)
      ▹ follow_job clock job
      ▹ stop_if_zero clock (job_replicas deployment)
      ▹ follow_probes probes
