-- ===== src/Operator/Status/Follow.antt =====
-- The steps of `Update` and `UpdateFromJob`: a law that each kind of assignment follows holds of the whole
-- update.
use coherence_operator.Prelude.{
  ℕ, ◌≡◌, refl, Option, none, some, Bool, true, false, Text, List, if◌then◌else◌, codes, text_eq,
  ◌==◌, arith, ◌+◌, ◌%◌,
}
use coherence_operator.Operator.Status.{
  Status, Coherence, CoherenceJob, CoherenceJobProbeStatus, CoherenceResource, Progress, assign,
  enter, set_phase, set_version, coherence_resource, job_resource, spec_replicas, job_replicas,
}
use coherence_operator.Operator.Status.Update.{
  started, ensure_initialized, StatefulSetStatus, JobStatus, follow_revisions, follow_stateful_set,
  stop_if_zero, maybe_ready, maybe_complete, follow_job, follow_probes, update, update_from_job,
  should_be_ready, is_not, set_hash, set_replicas, set_cluster, set_selector, set_role, set_type,
  initialize, set_current, set_ready, set_active, set_succeeded, set_failed_count,
}

-- The guard is true only of statuses in another phase.
abbrev pub IsElsewhere : (Status → Bool) → Text → Type 0
IsElsewhere guard phase = (st : Status) → guard st ≡ true → text_eq st.phase phase ≡ false

-- An assignment to another field than the phase and the conditions.
abbrev pub IsAside : (Status → Status) → Type 0
IsAside f = (st : Status) → ((f st).phase ≡ st.phase) × ((f st).conditions ≡ st.conditions)

pub record Follows (R : Progress → Progress → Type 0) (f : Progress → Progress) : Type 0 where
  pub follows : (p : Progress) → R p (f p)

pub record IsStepLaw (clock : ℕ → ℕ) (R : Progress → Progress → Type 0) : Type 0 where
  pub idle : (p : Progress) → R p p
  pub chained : (p q r : Progress) → R p q → R q r → R p r
  pub assigned :
      (differs : Status → Bool) (f : Status → Status) → IsAside f → Follows R (assign differs f)
  pub entered :
      (guard : Status → Bool) (phase : Text)
      → IsElsewhere guard phase
      → Follows R (enter clock guard phase)
  pub initialized : Follows R (initialize clock)
  pub versioned : (version : Text) → Follows R (set_version clock version)

is_not-IsElsewhere : (phase : Text) → IsElsewhere (is_not phase) phase
unfolding is_not
is_not-IsElsewhere phase st e = ground arith

should_be_ready-IsElsewhere : IsElsewhere should_be_ready (codes "Ready")
unfolding should_be_ready is_not
should_be_ready-IsElsewhere st e = ground arith

module _ (clock : ℕ → ℕ) (R : Progress → Progress → Type 0) ⦃law : IsStepLaw clock R⦄ where
  then-Follows : (f g : Progress → Progress) → Follows R f → Follows R g → Follows R (λ p. g (f p))
  then-Follows f g f-Follows g-Follows = record {
    follows = λ p. law.chained p (f p) (g (f p)) (f-Follows.follows p) (g-Follows.follows (f p));
  }

  if-Follows :
      (b : Bool) (f g : Progress → Progress)
      → Follows R f
      → Follows R g
      → Follows R (λ p. if b then f p else g p)
  if-Follows true f g hf hg = hf
  if-Follows false f g hf hg = hg

  set_hash-Follows : (d : CoherenceResource) → Follows R (set_hash d)
  unfolding set_hash
  set_hash-Follows d = law.assigned _ _ λ st. (refl, refl)

  set_replicas-Follows : (d : CoherenceResource) → Follows R (set_replicas d)
  unfolding set_replicas
  set_replicas-Follows d = law.assigned _ _ λ st. (refl, refl)

  set_cluster-Follows : (d : CoherenceResource) → Follows R (set_cluster d)
  unfolding set_cluster
  set_cluster-Follows d = law.assigned _ _ λ st. (refl, refl)

  set_selector-Follows : (d : CoherenceResource) → Follows R (set_selector d)
  unfolding set_selector
  set_selector-Follows d = law.assigned _ _ λ st. (refl, refl)

  set_role-Follows : (d : CoherenceResource) → Follows R (set_role d)
  unfolding set_role
  set_role-Follows d = law.assigned _ _ λ st. (refl, refl)

  set_type-Follows : (d : CoherenceResource) → Follows R (set_type d)
  unfolding set_type
  set_type-Follows d = law.assigned _ _ λ st. (refl, refl)

  set_current-Follows : (n : ℕ) → Follows R (set_current n)
  unfolding set_current
  set_current-Follows n = law.assigned _ _ λ st. (refl, refl)

  set_ready-Follows : (n : ℕ) → Follows R (set_ready n)
  unfolding set_ready
  set_ready-Follows n = law.assigned _ _ λ st. (refl, refl)

  set_active-Follows : (n : ℕ) → Follows R (set_active n)
  unfolding set_active
  set_active-Follows n = law.assigned _ _ λ st. (refl, refl)

  set_succeeded-Follows : (n : ℕ) → Follows R (set_succeeded n)
  unfolding set_succeeded
  set_succeeded-Follows n = law.assigned _ _ λ st. (refl, refl)

  set_failed_count-Follows : (n : ℕ) → Follows R (set_failed_count n)
  unfolding set_failed_count
  set_failed_count-Follows n = law.assigned _ _ λ st. (refl, refl)

  ensure_initialized-Follows :
      (version : Text) (d : CoherenceResource) → Follows R (ensure_initialized clock version d)
  unfolding ensure_initialized
  ensure_initialized-Follows version d =
      then-Follows _ (set_version clock version)
        (then-Follows _ (set_type d)
          (then-Follows _ (set_role d)
            (then-Follows _ (set_selector d)
              (then-Follows _ (initialize clock)
                (then-Follows _ (set_cluster d)
                  (then-Follows (set_hash d) (set_replicas d) (set_hash-Follows d)
                    (set_replicas-Follows d))
                  (set_cluster-Follows d))
                law.initialized)
              (set_selector-Follows d))
            (set_role-Follows d))
          (set_type-Follows d))
        (law.versioned version)

  follow_revisions-Follows : (sts : StatefulSetStatus) → Follows R (follow_revisions clock sts)
  unfolding follow_revisions
  follow_revisions-Follows sts =
      if-Follows (text_eq sts.current_revision sts.update_revision)
        (enter clock should_be_ready (codes "Ready"))
        (enter clock (is_not (codes "RollingUpgrade")) (codes "RollingUpgrade"))
        (law.entered should_be_ready (codes "Ready") should_be_ready-IsElsewhere)
        (law.entered (is_not (codes "RollingUpgrade")) (codes "RollingUpgrade")
          (is_not-IsElsewhere (codes "RollingUpgrade")))

  follow_stateful_set-Follows :
      (sts : Option StatefulSetStatus) → Follows R (follow_stateful_set clock sts)
  unfolding follow_stateful_set
  follow_stateful_set-Follows none =
      then-Follows (set_current 0) (set_ready 0) (set_current-Follows 0) (set_ready-Follows 0)
  follow_stateful_set-Follows (some sts) =
      then-Follows _ (follow_revisions clock sts)
        (then-Follows (set_current sts.current_replicas) (set_ready sts.ready_replicas)
          (set_current-Follows sts.current_replicas) (set_ready-Follows sts.ready_replicas))
        (follow_revisions-Follows sts)

  stop_if_zero-Follows : (replicas : ℕ) → Follows R (stop_if_zero clock replicas)
  unfolding stop_if_zero
  stop_if_zero-Follows replicas =
      if-Follows (replicas == 0) (enter clock (is_not (codes "Stopped")) (codes "Stopped")) (λ p. p)
        (law.entered (is_not (codes "Stopped")) (codes "Stopped")
          (is_not-IsElsewhere (codes "Stopped")))
        (record { follows = law.idle })

  -- `Update` follows the law.
  pub update-Follows :
      (version : Text) (deployment : Coherence) (sts : Option StatefulSetStatus) (st : Status)
      → R (started st) (update clock version deployment sts st)
  unfolding update
  update-Follows version deployment sts st =
      (then-Follows _
          (stop_if_zero clock (spec_replicas deployment.replicas deployment.initial_replicas))
          (then-Follows (ensure_initialized clock version (coherence_resource deployment))
            (follow_stateful_set clock sts)
            (ensure_initialized-Follows version (coherence_resource deployment))
            (follow_stateful_set-Follows sts))
          (stop_if_zero-Follows
            (spec_replicas deployment.replicas deployment.initial_replicas))).follows
        (started st)

  -- The completion of a job and the statuses of its probes.
  module _ (completed : Follows R (set_phase clock (codes "Completed")))
      (probed : (probes : List CoherenceJobProbeStatus) → Follows R (follow_probes probes)) where
    maybe_ready-Follows : (n : Option ℕ) → Follows R (maybe_ready n)
    unfolding maybe_ready
    maybe_ready-Follows none = record { follows = law.idle }
    maybe_ready-Follows (some n) = set_ready-Follows n

    maybe_complete-Follows : (time : Option ℕ) → Follows R (maybe_complete clock time)
    unfolding maybe_complete
    maybe_complete-Follows none = record { follows = law.idle }
    maybe_complete-Follows (some time) = completed

    follow_job-Follows : (job : Option JobStatus) → Follows R (follow_job clock job)
    unfolding follow_job
    follow_job-Follows none =
        then-Follows _ (set_failed_count 0)
          (then-Follows _ (set_succeeded 0)
            (then-Follows _ (set_active 0)
              (then-Follows (set_current 0) (set_ready 0) (set_current-Follows 0)
                (set_ready-Follows 0))
              (set_active-Follows 0))
            (set_succeeded-Follows 0))
          (set_failed_count-Follows 0)
    follow_job-Follows (some job) =
        then-Follows _ (set_failed_count job.failed)
          (then-Follows _ (set_succeeded job.succeeded)
            (then-Follows _ (set_active job.active)
              (then-Follows _ (maybe_complete clock job.completion_time)
                (then-Follows _ (enter clock should_be_ready (codes "Ready"))
                  (then-Follows (set_current ((job.active + job.succeeded) % 4294967296))
                    (maybe_ready job.ready)
                    (set_current-Follows ((job.active + job.succeeded) % 4294967296))
                    (maybe_ready-Follows job.ready))
                  (law.entered should_be_ready (codes "Ready") should_be_ready-IsElsewhere))
                (maybe_complete-Follows job.completion_time))
              (set_active-Follows job.active))
            (set_succeeded-Follows job.succeeded))
          (set_failed_count-Follows job.failed)

    -- `UpdateFromJob` follows the law.
    pub update_from_job-Follows :
        (version : Text) (deployment : CoherenceJob) (job : Option JobStatus)
        (probes : List CoherenceJobProbeStatus) (st : Status)
        → R (started st) (update_from_job clock version deployment job probes st)
    unfolding update_from_job
    update_from_job-Follows version deployment job probes st =
        (then-Follows _ (follow_probes probes)
            (then-Follows _ (stop_if_zero clock (job_replicas deployment))
              (then-Follows (ensure_initialized clock version (job_resource deployment))
                (follow_job clock job)
                (ensure_initialized-Follows version (job_resource deployment))
                (follow_job-Follows job))
              (stop_if_zero-Follows (job_replicas deployment)))
            (probed probes)).follows
          (started st)
