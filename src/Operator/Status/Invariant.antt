-- ===== src/Operator/Status/Invariant.antt =====
-- What holds of the phase and the conditions of a status goes through `Update` and `UpdateFromJob` if it
-- goes through `setPhase` and `SetVersion`.
use coherence_operator.Prelude.{
  ℕ, ◌≡◌, inl, inr, [], ◌∷◌, Option, Bool, Text, List, Bool-cases, is_empty, codes,
}
use coherence_operator.Operator.Conditions.{Conditions}
use coherence_operator.Operator.Status.{
  Status, Coherence, CoherenceJob, CoherenceJobProbeStatus, Progress, assign, enter, set_phase,
  set_version, lacks,
}
use coherence_operator.Operator.Status.Update.{
  StatefulSetStatus, JobStatus, note_probes, follow_probes, update, update_from_job, initialize,
}
use coherence_operator.Operator.Status.Follow.{
  IsAside, Follows, IsStepLaw, update-Follows, update_from_job-Follows,
}

abbrev pub Holds : (Text → Conditions → Type 0) → Progress → Type 0
Holds I p = I p.status.phase p.status.conditions

pub record IsInvariant (clock : ℕ → ℕ) (I : Text → Conditions → Type 0) : Type 0 where
  pub phase_set : (phase : Text) (p : Progress) → Holds I p → Holds I (set_phase clock phase p)
  pub versioned :
      (version : Text) (p : Progress) → Holds I p → Holds I (set_version clock version p)

abbrev Carries : (Text → Conditions → Type 0) → Progress → Progress → Type 0
Carries I p q = Holds I p → Holds I q

module _ (I : Text → Conditions → Type 0) where
  moved : (p q : Text) (c d : Conditions) → q ≡ p → d ≡ c → I p c → I q d
  moved p q c d same_phase same_conditions i = rw (same_phase, same_conditions) i

  assign-Carries :
      (differs : Status → Bool) (f : Status → Status)
      → IsAside f
      → Follows (Carries I) (assign differs f)
  unfolding assign
  assign-Carries differs f aside = record {
    follows = λ p i. elim (Bool-cases (differs p.status)) [
      | inl e ↦
          rw e
            (moved p.status.phase _ p.status.conditions _ (aside p.status).0 (aside p.status).1 i)
      | inr e ↦ rw e i
    ];
  }

  enter-Carries :
      (clock : ℕ → ℕ)
      → IsInvariant clock I
      → (guard : Status → Bool) (phase : Text) → Follows (Carries I) (enter clock guard phase)
  unfolding enter
  enter-Carries clock invariant guard phase = record {
    follows = λ p i. elim (Bool-cases (guard p.status)) [
      | inl e ↦ rw e (invariant.phase_set phase p i)
      | inr e ↦ rw e i
    ];
  }

  note_probes-Carries :
      (probes : List CoherenceJobProbeStatus) (p : Progress) → Carries I p (note_probes probes p)
  unfolding note_probes
  note_probes-Carries [] p i = i
  note_probes-Carries (s ∷ more) p i = note_probes-Carries more _ i

  follow_probes-Carries :
      (probes : List CoherenceJobProbeStatus) → Follows (Carries I) (follow_probes probes)
  unfolding follow_probes
  follow_probes-Carries [] = record { follows = λ p i. i }
  follow_probes-Carries (s ∷ more) = record {
    follows = λ p i. elim (Bool-cases (is_empty p.status.job_probes)) [
      | inl e ↦ rw e i
      | inr e ↦ rw e (note_probes-Carries (s ∷ more) p i)
    ];
  }

  initialize-Carries :
      (clock : ℕ → ℕ) → IsInvariant clock I → Follows (Carries I) (initialize clock)
  unfolding initialize
  initialize-Carries clock invariant =
      enter-Carries clock invariant (lacks (codes "Initialized")) (codes "Initialized")

module _ {clock : ℕ → ℕ} {I : Text → Conditions → Type 0} (invariant : IsInvariant clock I) where
  abbrev carrying_law : IsStepLaw clock (Carries I)
  carrying_law = record {
    idle = λ p i. i;
    chained = λ p q r pq qr i. qr (pq i);
    assigned = assign-Carries I;
    entered = λ guard phase elsewhere. enter-Carries I clock invariant guard phase;
    initialized = initialize-Carries I clock invariant;
    versioned = λ version. record { follows = invariant.versioned version };
  }

  pub update-carries :
      (version : Text) (deployment : Coherence) (sts : Option StatefulSetStatus) (st : Status)
      → I st.phase st.conditions
      → Holds I (update clock version deployment sts st)
  update-carries version deployment sts st =
      update-Follows clock (Carries I) ⦃law = carrying_law⦄ version deployment sts st

  pub update_from_job-carries :
      (version : Text) (deployment : CoherenceJob) (job : Option JobStatus)
      (probes : List CoherenceJobProbeStatus) (st : Status)
      → I st.phase st.conditions
      → Holds I (update_from_job clock version deployment job probes st)
  update_from_job-carries version deployment job probes st =
      update_from_job-Follows clock (Carries I) ⦃law = carrying_law⦄
        (record { follows = invariant.phase_set (codes "Completed") }) (follow_probes-Carries I)
        version deployment job probes st
