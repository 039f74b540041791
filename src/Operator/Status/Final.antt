-- ===== src/Operator/Status/Final.antt =====
-- Invariants of the status under `Update` and `UpdateFromJob`.
use coherence_operator.Prelude.{ℕ, ◌≡◌, inl, inr, Option, Text, List, Bool-cases, codes, text_eq}
use coherence_operator.Operator.Conditions.{Conditions}
use coherence_operator.Operator.Conditions.Unique.{IsUnique, set_condition-IsUnique}
use coherence_operator.Operator.Status.{
  Status, Coherence, CoherenceJob, CoherenceJobProbeStatus, Progress, set_phase, set_version,
  put_condition, leave, is_left,
}
use coherence_operator.Operator.Status.Update.{
  StatefulSetStatus, JobStatus, update, update_from_job,
}
use coherence_operator.Operator.Status.Phases.{set_phase-conditions}
use coherence_operator.Operator.Status.Invariant.{
  IsInvariant, update-carries, update_from_job-carries,
}
use coherence_operator.Operator.Status.Exclusive.{Exclusive, final_invariant, phases_invariant}

-- The types of the conditions are unique.
abbrev Unique : Text → Conditions → Type 0
Unique phase conditions = IsUnique conditions

leave-IsUnique :
    (clock : ℕ → ℕ) (p : Progress)
    → IsUnique p.status.conditions
    → IsUnique (leave clock p).status.conditions
unfolding leave put_condition
leave-IsUnique clock p i = elim (Bool-cases (is_left p.status.phase)) [
  | inl e ↦ rw e (set_condition-IsUnique (clock p.readings) _ p.status.conditions i)
  | inr e ↦ rw e i
]

set_phase-IsUnique :
    (clock : ℕ → ℕ) (phase : Text) (p : Progress)
    → IsUnique p.status.conditions
    → IsUnique (set_phase clock phase p).status.conditions
unfolding set_phase
set_phase-IsUnique clock phase p i = elim (Bool-cases (text_eq p.status.phase phase)) [
  | inl e ↦ rw e i
  | inr e ↦
      rw (set_phase-conditions clock phase p e)
        (set_condition-IsUnique _ _ _ (leave-IsUnique clock p i))
]

set_version-IsUnique :
    (clock : ℕ → ℕ) (version : Text) (p : Progress)
    → IsUnique p.status.conditions
    → IsUnique (set_version clock version p).status.conditions
unfolding set_version put_condition
set_version-IsUnique clock version p i =
    set_condition-IsUnique (clock p.readings) _ p.status.conditions i

types_invariant : (clock : ℕ → ℕ) → IsInvariant clock Unique
types_invariant clock = record {
  phase_set = set_phase-IsUnique clock;
  versioned = set_version-IsUnique clock;
}

module _ (clock : ℕ → ℕ) (version : Text) (st : Status) where
  -- The types of the conditions stay unique under `Update` and under `UpdateFromJob`.
  pub update-IsUnique :
      IsUnique st.conditions
      → ((deployment : Coherence) (sts : Option StatefulSetStatus)
          → IsUnique (update clock version deployment sts st).status.conditions)
        × ((deployment : CoherenceJob) (job : Option JobStatus)
              (probes : List CoherenceJobProbeStatus)
            → IsUnique (update_from_job clock version deployment job probes st).status.conditions)
  update-IsUnique unique = (
    λ deployment sts. update-carries (types_invariant clock) version deployment sts st unique,
    λ deployment job probes.
        update_from_job-carries (types_invariant clock) version deployment job probes st unique,
  )

  -- A status that is complete stays in the phase Completed, whatever `Update` or `UpdateFromJob` is told.
  pub update-completed :
      st.phase ≡ codes "Completed"
      → ((deployment : Coherence) (sts : Option StatefulSetStatus)
          → (update clock version deployment sts st).status.phase ≡ codes "Completed")
        × ((deployment : CoherenceJob) (job : Option JobStatus)
              (probes : List CoherenceJobProbeStatus)
            → (update_from_job clock version deployment job probes st).status.phase
              ≡ codes "Completed")
  update-completed done = (
    λ deployment sts. update-carries (final_invariant clock) version deployment sts st done,
    λ deployment job probes.
        update_from_job-carries (final_invariant clock) version deployment job probes st done,
  )

  -- If a status is complete, or none of Ready, Scaling, RollingUpgrade, Waiting and Stopped is true but
  -- the one that is its phase, the same holds behind `Update` and behind `UpdateFromJob`.
  pub update-Exclusive :
      Exclusive st.phase st.conditions
      → ((deployment : Coherence) (sts : Option StatefulSetStatus)
          → let after = (update clock version deployment sts st).status in
            Exclusive after.phase after.conditions)
        × ((deployment : CoherenceJob) (job : Option JobStatus)
              (probes : List CoherenceJobProbeStatus)
            → let after = (update_from_job clock version deployment job probes st).status in
              Exclusive after.phase after.conditions)
  update-Exclusive exclusive = (
    λ deployment sts. update-carries (phases_invariant clock) version deployment sts st exclusive,
    λ deployment job probes.
        update_from_job-carries (phases_invariant clock) version deployment job probes st exclusive,
  )
