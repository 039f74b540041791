-- ===== src/Operator/Status/Tests.antt =====
-- The theorems about the status, applied.
use coherence_operator.Prelude.{
  Bool-cases, sym, ◌∙◌, text_eq_sound, ℕ, ◌+◌, ◌≡◌, ◌≢◌, refl, [], ◌∷◌, Option, none, some, true,
  false, codes, text_eq, Text, inl, inr, List,
}
use coherence_operator.Operator.Conditions.{Conditions, get_condition}
use coherence_operator.Operator.Conditions.Unique.{IsUnique}
use coherence_operator.Operator.Status.{
  Status, Coherence, CoherenceJob, CoherenceJobProbeStatus, condition_of, lacks, is_left,
  coherence_resource, spec_replicas, replicas_of,
}
use coherence_operator.Operator.Status.Update.{
  StatefulSetStatus, JobStatus, started, ensure_initialized, update, update_from_job,
}
use coherence_operator.Operator.Status.Honest.{IsInitialized, update-unchanged}
use coherence_operator.Operator.Status.Exclusive.{Exclusive}
use coherence_operator.Operator.Status.Final.{update-IsUnique, update-completed, update-Exclusive}
use coherence_operator.Operator.Status.Lost.{ensure_initialized-Uninitialized}
use coherence_operator.Operator.Status.Table.{update-phase}

abbrev clock : ℕ → ℕ
clock reading = 100 + reading

abbrev version : Text
version = codes "3.5.0"

abbrev status_in : Text → Conditions → Status
status_in phase conditions = record {
  phase = phase;
  coherence_cluster = codes "storage";
  coherence_type = codes "StatefulSet";
  replicas = 3;
  current_replicas = 3;
  ready_replicas = 2;
  active = 0;
  succeeded = 0;
  failed = 0;
  role = codes "storage";
  selector = codes "coherenceCluster=storage,coherenceDeployment=storage";
  conditions = conditions;
  hash = codes "a1";
  actions_executed = false;
  job_probes = [];
}

abbrev created : Status
created = status_in (codes "Created") (condition_of (codes "Initialized") (codes "True") [] ∷ [])

abbrev storage : Status → Coherence
storage st = record {
  name = codes "storage";
  cluster = none;
  role = [];
  replicas = some 3;
  initial_replicas = none;
  status = st;
}

abbrev members_ready : StatefulSetStatus
members_ready = record {
  current_replicas = 3;
  ready_replicas = 3;
  current_revision = codes "r1";
  update_revision = codes "r1";
}

update-phase_example :
    (update clock version (storage created) (some members_ready) created).status.phase
    ≡ codes "Ready"
unfolding text_eq spec_replicas replicas_of lacks get_condition condition_of
update-phase_example =
    update-phase clock version (storage created) (some members_ready) created refl refl

created-IsUnique : IsUnique created.conditions
unfolding IsUnique get_condition
created-IsUnique = (refl, tt)

update-IsUnique_example :
    ((deployment : Coherence) (sts : Option StatefulSetStatus)
      → IsUnique (update clock version deployment sts created).status.conditions)
    × ((deployment : CoherenceJob) (job : Option JobStatus) (probes : List CoherenceJobProbeStatus)
        → IsUnique (update_from_job clock version deployment job probes created).status.conditions)
update-IsUnique_example = update-IsUnique clock version created created-IsUnique

abbrev completed : Status
completed = status_in (codes "Completed") (
    condition_of (codes "Initialized") (codes "True") []
    ∷ condition_of (codes "Completed") (codes "True") []
    ∷ condition_of (codes "Versioned") (codes "True") version
    ∷ [])

update-completed_example :
    ((deployment : Coherence) (sts : Option StatefulSetStatus)
      → (update clock version deployment sts completed).status.phase ≡ codes "Completed")
    × ((deployment : CoherenceJob) (job : Option JobStatus) (probes : List CoherenceJobProbeStatus)
        → (update_from_job clock version deployment job probes completed).status.phase
          ≡ codes "Completed")
update-completed_example = update-completed clock version completed refl

impossible : false ≢ true
impossible = λ e. cc

nothing : {A : Type 0} → {a : A} → none ≢ some a
nothing = λ e. cc

created-none :
    (t : Text) → text_eq (codes "Initialized") t ≡ false → get_condition t created.conditions ≡ none
unfolding get_condition condition_of
created-none t away = rw away refl

not_left : is_left (codes "Initialized") ≡ false
unfolding is_left text_eq
not_left = refl

-- In the phase Created no phase is true that is left.
created-Exclusive : Exclusive created.phase created.conditions
created-Exclusive = inr λ t c left there on. elim (Bool-cases (text_eq (codes "Initialized") t)) [
  | inl here ↦
      absurd (impossible (sym not_left ∙ rw (text_eq_sound (codes "Initialized") t here) left))
  | inr away ↦ absurd (nothing (sym (created-none t away) ∙ there))
]

update-Exclusive_example :
    ((deployment : Coherence) (sts : Option StatefulSetStatus)
      → let after = (update clock version deployment sts created).status in
        Exclusive after.phase after.conditions)
    × ((deployment : CoherenceJob) (job : Option JobStatus) (probes : List CoherenceJobProbeStatus)
        → let after = (update_from_job clock version deployment job probes created).status in
          Exclusive after.phase after.conditions)
update-Exclusive_example = update-Exclusive clock version created created-Exclusive

created-IsInitialized : IsInitialized created.phase created.conditions
unfolding text_eq
created-IsInitialized = λ here. cc

update-unchanged_example :
    let p = update clock version (storage created) (some members_ready) created in
    IsInitialized p.status.phase p.status.conditions × (p.updated ≡ false → p.status ≡ created)
update-unchanged_example =
    update-unchanged clock version (storage created) (some members_ready) created
      created-IsInitialized

-- The phase as it is set beforehand for a new resource.
abbrev fresh : Status
fresh = status_in (codes "Initialized") []

ensure_initialized-Uninitialized_example :
    get_condition
      (codes "Initialized")
      (ensure_initialized clock version
        (coherence_resource (storage fresh))
        (started fresh)).status.conditions
    ≡ none
unfolding get_condition
ensure_initialized-Uninitialized_example =
    ensure_initialized-Uninitialized clock version (coherence_resource (storage fresh))
      (started fresh) refl refl
