-- ===== src/Operator/Status.antt =====
-- The status of a Coherence resource (api/v1/coherenceresource_types.go and
-- coherencejobresource_types.go) and its updates from a StatefulSet and from a Job. An int32 is its
-- pattern of 32 bits; `clock n` is what the n-th reading of the clock of api/v1/conditions.go returns.
pub mod Update
pub mod Invariant
pub mod Follow
pub mod Honest
pub mod Exclusive
pub mod Final
pub mod Lost
pub mod Table
pub mod Phases
mod Tests
use coherence_operator.Prelude.{
  ℕ, suc, ◌+◌, ◌%◌, List, [], ◌∷◌, ◌++◌, Option, none, some, Bool, true, false, not, ◌&&◌, ◌||◌,
  Text, codes, text_eq, is_empty, ltb, ◌==◌, if◌then◌else◌,
}
use coherence_operator.Operator.Conditions.{
  Condition, Conditions, condition_true, condition_false, get_condition, set_condition,
}

-- `lastReadyTime`, `lastProbeTime`, `success` and `error` are pointers.
pub record CoherenceJobProbeStatus : Type 0 where
  pub pod : Text
  pub last_ready_time : Option ℕ
  pub last_probe_time : Option ℕ
  pub success : Option Bool
  pub error : Option Text

pub record Status : Type 0 where
  pub phase : Text
  pub coherence_cluster : Text
  pub coherence_type : Text
  pub replicas : ℕ
  pub current_replicas : ℕ
  pub ready_replicas : ℕ
  pub active : ℕ
  pub succeeded : ℕ
  pub failed : ℕ
  pub role : Text
  pub selector : Text
  pub conditions : Conditions
  pub hash : Text
  pub actions_executed : Bool
  pub job_probes : List CoherenceJobProbeStatus

-- What the interface `CoherenceResource` of api/v1/coherenceresource.go lets the status ask of a
-- resource.
pub record CoherenceResource : Type 0 where
  pub get_name : Text
  pub get_coherence_cluster_name : Text
  pub get_role_name : Text
  pub get_type : Text
  pub get_replicas : ℕ
  pub get_status : Status

pub record Coherence : Type 0 where
  pub name : Text
  pub cluster : Option Text
  pub role : Text
  pub replicas : Option ℕ
  pub initial_replicas : Option ℕ
  pub status : Status

unfoldable pub cluster_name : Coherence → Text
cluster_name c = elim c.cluster [ none ↦ c.name | some cluster ↦ cluster ]

unfoldable pub role_name : Coherence → Text
role_name c = if not (is_empty c.role) then c.role else c.name

-- `CoherenceResourceSpec.GetReplicas`.
unfoldable pub spec_replicas : Option ℕ → Option ℕ → ℕ
spec_replicas none none = 3
spec_replicas none (some initial) = initial
spec_replicas (some replicas) initial = replicas

-- `status.Replicas > 0`, with a sign.
unfoldable pub is_positive_int32 : ℕ → Bool
is_positive_int32 n = ltb 0 n && ltb n 2147483648

-- `Coherence.GetReplicas`.
unfoldable pub replicas_of : Coherence → ℕ
replicas_of c = elim c.replicas [
  | some replicas ↦ replicas
  | none ↦ elim c.initial_replicas [
    | some initial ↦ initial
    | none ↦ if is_positive_int32 c.status.replicas then c.status.replicas else 3
  ]
]

unfoldable pub coherence_resource : Coherence → CoherenceResource
coherence_resource c = record {
  get_name = c.name;
  get_coherence_cluster_name = cluster_name c;
  get_role_name = role_name c;
  get_type = codes "StatefulSet";
  get_replicas = replicas_of c;
  get_status = c.status;
}

pub record CoherenceJob : Type 0 where
  pub name : Text
  pub cluster : Text
  pub role : Text
  pub replicas : Option ℕ
  pub status : Status

-- `CoherenceJobResourceSpec.GetReplicas`.
unfoldable pub job_replicas : CoherenceJob → ℕ
job_replicas job = elim job.replicas [ none ↦ 1 | some replicas ↦ replicas ]

unfoldable pub job_resource : CoherenceJob → CoherenceResource
job_resource job = record {
  get_name = job.name;
  get_coherence_cluster_name = if is_empty job.cluster then job.name else job.cluster;
  get_role_name = if not (is_empty job.role) then job.role else job.name;
  get_type = codes "Job";
  get_replicas = job_replicas job;
  get_status = job.status;
}

-- A status that is being updated: the status, the flag `updated`, and how often the clock was read.
pub record Progress : Type 0 where
  pub updated : Bool
  pub status : Status
  pub readings : ℕ

-- `if in.F != v { in.F = v; updated = true }`
unfoldable pub assign : (Status → Bool) → (Status → Status) → Progress → Progress
assign differs f p =
    if differs p.status then record p { updated = true; status = f p.status } else p

unfoldable pub condition_of : Text → Text → Text → Condition
condition_of t status message = record {
  condition_type = t;
  status = status;
  reason = [];
  message = message;
  last_transition_time = 0;
}

-- `in.Conditions.SetCondition(c)`, its result as `updated`.
unfoldable pub put_condition : (ℕ → ℕ) → Condition → Progress → Progress
put_condition clock c p =
    let (changed, conditions) = set_condition (clock p.readings) c p.status.conditions in
    record {
      updated = changed;
      status = record p.status { conditions = conditions };
      readings = suc p.readings;
    }

-- The phases whose condition turns false when they are left.
unfoldable pub is_left : Text → Bool
is_left phase =
    text_eq phase (codes "Ready")
    || (text_eq phase (codes "Scaling")
        || (text_eq phase (codes "RollingUpgrade")
            || (text_eq phase (codes "Waiting") || text_eq phase (codes "Stopped"))))

unfoldable pub leave : (ℕ → ℕ) → Progress → Progress
leave clock p =
    if is_left p.status.phase
    then put_condition clock (condition_of p.status.phase condition_false []) p
    else p

-- If we're complete we don't change the phase again.
unfoldable pub turn : Text → Progress → Progress
turn phase p =
    if not (text_eq p.status.phase (codes "Completed"))
    then record p { status = record p.status { phase = phase } }
    else p

-- `updated = in.setPhase(phase)`.
unfoldable pub set_phase : (ℕ → ℕ) → Text → Progress → Progress
set_phase clock phase p =
    if text_eq p.status.phase phase
    then record p { updated = false }
    else record (put_condition clock (condition_of phase condition_true [])
        (turn phase (leave clock p))) { updated = true }

-- `if guard { updated = in.setPhase(phase) }`
unfoldable pub enter : (ℕ → ℕ) → (Status → Bool) → Text → Progress → Progress
enter clock guard phase p = if guard p.status then set_phase clock phase p else p

unfoldable pub lacks : Text → Status → Bool
lacks t st = elim (get_condition t st.conditions) [ none ↦ true | some c ↦ false ]

-- `if in.SetVersion(v) { updated = true }`
unfoldable pub set_version : (ℕ → ℕ) → Text → Progress → Progress
set_version clock version p =
    let q = put_condition clock (condition_of (codes "Versioned") condition_true version) p in
    record q { updated = q.updated || p.updated }

unfoldable pub status_selector : CoherenceResource → Text
status_selector d =
    codes "coherenceCluster="
    ++ (d.get_coherence_cluster_name ++ (codes ",coherenceDeployment=" ++ d.get_name))
