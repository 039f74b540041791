-- ===== src/Operator/Status/Lost.antt =====
-- The first update of a status whose phase was set to Initialized beforehand, as
-- controllers/coherence_controller.go does for a new resource.
use coherence_operator.Prelude.{
  ℕ, ◌≡◌, refl, ◌∙◌, inl, inr, none, Bool, true, false, Text, codes, text_eq, text_eq_refl,
  Bool-cases,
}
use coherence_operator.Operator.Conditions.{get_condition, condition_true}
use coherence_operator.Operator.Conditions.Laws.{get_condition-other}
use coherence_operator.Operator.Status.{
  Status, Progress, CoherenceResource, assign, enter, lacks, set_phase, set_version, put_condition,
  condition_of,
}
use coherence_operator.Operator.Status.Update.{
  ◌▹◌, ensure_initialized, set_hash, set_replicas, set_cluster, set_selector, set_role, set_type,
  initialize,
}

abbrev Uninitialized : Progress → Type 0
Uninitialized p =
    (p.status.phase ≡ codes "Initialized")
    × (get_condition (codes "Initialized") p.status.conditions ≡ none)

assign-Uninitialized :
    (differs : Status → Bool) (f : Status → Status) (p : Progress)
    → ((st : Status) → (f st).phase ≡ st.phase)
    → ((st : Status) → (f st).conditions ≡ st.conditions)
    → Uninitialized p
    → Uninitialized (assign differs f p)
unfolding assign
assign-Uninitialized differs f p same_phase same_conditions (phase, gone) =
    elim (Bool-cases (differs p.status)) [
      | inl e ↦ rw e (same_phase p.status ∙ phase, rw (same_conditions p.status) gone)
      | inr e ↦ rw e (phase, gone)
    ]

-- `setPhase` does nothing, and `updated` is set to its answer.
initialize-Uninitialized :
    (clock : ℕ → ℕ) (p : Progress)
    → Uninitialized p
    → initialize clock p ≡ record p { updated = false }
unfolding initialize enter lacks set_phase
initialize-Uninitialized clock p (phase, gone) =
    let lacking : lacks (codes "Initialized") p.status ≡ true = rw (lacks, gone) refl in
    let here : text_eq p.status.phase (codes "Initialized") ≡ true =
      rw phase (text_eq_refl (codes "Initialized")) in
    rw (lacking, here) refl

set_version-Uninitialized :
    (clock : ℕ → ℕ) (version : Text) (p : Progress)
    → Uninitialized p
    → Uninitialized (set_version clock version p)
unfolding set_version put_condition condition_of text_eq
set_version-Uninitialized clock version p (phase, gone) = (
  phase,
  get_condition-other (clock p.readings) (condition_of (codes "Versioned") condition_true version)
        p.status.conditions (codes "Initialized") refl
      ∙ gone,
)

-- A status in the phase Initialized that lacks the condition Initialized lacks it still behind
-- `ensureInitialized`.
pub ensure_initialized-Uninitialized :
    (clock : ℕ → ℕ) (version : Text) (d : CoherenceResource) (p : Progress)
    → p.status.phase ≡ codes "Initialized"
    → get_condition (codes "Initialized") p.status.conditions ≡ none
    → get_condition (codes "Initialized") (ensure_initialized clock version d p).status.conditions
      ≡ none
unfolding ensure_initialized set_hash set_replicas set_cluster set_selector set_role set_type
ensure_initialized-Uninitialized clock version d p phase gone =
    let q : Progress = p ▹ set_hash d ▹ set_replicas d ▹ set_cluster d in
    let before : Uninitialized q =
      assign-Uninitialized _ _ _ (λ st. refl) (λ st. refl)
        (assign-Uninitialized _ _ _ (λ st. refl) (λ st. refl)
          (assign-Uninitialized _ _ _ (λ st. refl) (λ st. refl) (phase, gone))) in
    let behind : Uninitialized (initialize clock q) =
      rw (initialize-Uninitialized clock q before) before in
    (set_version-Uninitialized clock version _ (
      assign-Uninitialized _ _ _ (λ st. refl) (λ st. refl)
        (assign-Uninitialized _ _ _ (λ st. refl) (λ st. refl)
          (assign-Uninitialized _ _ _ (λ st. refl) (λ st. refl) behind)))).1
