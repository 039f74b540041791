-- ===== src/Operator/Status/Phases.antt =====
-- What `setPhase` makes of the phase and of the conditions.
use coherence_operator.Prelude.{
  ℕ, [], ◌≡◌, ◌≢◌, refl, sym, ◌∙◌, inl, inr, none, true, false, Text, Bool-cases, codes, text_eq,
  if◌then◌else◌,
}
use coherence_operator.Operator.Conditions.{
  get_condition, set_condition, condition_true, condition_false,
}
use coherence_operator.Operator.Conditions.Laws.{get_condition-kept, get_condition-here, some-none}
use coherence_operator.Operator.Status.{
  Progress, condition_of, set_phase, put_condition, is_left, leave, turn,
}

pub leave-phase : (clock : ℕ → ℕ) (p : Progress) → (leave clock p).status.phase ≡ p.status.phase
unfolding leave put_condition
leave-phase clock p = elim (Bool-cases (is_left p.status.phase)) [
  | inl e ↦ rw e refl
  | inr e ↦ rw e refl
]

pub turn-conditions :
    (phase : Text) (p : Progress) → (turn phase p).status.conditions ≡ p.status.conditions
unfolding turn
turn-conditions phase p = elim (Bool-cases (text_eq p.status.phase (codes "Completed"))) [
  | inl e ↦ rw e refl
  | inr e ↦ rw e refl
]

turn-phase :
    (phase : Text) (p : Progress)
    → (turn phase p).status.phase
      ≡ (if text_eq p.status.phase (codes "Completed") then p.status.phase else phase)
unfolding turn
turn-phase phase p = elim (Bool-cases (text_eq p.status.phase (codes "Completed"))) [
  | inl e ↦ rw e refl
  | inr e ↦ rw e refl
]

-- A phase that is entered.
module _ (clock : ℕ → ℕ) (phase : Text) (p : Progress)
    (other : text_eq p.status.phase phase ≡ false) where
  -- It becomes the phase of the status unless the status is complete.
  pub set_phase-phase :
      (set_phase clock phase p).status.phase
      ≡ (if text_eq p.status.phase (codes "Completed") then p.status.phase else phase)
  unfolding set_phase put_condition
  set_phase-phase = rw other (turn-phase phase (leave clock p) ∙ rw (leave-phase clock p) refl)

  -- Its condition is set to true behind the condition of the phase that is left.
  pub set_phase-conditions :
      (set_phase clock phase p).status.conditions
      ≡ (set_condition
          (clock (turn phase (leave clock p)).readings)
          (condition_of phase condition_true [])
          (leave clock p).status.conditions).1
  unfolding set_phase put_condition
  set_phase-conditions = rw other (rw (turn-conditions phase (leave clock p)) refl)

  pub set_phase-here :
      (t : Text)
      → text_eq phase t ≡ true
      → get_condition t (set_phase clock phase p).status.conditions ≢ none
  unfolding condition_of
  set_phase-here t here = rw set_phase-conditions λ gone. some-none (
      sym (
        get_condition-here (clock (turn phase (leave clock p)).readings)
          (condition_of phase condition_true []) (leave clock p).status.conditions t here)
      ∙ gone)

pub leave-kept :
    (clock : ℕ → ℕ) (p : Progress) (t : Text)
    → get_condition t p.status.conditions ≢ none
    → get_condition t (leave clock p).status.conditions ≢ none
unfolding leave put_condition
leave-kept clock p t there = elim (Bool-cases (is_left p.status.phase)) [
  | inl e ↦ rw e (
      get_condition-kept (clock p.readings) (condition_of p.status.phase condition_false [])
        p.status.conditions t there)
  | inr e ↦ rw e there
]

pub set_phase-kept :
    (clock : ℕ → ℕ) (phase : Text) (p : Progress) (t : Text)
    → get_condition t p.status.conditions ≢ none
    → get_condition t (set_phase clock phase p).status.conditions ≢ none
unfolding set_phase
set_phase-kept clock phase p t there = elim (Bool-cases (text_eq p.status.phase phase)) [
  | inl e ↦ rw e there
  | inr e ↦
      rw (set_phase-conditions clock phase p e) (
        get_condition-kept _ (condition_of phase condition_true []) _ t
          (leave-kept clock p t there))
]
