-- ===== src/Operator/Status/Exclusive.antt =====
-- A complete status stays complete, and of the phases that are left only the present one is true.
use coherence_operator.Prelude.{
  ℕ, [], ◌≡◌, ◌≢◌, refl, sym, ap, ◌∙◌, inl, inr, ◌⊎◌, Option, none, some, true, false, Text,
  Bool-cases, codes, text_eq, text_eq_sound, text_eq_refl,
}
use coherence_operator.Operator.Conditions.{
  Condition, Conditions, get_condition, set_condition, stamped, is_true, condition_true,
  condition_false,
}
use coherence_operator.Operator.Conditions.Laws.{stored, get_condition-here, get_condition-other}
use coherence_operator.Operator.Status.{
  Progress, set_phase, set_version, put_condition, leave, is_left, condition_of,
}
use coherence_operator.Operator.Status.Phases.{set_phase-phase, set_phase-conditions}
use coherence_operator.Operator.Status.Invariant.{IsInvariant}

true-false : true ≢ false
true-false = λ e. cc

-- The status is complete.
abbrev pub Complete : Text → Conditions → Type 0
Complete phase conditions = phase ≡ codes "Completed"

set_phase-Complete :
    (clock : ℕ → ℕ) (phase : Text) (p : Progress)
    → p.status.phase ≡ codes "Completed"
    → (set_phase clock phase p).status.phase ≡ codes "Completed"
unfolding set_phase
set_phase-Complete clock phase p done = elim (Bool-cases (text_eq p.status.phase phase)) [
  | inl e ↦ rw e done
  | inr e ↦ set_phase-phase clock phase p e ∙ rw (done, text_eq_refl (codes "Completed")) refl
]

set_version-phase :
    (clock : ℕ → ℕ) (version : Text) (p : Progress)
    → (set_version clock version p).status.phase ≡ p.status.phase
unfolding set_version put_condition
set_version-phase clock version p = refl

pub final_invariant : (clock : ℕ → ℕ) → IsInvariant clock Complete
final_invariant clock = record {
  phase_set = set_phase-Complete clock;
  versioned = λ version p done. set_version-phase clock version p ∙ done;
}

-- Of Ready, Scaling, RollingUpgrade, Waiting and Stopped only the one that is the phase can be true.
abbrev pub IsExclusive : Text → Conditions → Type 0
IsExclusive phase conditions =
    (t : Text)
    → (c : Condition) → is_left t ≡ true
    → get_condition t conditions ≡ some c
    → is_true c ≡ true
    → t ≡ phase

-- The status is complete, or one phase at most is true.
abbrev pub Exclusive : Text → Conditions → Type 0
Exclusive phase conditions = (phase ≡ codes "Completed") ⊎ IsExclusive phase conditions

stored-false :
    (now : ℕ) (phase : Text) (o : Option Condition)
    → is_true (stored now (condition_of phase condition_false []) o) ≡ false
unfolding is_true condition_of condition_false condition_true stamped text_eq
stored-false now phase none = refl
stored-false now phase (some old) = refl

some-inj : {A : Type 0} → {a b : A} → some a ≡ some b → a ≡ b
some-inj e = cc

-- Behind the phase that is left no other phase is true.
leave-none :
    (clock : ℕ → ℕ) (p : Progress) (t : Text) (c : Condition)
    → IsExclusive p.status.phase p.status.conditions
    → is_left t ≡ true
    → get_condition t (leave clock p).status.conditions ≡ some c
    → is_true c ≡ false
unfolding leave put_condition condition_of
leave-none clock p t c exclusive left there = elim (Bool-cases (is_true c)) [
  | inr off ↦ off
  | inl on ↦ elim (Bool-cases (is_left p.status.phase)) [
    | inr e ↦
        let same = exclusive t c left (sym (rw e refl) ∙ there) on in
        absurd (true-false (sym left ∙ rw same e))
    | inl e ↦
        let old : Condition = condition_of p.status.phase condition_false [] in
        let after : get_condition t (set_condition (clock p.readings) old p.status.conditions).1
            ≡ some c =
          sym (rw e refl) ∙ there in
        elim (Bool-cases (text_eq p.status.phase t)) [
          | inl here ↦
              let found =
                sym (get_condition-here (clock p.readings) old p.status.conditions t here)
                ∙ after in
              rw (sym (some-inj found)) (stored-false (clock p.readings) p.status.phase _)
          | inr other ↦
              let found =
                sym (get_condition-other (clock p.readings) old p.status.conditions t other)
                ∙ after in
              let same = exclusive t c left found on in
              absurd (true-false (sym (text_eq_refl t) ∙ ap (λ x. text_eq x t) same ∙ other))
        ]
  ]
]

set_phase-IsExclusive :
    (clock : ℕ → ℕ) (phase : Text) (p : Progress)
    → text_eq p.status.phase phase ≡ false
    → text_eq p.status.phase (codes "Completed") ≡ false
    → IsExclusive p.status.phase p.status.conditions
    → IsExclusive (set_phase clock phase p).status.phase (set_phase clock phase p).status.conditions
unfolding condition_of
set_phase-IsExclusive clock phase p other going exclusive t c left there on =
    elim (Bool-cases (text_eq phase t)) [
      | inl here ↦
          sym (text_eq_sound phase t here)
          ∙ sym (set_phase-phase clock phase p other ∙ rw going refl)
      | inr away ↦
          let found =
            sym (get_condition-other _ (condition_of phase condition_true []) _ t away)
            ∙ ap (get_condition t) (sym (set_phase-conditions clock phase p other))
            ∙ there in
          absurd (true-false (sym on ∙ leave-none clock p t c exclusive left found))
    ]

set_phase-Exclusive :
    (clock : ℕ → ℕ) (phase : Text) (p : Progress)
    → Exclusive p.status.phase p.status.conditions
    → Exclusive (set_phase clock phase p).status.phase (set_phase clock phase p).status.conditions
unfolding set_phase
set_phase-Exclusive clock phase p (inl done) = inl (set_phase-Complete clock phase p done)
set_phase-Exclusive clock phase p (inr exclusive) =
    elim (Bool-cases (text_eq p.status.phase phase)) [
      | inl e ↦ rw e (inr exclusive)
      | inr other ↦ elim (Bool-cases (text_eq p.status.phase (codes "Completed"))) [
        | inl e ↦
            inl (
              set_phase-Complete clock phase p (text_eq_sound p.status.phase (codes "Completed") e))
        | inr going ↦ inr (set_phase-IsExclusive clock phase p other going exclusive)
      ]
    ]

set_version-Exclusive :
    (clock : ℕ → ℕ) (version : Text) (p : Progress)
    → Exclusive p.status.phase p.status.conditions
    → Exclusive
        (set_version clock version p).status.phase
        (set_version clock version p).status.conditions
unfolding set_version put_condition condition_of is_left text_eq
set_version-Exclusive clock version p (inl done) = inl done
set_version-Exclusive clock version p (inr exclusive) = inr λ t c left there on.
    elim (Bool-cases (text_eq (codes "Versioned") t)) [
      | inl here ↦
          absurd (true-false (sym left ∙ rw (sym (text_eq_sound (codes "Versioned") t here)) refl))
      | inr away ↦
          exclusive t c left
            (sym (
                get_condition-other (clock p.readings)
                  (condition_of (codes "Versioned") condition_true version) p.status.conditions t
                  away)
              ∙ there)
            on
    ]

pub phases_invariant : (clock : ℕ → ℕ) → IsInvariant clock Exclusive
phases_invariant clock = record {
  phase_set = set_phase-Exclusive clock;
  versioned = set_version-Exclusive clock;
}
