-- ===== src/Operator/Status/Honest.antt =====
-- The flag that `Update` returns: the controller writes the status only if it is true.
use coherence_operator.Prelude.{
  ℕ, ◌≡◌, ◌≢◌, refl, sym, ◌∙◌, inl, inr, Option, none, Bool, true, false, Text, Bool-cases, codes,
  text_eq, text_eq_sound, arith, if◌then◌else◌, Option-cases,
}
use coherence_operator.Operator.Conditions.{
  Condition, Conditions, get_condition, set_condition, condition_true,
}
use coherence_operator.Operator.Conditions.Laws.{get_condition-kept, set_condition-unchanged}
use coherence_operator.Operator.Status.{
  Status, Coherence, Progress, assign, condition_of, enter, set_phase, set_version, put_condition,
  lacks,
}
use coherence_operator.Operator.Status.Update.{StatefulSetStatus, update, initialize}
use coherence_operator.Operator.Status.Phases.{set_phase-phase, set_phase-here}
use coherence_operator.Operator.Status.Follow.{
  IsAside, IsElsewhere, Follows, IsStepLaw, update-Follows,
}

-- A status in the phase Initialized has the condition Initialized.
abbrev pub IsInitialized : Text → Conditions → Type 0
IsInitialized phase conditions =
    text_eq phase (codes "Initialized") ≡ true
    → get_condition (codes "Initialized") conditions ≢ none

-- A step that ends with the flag false began with the flag false, and left the status as it was.
abbrev Honest : Progress → Progress → Type 0
Honest p q =
    IsInitialized p.status.phase p.status.conditions
    → IsInitialized q.status.phase q.status.conditions
      × (q.updated ≡ false → (p.updated ≡ false) × (q.status ≡ p.status))

abbrev versioned : Text → Condition
versioned version = condition_of (codes "Versioned") condition_true version

true-false : {A : Type 0} → true ≡ false → A
true-false e = absurd (cc e)

assign-Honest :
    (differs : Status → Bool) (f : Status → Status) → IsAside f → Follows Honest (assign differs f)
unfolding assign
assign-Honest differs f aside = record {
  follows = λ p i. elim (Bool-cases (differs p.status)) [
    | inl e ↦ rw e (
      (λ here. rw ((aside p.status).1) (i (rw (sym (aside p.status).0) here))),
      λ off. true-false off,
    )
    | inr e ↦ rw e (i, λ off. (off, refl))
  ];
}

-- `setPhase` to another phase reports a change.
set_phase-changes :
    (clock : ℕ → ℕ) (phase : Text) (p : Progress)
    → text_eq p.status.phase phase ≡ false
    → (set_phase clock phase p).updated ≡ true
unfolding set_phase
set_phase-changes clock phase p other = rw other refl

neither :
    (phase old : Text)
    → text_eq phase (codes "Initialized") ≡ false
    → text_eq (if text_eq old (codes "Completed") then old else phase) (codes "Initialized") ≡ false
unfolding text_eq
neither phase old e = elim (Bool-cases (text_eq old (codes "Completed"))) [
  | inl done ↦ rw (done, text_eq_sound old (codes "Completed") done) refl
  | inr going ↦ rw going e
]

lacks-none : (t : Text) (st : Status) → lacks t st ≡ true → get_condition t st.conditions ≡ none
unfolding lacks
lacks-none t st e = elim (Option-cases (get_condition t st.conditions)) [
  | inl gone ↦ gone
  | inr (c, there) ↦ true-false (sym e ∙ rw (there, lacks) refl)
]

-- The phase Initialized is entered with its condition.
set_phase-IsInitialized :
    (clock : ℕ → ℕ) (phase : Text) (p : Progress)
    → text_eq p.status.phase phase ≡ false
    → IsInitialized p.status.phase p.status.conditions
    → IsInitialized
        (set_phase clock phase p).status.phase
        (set_phase clock phase p).status.conditions
set_phase-IsInitialized clock phase p other i here =
    elim (Bool-cases (text_eq phase (codes "Initialized"))) [
      | inl e ↦ set_phase-here clock phase p other (codes "Initialized") e
      | inr e ↦
          true-false
            (sym here ∙ rw (set_phase-phase clock phase p other) (neither phase p.status.phase e))
    ]

enter-Honest :
    (clock : ℕ → ℕ) (guard : Status → Bool) (phase : Text)
    → IsElsewhere guard phase
    → Follows Honest (enter clock guard phase)
unfolding enter
enter-Honest clock guard phase elsewhere = record {
  follows = λ p i. elim (Bool-cases (guard p.status)) [
    | inl e ↦
        let other = elsewhere p.status e in
        rw e (
          set_phase-IsInitialized clock phase p other i,
          λ off. true-false (sym (set_phase-changes clock phase p other) ∙ off),
        )
    | inr e ↦ rw e (i, λ off. (off, refl))
  ];
}

initialize-Honest : (clock : ℕ → ℕ) → Follows Honest (initialize clock)
unfolding initialize enter
initialize-Honest clock = record {
  follows = λ p i. elim (Bool-cases (lacks (codes "Initialized") p.status)) [
    | inl e ↦
        let gone = lacks-none (codes "Initialized") p.status e in
        elim (Bool-cases (text_eq p.status.phase (codes "Initialized"))) [
          | inl here ↦ absurd (i here gone)
          | inr other ↦ rw e (
            set_phase-IsInitialized clock (codes "Initialized") p other i,
            λ off. true-false (sym (set_phase-changes clock (codes "Initialized") p other) ∙ off),
          )
        ]
    | inr e ↦ rw e (i, λ off. (off, refl))
  ];
}

set_version-Honest : (clock : ℕ → ℕ) (version : Text) → Follows Honest (set_version clock version)
unfolding set_version put_condition
set_version-Honest clock version = record {
  follows = λ p i. (
    λ here.
        get_condition-kept (clock p.readings) (versioned version) p.status.conditions
          (codes "Initialized") (i here),
    λ off.
        let same : (set_condition (clock p.readings) (versioned version) p.status.conditions).0
            ≡ false =
          ground arith in
        (
          ground arith,
          rw
              (set_condition-unchanged (clock p.readings) (versioned version) p.status.conditions
                same)
              refl,
        ),
  );
}

module _ (clock : ℕ → ℕ) where
  flag_law : IsStepLaw clock Honest
  flag_law = record {
    idle = λ p i. (i, λ off. (off, refl));
    chained = λ p q r pq qr i.
        let (iq, hq) = pq i in
        let (ir, hr) = qr iq in (ir, λ off. ((hq (hr off).0).0, (hr off).1 ∙ (hq (hr off).0).1));
    assigned = assign-Honest;
    entered = enter-Honest clock;
    initialized = initialize-Honest clock;
    versioned = set_version-Honest clock;
  }

  -- If a status in the phase Initialized has the condition Initialized, `Update` returns false only if it
  -- left the whole status as it was: no change is lost. The updated status is again such a status.
  pub update-unchanged :
      (version : Text) (deployment : Coherence) (sts : Option StatefulSetStatus) (st : Status)
      → IsInitialized st.phase st.conditions
      → let p = update clock version deployment sts st in
        IsInitialized p.status.phase p.status.conditions × (p.updated ≡ false → p.status ≡ st)
  update-unchanged version deployment sts st i =
      let (after, same) =
        update-Follows clock Honest ⦃law = flag_law⦄ version deployment sts st i in
      (after, λ off. (same off).1)
