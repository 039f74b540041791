-- ===== src/Operator/Conditions/Laws.antt =====
-- The list of conditions as a map from types to conditions.
use coherence_operator.Prelude.{
  ℕ, ◌≡◌, ◌≢◌, refl, sym, ◌∙◌, inl, inr, [], ◌∷◌, Option, none, some, true, false, Text, text_eq,
  text_eq_sound, text_eq_refl, Bool-cases, arith, if◌then◌else◌,
}
use coherence_operator.Operator.Conditions.{
  Condition, Conditions, get_condition, is_changed, stamped, set_condition,
}

pub some-none : {A : Type 0} → {a : A} → some a ≢ none
some-none = λ e. cc

-- The given condition with the time of its last transition, by the one of that type that was there: now
-- for a new condition or another status, else the old time.
abbrev pub stored : ℕ → Condition → Option Condition → Condition
stored now c none = record c { last_transition_time = now }
stored now c (some old) = record c {
  last_transition_time = if text_eq old.status c.status then old.last_transition_time else now;
}

pub text_eq_sym : (s t : Text) → text_eq s t ≡ text_eq t s
unfolding text_eq
text_eq_sym [] [] = refl
text_eq_sym [] (d ∷ t) = refl
text_eq_sym (c ∷ s) [] = refl
text_eq_sym (c ∷ s) (d ∷ t) = ground (arith, text_eq_sym s t)

-- A condition that was set is found, as it was given but for the time of its last transition: the old
-- time if one of that type was there with the same status, else now. Every other type is looked up as
-- before.
pub get_condition-set_condition :
    (now : ℕ) (c : Condition) (cs : Conditions) (t : Text)
    → get_condition t (set_condition now c cs).1 ≡ (
        if text_eq c.condition_type t
        then some (stored now c (get_condition c.condition_type cs))
        else get_condition t cs)
unfolding get_condition set_condition stamped
get_condition-set_condition now c [] t = refl
get_condition-set_condition now c (d ∷ ds) t =
    elim (Bool-cases (text_eq d.condition_type c.condition_type)) [
      | inl same ↦ elim (Bool-cases (text_eq c.condition_type t)) [
        | inl here ↦ rw (same, here) refl
        | inr there ↦
            rw (same, there, text_eq_sound d.condition_type c.condition_type same, there) refl
      ]
      | inr other ↦
          let rest = get_condition-set_condition now c ds t in
          elim (Bool-cases (text_eq c.condition_type t)) [
            | inl here ↦
                let away : text_eq d.condition_type t ≡ false =
                  rw (sym (text_eq_sound c.condition_type t here)) other in
                rw (other, away, rest, here) refl
            | inr there ↦ rw (other, there, rest, there) refl
          ]
    ]

module _ (now : ℕ) (c : Condition) (cs : Conditions) where
  pub get_condition-here :
      (t : Text)
      → text_eq c.condition_type t ≡ true
      → get_condition t (set_condition now c cs).1
        ≡ some (stored now c (get_condition c.condition_type cs))
  get_condition-here t here = get_condition-set_condition now c cs t ∙ rw here refl

  pub get_condition-other :
      (t : Text)
      → text_eq c.condition_type t ≡ false
      → get_condition t (set_condition now c cs).1 ≡ get_condition t cs
  get_condition-other t other = get_condition-set_condition now c cs t ∙ rw other refl

  -- No type is lost.
  pub get_condition-kept :
      (t : Text) → get_condition t cs ≢ none → get_condition t (set_condition now c cs).1 ≢ none
  get_condition-kept t there gone = elim (Bool-cases (text_eq c.condition_type t)) [
    | inl e ↦ some-none (sym (get_condition-here t e) ∙ gone)
    | inr e ↦ there (sym (get_condition-other t e) ∙ gone)
  ]

stamped-unchanged :
    (now : ℕ) (c d : Condition)
    → text_eq d.condition_type c.condition_type ≡ true
    → is_changed d c ≡ false
    → stamped now c d ≡ d
unfolding is_changed stamped
stamped-unchanged now c d same unchanged =
    let same_status = text_eq_sound d.status c.status (ground arith) in
    let same_reason = text_eq_sound d.reason c.reason (ground arith) in
    let same_message = text_eq_sound d.message c.message (ground arith) in
    rw
      (
        sym (text_eq_sound d.condition_type c.condition_type same),
        sym same_status,
        sym same_reason,
        sym same_message,
        text_eq_refl d.status,
      )
      refl

-- The flag of `SetCondition` is false only if the list is as it was.
pub set_condition-unchanged :
    (now : ℕ) (c : Condition) (cs : Conditions)
    → (set_condition now c cs).0 ≡ false
    → (set_condition now c cs).1 ≡ cs
unfolding set_condition is_changed stamped
set_condition-unchanged now c [] unchanged = cc
set_condition-unchanged now c (d ∷ ds) unchanged =
    elim (Bool-cases (text_eq d.condition_type c.condition_type)) [
      | inl same ↦
          let flag : is_changed d c ≡ false = rw (sym unchanged, set_condition, same) refl in
          rw (same, stamped-unchanged now c d same flag) refl
      | inr other ↦
          let flag : (set_condition now c ds).0 ≡ false =
            rw (sym unchanged, set_condition, other) refl in
          rw (other, set_condition-unchanged now c ds flag) refl
    ]
