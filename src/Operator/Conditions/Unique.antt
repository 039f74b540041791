-- ===== src/Operator/Conditions/Unique.antt =====
-- Each type stands once in the list of conditions.
use coherence_operator.Prelude.{
  ℕ, suc, ◌≡◌, refl, sym, ◌∙◌, inl, inr, List, [], ◌∷◌, none, false, Text, text_eq, text_eq_sound,
  Bool-cases, arith, if◌then◌else◌,
}
use coherence_operator.Operator.Conditions.{
  Condition, Conditions, get_condition, stamped, set_condition, remove_condition,
  new_conditions_onto, new_conditions,
}
use coherence_operator.Operator.Conditions.Laws.{text_eq_sym, get_condition-set_condition}

-- No type stands twice.
unfoldable pub IsUnique : Conditions → Type 0
IsUnique [] = Unit {0}
IsUnique (c ∷ cs) = (get_condition c.condition_type cs ≡ none) × IsUnique cs

-- `SetCondition` keeps the types unique.
pub set_condition-IsUnique :
    (now : ℕ) (c : Condition) (cs : Conditions) → IsUnique cs → IsUnique (set_condition now c cs).1
unfolding IsUnique get_condition set_condition stamped
set_condition-IsUnique now c [] unique = (refl, tt)
set_condition-IsUnique now c (d ∷ ds) (alone, unique) =
    elim (Bool-cases (text_eq d.condition_type c.condition_type)) [
      | inl same ↦
          rw same ((rw (sym (text_eq_sound d.condition_type c.condition_type same)) alone), unique)
      | inr other ↦
          let differ : text_eq c.condition_type d.condition_type ≡ false =
            text_eq_sym c.condition_type d.condition_type ∙ other in
          rw other (
            (get_condition-set_condition now c ds d.condition_type ∙ rw differ alone),
            set_condition-IsUnique now c ds unique,
          )
    ]

new_conditions_onto-IsUnique :
    (clock : ℕ → ℕ) (reading : ℕ) (conds : List Condition) (cs : Conditions)
    → IsUnique cs
    → IsUnique (new_conditions_onto clock reading conds cs)
unfolding new_conditions_onto
new_conditions_onto-IsUnique clock reading [] cs unique = unique
new_conditions_onto-IsUnique clock reading (c ∷ conds) cs unique =
    new_conditions_onto-IsUnique clock (suc reading) conds (set_condition (clock reading) c cs).1
      (set_condition-IsUnique (clock reading) c cs unique)

pub new_conditions-IsUnique :
    (clock : ℕ → ℕ) (conds : List Condition) → IsUnique (new_conditions clock conds)
unfolding IsUnique new_conditions
new_conditions-IsUnique clock conds = new_conditions_onto-IsUnique clock 0 conds [] tt

-- What is looked up in a list of unique types once a type was removed.
pub get_condition-remove_condition :
    (t : Text) (cs : Conditions) (u : Text)
    → IsUnique cs
    → get_condition u (remove_condition t cs).1 ≡ (if text_eq t u then none else get_condition u cs)
unfolding IsUnique get_condition remove_condition
get_condition-remove_condition t [] u unique = ground arith
get_condition-remove_condition t (c ∷ cs) u (alone, unique) =
    elim (Bool-cases (text_eq c.condition_type t)) [
      | inl same ↦
          let this = text_eq_sound c.condition_type t same in
          elim (Bool-cases (text_eq t u)) [
            | inl here ↦ rw (same, here, sym (text_eq_sound t u here), sym this) alone
            | inr there ↦ rw (same, there, this, there) refl
          ]
      | inr other ↦
          let rest = get_condition-remove_condition t cs u unique in
          elim (Bool-cases (text_eq t u)) [
            | inl here ↦
                let away : text_eq c.condition_type u ≡ false =
                  rw (sym (text_eq_sound t u here)) other in
                rw (other, away, rest, here) refl
            | inr there ↦ rw (other, there, rest, there) refl
          ]
    ]

absent_after :
    (t u : Text) (cs : Conditions)
    → IsUnique cs
    → get_condition u cs ≡ none
    → get_condition u (remove_condition t cs).1 ≡ none
absent_after t u cs unique absent =
    get_condition-remove_condition t cs u unique ∙ ground (arith, absent)

-- `RemoveCondition` keeps the types unique.
pub remove_condition-IsUnique :
    (t : Text) (cs : Conditions) → IsUnique cs → IsUnique (remove_condition t cs).1
unfolding IsUnique remove_condition
remove_condition-IsUnique t [] unique = tt
remove_condition-IsUnique t (c ∷ cs) (alone, unique) =
    elim (Bool-cases (text_eq c.condition_type t)) [
      | inl same ↦ rw same unique
      | inr other ↦
          rw other
            (absent_after t c.condition_type cs unique alone, remove_condition-IsUnique t cs unique)
    ]
