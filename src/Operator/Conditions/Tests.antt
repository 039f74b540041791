-- ===== src/Operator/Conditions/Tests.antt =====
-- The theorems about the conditions, applied.
use coherence_operator.Prelude.{◌≡◌, refl, [], ◌∷◌, some, true, false, codes, text_eq}
use coherence_operator.Operator.Conditions.{
  Condition, Conditions, get_condition, set_condition, is_changed, stamped, remove_condition,
  is_true_for, is_false_for, is_unknown_for, is_true, is_false, condition_true, condition_false,
}
use coherence_operator.Operator.Conditions.Laws.{
  get_condition-set_condition, set_condition-unchanged,
}
use coherence_operator.Operator.Conditions.Unique.{IsUnique, get_condition-remove_condition}

abbrev ready : Condition
ready = record {
  condition_type = codes "Ready";
  status = codes "True";
  reason = [];
  message = [];
  last_transition_time = 5;
}

abbrev stopped : Condition
stopped = record {
  condition_type = codes "Stopped";
  status = codes "False";
  reason = [];
  message = [];
  last_transition_time = 3;
}

abbrev two_conditions : Conditions
two_conditions = stopped ∷ ready ∷ []

get_condition-set_condition_example :
    get_condition (codes "Ready") (set_condition 9 ready two_conditions).1 ≡ some ready
unfolding get_condition stamped text_eq
get_condition-set_condition_example =
    get_condition-set_condition 9 ready two_conditions (codes "Ready")

set_condition-unchanged_example : (set_condition 9 ready two_conditions).1 ≡ two_conditions
unfolding set_condition is_changed text_eq
set_condition-unchanged_example = set_condition-unchanged 9 ready two_conditions refl

two_conditions-IsUnique : IsUnique two_conditions
unfolding IsUnique get_condition text_eq
two_conditions-IsUnique = (refl, (refl, tt))

get_condition-remove_condition_example :
    get_condition (codes "Ready") (remove_condition (codes "Stopped") two_conditions).1 ≡ some ready
unfolding get_condition text_eq
get_condition-remove_condition_example =
    get_condition-remove_condition (codes "Stopped") two_conditions (codes "Ready")
      two_conditions-IsUnique

-- A type that is not there is neither true nor false, but unknown.
not_there :
    (is_true_for (codes "Failed") two_conditions ≡ false)
    × (is_false_for (codes "Failed") two_conditions ≡ false)
    × (is_unknown_for (codes "Failed") two_conditions ≡ true)
    × (is_true_for (codes "Ready") two_conditions ≡ true)
    × (is_false_for (codes "Stopped") two_conditions ≡ true)
unfolding is_true_for is_false_for is_unknown_for is_true is_false text_eq condition_true
    condition_false
not_there = (refl, refl, refl, refl, refl)
