-- ===== src/Operator/Conditions.antt =====
-- api/v1/conditions.go: the set of conditions of a Coherence resource. `clock.Now()` is an argument.
pub mod Laws
pub mod Unique
mod Tests
use coherence_operator.Prelude.{
  ℕ, suc, List, [], ◌∷◌, Option, none, some, Bool, true, false, not, ◌||◌, Text, codes, text_eq,
  if◌then◌else◌,
}

-- A moment, in nanoseconds.
pub record Condition : Type 0 where
  pub condition_type : Text
  pub status : Text
  pub reason : Text
  pub message : Text
  pub last_transition_time : ℕ

unfoldable pub condition_true : Text
condition_true = codes "True"

unfoldable pub condition_false : Text
condition_false = codes "False"

unfoldable pub condition_unknown : Text
condition_unknown = codes "Unknown"

unfoldable pub is_true : Condition → Bool
unfolding condition_true
is_true c = text_eq c.status condition_true

unfoldable pub is_false : Condition → Bool
unfolding condition_false
is_false c = text_eq c.status condition_false

unfoldable pub is_unknown : Condition → Bool
unfolding condition_unknown
is_unknown c = text_eq c.status condition_unknown

abbrev pub Conditions : Type 0
Conditions = List Condition

unfoldable pub get_condition : Text → Conditions → Option Condition
get_condition t [] = none
get_condition t (c ∷ cs) = if text_eq c.condition_type t then some c else get_condition t cs

unfoldable pub is_true_for : Text → Conditions → Bool
is_true_for t [] = false
is_true_for t (c ∷ cs) = if text_eq c.condition_type t then is_true c else is_true_for t cs

unfoldable pub is_false_for : Text → Conditions → Bool
is_false_for t [] = false
is_false_for t (c ∷ cs) = if text_eq c.condition_type t then is_false c else is_false_for t cs

unfoldable pub is_unknown_for : Text → Conditions → Bool
is_unknown_for t [] = true
is_unknown_for t (c ∷ cs) = if text_eq c.condition_type t then is_unknown c else is_unknown_for t cs

-- What `SetCondition` reports for a condition that is there already.
unfoldable pub is_changed : Condition → Condition → Bool
is_changed old new_cond =
    not (text_eq old.status new_cond.status)
    || (not (text_eq old.reason new_cond.reason) || not (text_eq old.message new_cond.message))

unfoldable pub stamped : ℕ → Condition → Condition → Condition
stamped now new_cond old = record new_cond {
  last_transition_time =
      if text_eq old.status new_cond.status then old.last_transition_time else now;
}

-- Whether the condition is new or changed, and the new list.
unfoldable pub set_condition : ℕ → Condition → Conditions → Bool × Conditions
unfolding is_changed stamped
set_condition now new_cond [] = (true, record new_cond { last_transition_time = now } ∷ [])
set_condition now new_cond (c ∷ cs) =
    let (changed, rest) = set_condition now new_cond cs in
    if text_eq c.condition_type new_cond.condition_type
    then (is_changed c new_cond, stamped now new_cond c ∷ cs)
    else (changed, c ∷ rest)

-- `NewConditions` reads the clock once for each condition.
unfoldable pub new_conditions_onto : (ℕ → ℕ) → ℕ → List Condition → Conditions → Conditions
new_conditions_onto clock reading [] conditions = conditions
new_conditions_onto clock reading (c ∷ cs) conditions =
    new_conditions_onto clock (suc reading) cs (set_condition (clock reading) c conditions).1

unfoldable pub new_conditions : (ℕ → ℕ) → List Condition → Conditions
new_conditions clock conds = new_conditions_onto clock 0 conds []

unfoldable pub remove_condition : Text → Conditions → Bool × Conditions
remove_condition t [] = (false, [])
remove_condition t (c ∷ cs) =
    let (removed, rest) = remove_condition t cs in
    if text_eq c.condition_type t then (true, cs) else (removed, c ∷ rest)
