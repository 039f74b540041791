-- ===== src/Command/Line.antt =====
-- A command is one line, whatever its message and the values of its properties.
use coherence_operator.Prelude.{
  List, [], ◌∷◌, Bool, true, false, Text, codes, All, All-append, Bool-cases, arith, inl, inr,
  is_empty, if◌then◌else◌,
}
use coherence_operator.Command.{
  Value, Command, is_truthy, write_properties, command_to_string, escape_property,
}
use coherence_operator.Command.Escape.{
  IsOneLine, IsPropertySafe, escape_data-IsOneLine, escape_property-IsPropertySafe,
}

IsPropertySafe-IsOneLine : (s : Text) → IsPropertySafe s → IsOneLine s
IsPropertySafe-IsOneLine [] h = tt
IsPropertySafe-IsOneLine (c ∷ s) (h, k) = ((h.0, h.1), IsPropertySafe-IsOneLine s k)

-- The names of the properties.
abbrev pub HasOneLineKeys : List (Text × Value) → Type 0
HasOneLineKeys = All (λ p. IsOneLine p.0)

separator-IsOneLine : (first : Bool) → IsOneLine (if first then [] else codes ",")
separator-IsOneLine true = tt
separator-IsOneLine false = omega arith

write_properties-IsOneLine :
    (first : Bool) (ps : List (Text × Value))
    → HasOneLineKeys ps
    → IsOneLine (write_properties first ps)
unfolding write_properties
write_properties-IsOneLine first [] h = tt
write_properties-IsOneLine first ((key, val) ∷ rest) (k, h) = elim (Bool-cases (is_truthy val)) [
  | inr skipped ↦ rw (skipped, write_properties) (write_properties-IsOneLine first rest h)
  | inl written ↦
      rw (written, write_properties)
        (All-append _ (if first then [] else codes ",") _ (separator-IsOneLine first) (
          All-append _ key _ k (
            omega arith,
            All-append _ (escape_property val) _
                (IsPropertySafe-IsOneLine _ (escape_property-IsPropertySafe val))
                (write_properties-IsOneLine false rest h),
          )))
]

-- A command whose name and property names are on one line is printed on one line, whatever text the
-- message and the values of the properties hold, line breaks included.
pub command_to_string-IsOneLine :
    (cmd : Command)
    → IsOneLine cmd.command
    → HasOneLineKeys cmd.properties
    → IsOneLine (command_to_string cmd)
unfolding command_to_string
command_to_string-IsOneLine cmd named keyed = (
  omega arith,
  (
    omega arith,
    All-append _ cmd.command _ named (
        All-append _
          (if is_empty cmd.properties then [] else b' ' ∷ write_properties true cmd.properties) _
          (properties cmd.properties keyed)
          (omega arith, (omega arith, escape_data-IsOneLine cmd.message))),
  ),
)
  where
    properties :
        (ps : List (Text × Value))
        → HasOneLineKeys ps
        → IsOneLine (if is_empty ps then [] else b' ' ∷ write_properties true ps)
    properties [] h = tt
    properties (p ∷ ps) h = (omega arith, write_properties-IsOneLine true (p ∷ ps) h)
