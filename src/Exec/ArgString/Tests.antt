-- ===== src/Exec/ArgString/Tests.antt =====
-- The theorems about `argStringToArray` at concrete inputs.
use coherence_operator.Prelude.{◌≡◌, ◌∷◌, [], ◌++◌, codes, trim, arith}
use coherence_operator.Exec.ArgString.{arg_string_to_array}
use coherence_operator.Exec.ArgString.Words.{arg_string_to_array-open_end}

arg_string_to_array-open_end_example :
    arg_string_to_array (b'"' ∷ (codes "C:\\a b" ++ b's' ∷ b'\\' ∷ b'"' ∷ []))
    ≡ trim ((codes "C:\\a b" ++ b's' ∷ []) ++ b'"' ∷ []) ∷ []
arg_string_to_array-open_end_example =
    arg_string_to_array-open_end (codes "C:\\a b") b's' (omega arith) (omega arith)
