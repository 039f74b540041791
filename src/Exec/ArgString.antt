-- ===== src/Exec/ArgString.antt =====
-- `argStringToArray`: the words of a command line.
pub mod Words
pub mod Join
mod Tests
use coherence_operator.Prelude.{
  ℕ, List, [], ◌∷◌, ◌++◌, Bool, true, false, not, ◌&&◌, Text, codes, is_empty, trim, is_space, ◌==◌,
  if◌then◌else◌, ◌≡◌, refl,
}

abbrev pub quote : ℕ
quote = b'"'

abbrev pub backslash : ℕ
backslash = b'\\'

-- The variables of the loop.
pub record Scan : Type 0 where
  pub in_quotes : Bool
  pub escaped : Bool
  pub arg : Text
  pub args : List Text

abbrev pub start : Scan
start = record { in_quotes = false; escaped = false; arg = []; args = [] }

-- The closure `append`: a backslash that escaped nothing is put back.
unfoldable pub append : ℕ → Scan → Scan
append c s = record s {
  arg = (if s.escaped && not (c == quote) then s.arg ++ backslash ∷ [] else s.arg) ++ c ∷ [];
  escaped = false;
}

-- One round of the loop.
unfoldable pub step : ℕ → Scan → Scan
unfolding append
step c s =
    if c == quote
    then if not s.escaped then record s { in_quotes = not s.in_quotes } else append c s
    else if c == backslash && s.escaped
    then append c s
    else if c == backslash && s.in_quotes
    then record s { escaped = true }
    else if c == b' ' && not s.in_quotes
    then if is_empty s.arg then s else record s { args = s.args ++ s.arg ∷ []; arg = [] }
    else append c s

unfoldable pub scan : Text → Scan → Scan
scan [] s = s
scan (c ∷ text) s = scan text (step c s)

-- The end of the function.
unfoldable pub finish : Scan → List Text
finish s = if is_empty s.arg then s.args else s.args ++ trim s.arg ∷ []

unfoldable pub arg_string_to_array : Text → List Text
unfolding scan step finish
arg_string_to_array arg_string = finish (scan arg_string start)

tar_version : arg_string_to_array (codes "tar  --version") ≡ codes "tar" ∷ codes "--version" ∷ []
unfolding arg_string_to_array trim is_space
tar_version = refl

windows_path :
    arg_string_to_array (codes "\"C:\\Program Files\\a.exe\" x")
    ≡ codes "C:\\Program Files\\a.exe" ∷ codes "x" ∷ []
unfolding arg_string_to_array trim is_space
windows_path = refl
