-- ===== src/Command.antt =====
-- The workflow commands of @actions/core in dist/index.js of .github/actions/setup-oras-2.0.1
-- (lib/utils.js, lib/command.js, lib/file-command.js, lib/core.js): what the action writes for the
-- runner to read, its inputs, and its search path.
pub mod Escape
pub mod Line
pub mod Effects
pub mod Tame
pub mod Settle
mod Tests
use coherence_operator.Prelude.{
  ℕ, zero, suc, List, [], ◌∷◌, ◌++◌, Option, none, some, Bool, true, false, not, ◌&&◌, Text, codes,
  text_eq, is_empty, replace_all, trim, ◌==◌, if◌then◌else◌,
}
use coherence_operator.Runtime.{
  World, Host, Thrown, M, ◌>>=◌, ◌>>◌, ok, pure, throw, perform, get_env, set_env, wrote,
  plain_error, or_empty, update, decimal, to_string,
}

-- A value that a command may carry: undefined or null, a string, or a number.
pub data Value : Type 0 where
  undefined : Value
  str : Text → Value
  num : ℕ → Value

unfoldable pub to_command_value : Value → Text
to_command_value undefined = []
to_command_value (str s) = s
to_command_value (num n) = decimal n

-- `if (val)`: an empty string and zero are false.
unfoldable pub is_truthy : Value → Bool
is_truthy undefined = false
is_truthy (str s) = not (is_empty s)
is_truthy (num n) = not (n == 0)

pub record AnnotationProperties : Type 0 where
  pub title : Value
  pub file : Value
  pub start_line : Value
  pub end_line : Value
  pub start_column : Value
  pub end_column : Value

-- The argument is none where it has no key.
unfoldable pub to_command_properties : Option AnnotationProperties → List (Text × Value)
to_command_properties none = []
to_command_properties (some p) =
    (codes "title", p.title)
    ∷ (codes "file", p.file)
    ∷ (codes "line", p.start_line)
    ∷ (codes "endLine", p.end_line)
    ∷ (codes "col", p.start_column)
    ∷ (codes "endColumn", p.end_column)
    ∷ []

unfoldable pub escape_data : Value → Text
escape_data s =
    replace_all 10 (codes "%0A")
      (replace_all 13 (codes "%0D") (replace_all b'%' (codes "%25") (to_command_value s)))

unfoldable pub escape_property : Value → Text
unfolding escape_data
escape_property s = replace_all b',' (codes "%2C") (replace_all b':' (codes "%3A") (escape_data s))

abbrev pub cmd_string : Text
cmd_string = codes "::"

pub record Command : Type 0 where
  pub command : Text
  pub properties : List (Text × Value)
  pub message : Value

-- The constructor.
unfoldable pub new_command : Text → List (Text × Value) → Value → Command
new_command command properties message = record {
  command = if is_empty command then codes "missing.command" else command;
  properties = properties;
  message = message;
}

-- The loop over the properties; the flag is `first`.
unfoldable pub write_properties : Bool → List (Text × Value) → Text
write_properties first [] = []
write_properties first ((key, val) ∷ rest) = elim (is_truthy val) [
  | false ↦ write_properties first rest
  | true ↦
      (if first then [] else codes ",")
      ++ (key ++ (b'=' ∷ (escape_property val ++ write_properties false rest)))
]

unfoldable pub command_to_string : Command → Text
unfolding write_properties
command_to_string cmd =
    cmd_string
    ++ (cmd.command
        ++ ((if is_empty cmd.properties then [] else b' ' ∷ write_properties true cmd.properties)
            ++ (cmd_string ++ escape_data cmd.message)))

unfoldable pub issue_command : Host → Text → List (Text × Value) → Value → M (Unit {0})
unfolding new_command
issue_command h command properties message =
    perform (wrote (command_to_string (new_command command properties message) ++ h.eol))

unfoldable pub missing_variable : Text → Text
missing_variable command = codes "Unable to find environment variable for file command " ++ command

unfoldable pub missing_file : Text → Text
missing_file path = codes "Missing file at path: " ++ path

-- `fs.appendFileSync` on a file that exists.
unfoldable pub append_file : Text → Text → Text → M (Unit {0})
append_file path old more w = (ok tt, record w { files = update w.files path (some (old ++ more)) })

unfoldable pub append_if_exists : Host → Text → Value → Option Text → M (Unit {0})
append_if_exists h path message none = throw (plain_error (missing_file path))
append_if_exists h path message (some old) =
    append_file path old (to_command_value message ++ h.eol)

unfoldable pub issue_file_command : Host → Text → Value → M (Unit {0})
unfolding append_if_exists append_file
issue_file_command h command message w =
    let path = or_empty (w.env (codes "GITHUB_" ++ command)) in
    if is_empty path
    then (throw (plain_error (missing_variable command))) w
    else append_if_exists h path message (w.files path) w

-- `${process.env["PATH"]}`.
unfoldable pub shown : Option Text → Text
shown none = codes "undefined"
shown (some s) = s

unfoldable pub extend_path : Host → Text → M (Unit {0})
unfolding shown
extend_path h input_path w = (
  ok tt,
  record w {
    env =
        update w.env (codes "PATH")
          (some (input_path ++ (h.delimiter ∷ shown (w.env (codes "PATH")))));
  },
)

unfoldable pub add_path : Host → Text → M (Unit {0})
unfolding extend_path
add_path h input_path = do
  file_path ← get_env (codes "GITHUB_PATH")
  if is_empty (or_empty file_path)
      then issue_command h (codes "add-path") [] (str input_path)
      else issue_file_command h (codes "PATH") (str input_path)
  extend_path h input_path

-- The options of `getInput`.
pub record InputOptions : Type 0 where
  pub required : Bool
  pub trim_whitespace : Bool

-- The call without options: `options && …` is false both times.
abbrev pub no_options : InputOptions
no_options = record { required = false; trim_whitespace = true }

unfoldable pub missing_input : Text → Text
missing_input name = codes "Input required and not supplied: " ++ name

unfoldable pub get_input : Host → Text → InputOptions → M Text
get_input h name options = do
  found ← get_env (codes "INPUT_" ++ h.to_upper (replace_all b' ' (codes "_") name))
  let val = or_empty found
  if options.required && is_empty val
      then throw (plain_error (missing_input name))
      else pure (if not options.trim_whitespace then val else trim val)

unfoldable pub issue_error : Host → Value → Option AnnotationProperties → M (Unit {0})
unfolding to_command_properties
issue_error h message properties =
    issue_command h (codes "error") (to_command_properties properties) message

-- `process.exitCode = ExitCode.Failure`, which is 1, and the error as an annotation.
unfoldable pub set_exit_code : ℕ → M (Unit {0})
set_exit_code code w = (ok tt, record w { exit_code = some code })

unfoldable pub set_failed : Host → Text → M (Unit {0})
unfolding set_exit_code issue_error
set_failed h message = do set_exit_code 1; issue_error h (str message) none

unfoldable pub is_debug : World → Bool
is_debug w = text_eq (or_empty (w.env (codes "RUNNER_DEBUG"))) (codes "1")

unfoldable pub debug : Host → Text → M (Unit {0})
debug h message = issue_command h (codes "debug") [] (str message)

unfoldable pub info : Host → Text → M (Unit {0})
info h message = perform (wrote (message ++ h.eol))
