-- ===== src/Command/Settle.antt =====
-- Workflow commands and inputs come to an end.
use coherence_operator.Prelude.{
  List, ◌++◌, Option, none, some, Text, codes, [], Bool-cases, inl, inr, is_empty,
}
use coherence_operator.Runtime.{Host, or_empty}
use coherence_operator.Runtime.Obey.{throw-Obeys, if-Obeys, >>=-Obeys, >>-Obeys}
use coherence_operator.Runtime.Settle.{get_env-Settles, Settles, perform-Settles, settling_law}
use coherence_operator.Command.{
  Value, add_path, issue_command, append_if_exists, append_file, issue_file_command, extend_path,
  str,
}

issue_command-Settles :
    (h : Host)
    → (command : Text) → (properties : List (Text × Value)) → (message : Value)
    → Settles (issue_command h command properties message)
unfolding issue_command
issue_command-Settles h command properties message = perform-Settles _

append_if_exists-Settles :
    (h : Host)
    → (path : Text) → (message : Value) → (old : Option Text)
    → Settles (append_if_exists h path message old)
unfolding append_if_exists append_file
append_if_exists-Settles h path message none = throw-Obeys _
append_if_exists-Settles h path message (some old) = record { obeys = λ w. tt }

issue_file_command-Settles :
    (h : Host)
    → (command : Text) → (message : Value) → Settles (issue_file_command h command message)
unfolding issue_file_command
issue_file_command-Settles h command message = record {
  obeys = λ w. elim (Bool-cases (is_empty (or_empty (w.env (codes "GITHUB_" ++ command))))) [
    | inl unset ↦ rw (unset, issue_file_command) tt
    | inr given ↦
        let path = or_empty (w.env (codes "GITHUB_" ++ command)) in
        rw (given, issue_file_command)
          ((append_if_exists-Settles h path message (w.files path)).obeys w)
  ];
}

extend_path-Settles : (h : Host) → (path : Text) → Settles (extend_path h path)
unfolding extend_path
extend_path-Settles h path = record { obeys = λ w. tt }

pub add_path-Settles : (h : Host) → (path : Text) → Settles (add_path h path)
unfolding add_path
add_path-Settles h path = >>=-Obeys (get_env-Settles (codes "GITHUB_PATH")) λ file_path.
    >>-Obeys
      (if-Obeys (is_empty (or_empty file_path))
        (issue_command-Settles h (codes "add-path") [] (str path))
        (issue_file_command-Settles h (codes "PATH") (str path)))
      (extend_path-Settles h path)
