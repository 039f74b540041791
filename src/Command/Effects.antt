-- ===== src/Command/Effects.antt =====
-- What `addPath`, `setFailed` and `getInput` leave behind.
use coherence_operator.Prelude.{
  ◌≡◌, ◌∙◌, none, refl, ◌≢◌, [], ◌∷◌, ◌++◌, Option, some, Text, codes, text_eq_iff, text_eq_refl,
  Option-cases, arith, ◌⊎◌, inl, inr,
}
use coherence_operator.Runtime.{
  World, Host, Thrown, Result, ok, throws, plain_error, ◌>>◌, wrote, or_empty, update,
}
use coherence_operator.Prelude.{ℕ}
use coherence_operator.Runtime.Laws.{>>=-ok, >>=-throws}
use coherence_operator.Command.{
  Value, missing_file, to_command_value, add_path, issue_command, issue_file_command, append_file,
  extend_path, shown, set_failed, new_command, str, command_to_string,
}

-- A write of an environment variable is read back, and changes no other.
pub update_lem :
    (f : Text → Option Text) (key k : Text) (v : Option Text)
    → (update f key v key ≡ v) × ((k ≢ key) → update f key v k ≡ f k)
update_lem f key k v = (rw text_eq_refl, λ ne. ground (arith, text_eq_iff k key))

module _ (h : Host) (command : Text) (message : Value) (w : World) {c : ℕ} {path : Text}
    (given : w.env (codes "GITHUB_" ++ command) ≡ some (c ∷ path)) where
  issue_file_command_present :
      {old : Text}
      → w.files (c ∷ path) ≡ some old
      → issue_file_command h command message w
        ≡ append_file (c ∷ path) old (to_command_value message ++ h.eol) w
  unfolding issue_file_command
  issue_file_command_present there = rw (given, there)

  issue_file_command_absent :
      w.files (c ∷ path) ≡ none
      → issue_file_command h command message w ≡ (throws (plain_error (missing_file (c ∷ path))), w)
  unfolding issue_file_command
  issue_file_command_absent absent = rw (given, absent)

-- The runner reads the new directory from a file, or where there is none from a command.
abbrev pub Announced : Host → Text → World → World → Type 0
Announced h input_path w w' =
    ((path old : Text) × (w.env (codes "GITHUB_PATH") ≡ some path)
      × (w.files path ≡ some old)
      × (w'.files ≡ update w.files path (some (old ++ (input_path ++ h.eol))))
      × (w'.trace ≡ w.trace))
    ⊎ (or_empty (w.env (codes "GITHUB_PATH")) ≡ [])
      × (w'.files ≡ w.files)
      × (w'.trace
          ≡ wrote (command_to_string (new_command (codes "add-path") [] (str input_path)) ++ h.eol)
            ∷ w.trace)

-- What a call of `addPath` may come to.
abbrev pub IsPathAdded : Host → Text → World → Result (Unit {0}) × World → Type 0
IsPathAdded h input_path w (r, w') =
    (r ≡ ok tt)
      × (w'.env
          ≡ update w.env (codes "PATH")
              (some (input_path ++ (h.delimiter ∷ shown (w.env (codes "PATH"))))))
      × (w'.exit_code ≡ w.exit_code)
      × Announced h input_path w w'
    ⊎ ((e : Thrown) × (r ≡ throws e) × (w' ≡ w))

module _ (h : Host) (input_path : Text) (w : World) where
  add_path_by_command :
      or_empty (w.env (codes "GITHUB_PATH")) ≡ []
      → add_path h input_path w
        ≡ (issue_command h (codes "add-path") [] (str input_path) >> extend_path h input_path) w
  unfolding add_path
  add_path_by_command empty = rw empty

  add_path_by_file :
      {c : ℕ} {path : Text}
      → w.env (codes "GITHUB_PATH") ≡ some (c ∷ path)
      → add_path h input_path w
        ≡ (issue_file_command h (codes "PATH") (str input_path) >> extend_path h input_path) w
  unfolding add_path
  add_path_by_file given = rw given

  by_command :
      or_empty (w.env (codes "GITHUB_PATH")) ≡ []
      → IsPathAdded h input_path w (add_path h input_path w)
  unfolding issue_command extend_path
  by_command empty =
      rw (add_path_by_command empty) (inl (refl, refl, refl, inr (empty, refl, refl)))

-- If `addPath` returns, the directory was announced to the runner and stands before the old search
-- path, every other environment variable and the exit code are as they were; if it throws, the
-- process is as it was.
pub add_path-IsPathAdded :
    (h : Host) (input_path : Text) (w : World)
    → IsPathAdded h input_path w (add_path h input_path w)
unfolding append_file extend_path to_command_value
add_path-IsPathAdded h input_path w = elim (Option-cases (w.env (codes "GITHUB_PATH"))) [
  | inl absent ↦ by_command h input_path w (rw absent)
  | inr ([], empty) ↦ by_command h input_path w (rw empty)
  | inr ((c ∷ path), given) ↦ elim (Option-cases (w.files (c ∷ path))) [
    | inl absent ↦
        let stopped = issue_file_command_absent h (codes "PATH") (str input_path) w given absent in
        rw
          (add_path_by_file h input_path w given
            ∙ >>=-throws (issue_file_command h (codes "PATH") (str input_path))
                (λ _. extend_path h input_path) w stopped)
          (inr (_, refl, refl))
    | inr (old, there) ↦
        let appended = issue_file_command_present h (codes "PATH") (str input_path) w given there in
        rw
          (add_path_by_file h input_path w given
            ∙ >>=-ok (issue_file_command h (codes "PATH") (str input_path))
                (λ _. extend_path h input_path) w appended)
          (inl (refl, refl, refl, inl (c ∷ path, old, given, there, refl, refl)))
  ]
]

-- `setFailed` sets the exit code to 1 and writes one error command with the message; it always returns, and changes
-- neither the environment nor a file.
pub set_failed_lem :
    (h : Host) (message : Text) (w : World)
    → set_failed h message w ≡ (
      ok tt,
      record w {
        exit_code = some 1;
        trace =
            wrote (command_to_string (new_command (codes "error") [] (str message)) ++ h.eol)
            ∷ w.trace;
      },
    )
unfolding set_failed issue_command
set_failed_lem h message w = refl
