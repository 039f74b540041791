-- ===== src/Exec/State.antt =====
-- `ExecState` and the event handlers of `ToolRunner.exec`: when a command is done, and with what
-- result. The debug messages of the class go to listeners that the action does not set.
pub mod Once
mod Tests
use coherence_operator.Prelude.{
  ℕ, List, [], ◌∷◌, ◌++◌, Option, none, some, Bool, true, false, not, ◌&&◌, Text, codes, is_empty,
  ◌==◌, if◌then◌else◌,
}
use coherence_operator.Runtime.{
  ChildEvent, stdout, stderr, failed_to_start, exited, closed, timed_out, decimal,
}

-- The options that decide the result.
pub record ExecOptions : Type 0 where
  pub ignore_return_code : Bool
  pub fail_on_std_err : Bool

-- `emitted` holds the `done` events with their error message and exit code, and `timer` says whether
-- `timeout` is set. A code is none where Node.js passes null.
pub record ExecState : Type 0 where
  pub process_closed : Bool
  pub process_error : Text
  pub process_exit_code : Option ℕ
  pub process_exited : Bool
  pub process_stderr : Bool
  pub done : Bool
  pub timer : Bool
  pub emitted : List (Option Text × Option ℕ)

-- The constructor.
abbrev pub new_state : ExecState
new_state = record {
  process_closed = false;
  process_error = [];
  process_exit_code = some 0;
  process_exited = false;
  process_stderr = false;
  done = false;
  timer = false;
  emitted = [];
}

unfoldable pub could_not_start : Text → Text → Text
could_not_start tool_path message =
    codes "There was an error when attempting to execute the process '"
    ++ (tool_path ++ (codes "'. This may indicate the process failed to start. Error: " ++ message))

unfoldable pub show_code : Option ℕ → Text
show_code none = codes "null"
show_code (some code) = decimal code

unfoldable pub failed_with_code : Text → Option ℕ → Text
failed_with_code tool_path code =
    codes "The process '" ++ (tool_path ++ (codes "' failed with exit code " ++ show_code code))

unfoldable pub wrote_to_stderr : Text → Text
wrote_to_stderr tool_path =
    codes "The process '"
    ++ (tool_path ++ codes "' failed because one or more lines were written to the STDERR stream")

-- `code === 0`.
unfoldable pub is_success : Option ℕ → Bool
is_success none = false
is_success (some code) = code == 0

module _ (options : ExecOptions) (tool_path : Text) where
  -- The error of `_setResult`.
  unfoldable pub verdict : ExecState → Option Text
  verdict s =
      if not s.process_exited
      then none
      else if not (is_empty s.process_error)
      then some (could_not_start tool_path s.process_error)
      else if not (is_success s.process_exit_code) && not options.ignore_return_code
      then some (failed_with_code tool_path s.process_exit_code)
      else if s.process_stderr && options.fail_on_std_err
      then some (wrote_to_stderr tool_path)
      else none

  unfoldable pub set_result : ExecState → ExecState
  set_result s = record s {
    timer = false;
    done = true;
    emitted = s.emitted ++ (verdict s, s.process_exit_code) ∷ [];
  }

  unfoldable pub check_complete : ExecState → ExecState
  unfolding set_result
  check_complete s =
      if s.done
      then s
      else if s.process_closed
      then set_result s
      else if s.process_exited
      then record s { timer = true }
      else s

  unfoldable pub handle_timeout : ExecState → ExecState
  unfolding set_result
  handle_timeout s = if s.done then s else set_result s

  -- One event. The `done` handler removes the listeners of the child process, but not those of its
  -- streams; a timer that is not set does not end.
  unfoldable pub handle : ChildEvent → ExecState → ExecState
  unfolding check_complete handle_timeout
  handle (stdout chunk) s = s
  handle (stderr chunk) s = record s { process_stderr = true }
  handle (failed_to_start message) s =
      if s.done
      then s
      else check_complete
          (record s { process_error = message; process_exited = true; process_closed = true })
  handle (exited code) s =
      if s.done
      then s
      else check_complete (record s { process_exit_code = code; process_exited = true })
  handle (closed code) s =
      if s.done
      then s
      else check_complete
          (record s { process_exit_code = code; process_exited = true; process_closed = true })
  handle timed_out s = if s.timer then handle_timeout s else s

  unfoldable pub handle_all : List ChildEvent → ExecState → ExecState
  handle_all [] s = s
  handle_all (e ∷ events) s = handle_all events (handle e s)
