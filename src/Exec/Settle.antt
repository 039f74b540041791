-- ===== src/Exec/Settle.antt =====
-- A command comes to an end if its child process does.
use coherence_operator.Prelude.{
  ℕ, ◌≡◌, ◌≢◌, List, [], ◌∷◌, ◌++◌, Option, none, some, Bool, true, false, any, Text, inl, inr,
}
use coherence_operator.Runtime.{
  World, Host, Thrown, ChildEvent, stdout, stderr, failed_to_start, exited, closed, timed_out,
  no_reply, ◌>>=◌, unreadable,
}
use coherence_operator.Runtime.Obey.{
  pure-Obeys, throw-Obeys, if-Obeys, throw_if-Obeys, >>=-Obeys, >>-Obeys,
}
use coherence_operator.Runtime.Settle.{Settles, perform-Settles, settling_law}
use coherence_operator.Io.{exists}
use coherence_operator.Io.Settle.{StatResult-cases, is_rooted-Settles, which-Settles}
use coherence_operator.Exec.ArgString.{arg_string_to_array}
use coherence_operator.Exec.State.{ExecOptions, handle_all, new_state}
use coherence_operator.Exec.State.Once.{
  is_final, IsSettled, handle_all-IsSettled, handle_all_finishes,
}
use coherence_operator.Exec.Runner.{
  Options, write_all, heard, settle, await_child, start_child, check_cwd, show_command, spawn_tool,
  get_spawn_file_name, get_spawn_args, run_tool, exec_words, exec,
}

-- Every child process fails to start or closes its streams at last, each request is answered or fails,
-- and the state of a file can be read.
pub record IsResponsive (h : Host) : Type 0 where
  pub ends :
      (w : World)
      → (file : Text) → (args : List Text) → (cwd : Option Text)
      → any is_final (h.spawn w file args cwd).events ≡ true
  pub answers : (w : World) → (url : Text) → h.http_get w url ≢ no_reply
  pub reads : (w : World) → (path : Text) → (e : Thrown) → h.stat w path ≢ unreadable e

write_all-Settles :
    (options : Options) → (events : List ChildEvent) → Settles (write_all options events)
unfolding write_all
write_all-Settles options [] = pure-Obeys tt
write_all-Settles options (stdout chunk ∷ events) =
    >>-Obeys (if-Obeys _ (pure-Obeys tt) (perform-Settles _)) (write_all-Settles options events)
write_all-Settles options (stderr chunk ∷ events) =
    >>-Obeys (if-Obeys _ (pure-Obeys tt) (perform-Settles _)) (write_all-Settles options events)
write_all-Settles options (failed_to_start message ∷ events) = write_all-Settles options events
write_all-Settles options (exited code ∷ events) = write_all-Settles options events
write_all-Settles options (closed code ∷ events) = write_all-Settles options events
write_all-Settles options (timed_out ∷ events) = write_all-Settles options events

settle-Settles :
    (options : ExecOptions) (tool_path : Text) (done : Bool)
    (emitted : List (Option Text × Option ℕ)) (text : Text)
    → done ≡ true
    → IsSettled options tool_path done emitted
    → Settles (settle emitted text)
unfolding settle
settle-Settles options tool_path false emitted text d s = cc
settle-Settles options tool_path true [] text d never = elim never [ ]
settle-Settles options tool_path true ((none, code) ∷ rest) text d s = record { obeys = λ w. tt }
settle-Settles options tool_path true ((some message, code) ∷ rest) text d s = record {
  obeys = λ w. tt;
}

await_child-Settles :
    (tool_path : Text) (options : Options) (events : List ChildEvent)
    → any is_final events ≡ true
    → Settles (await_child tool_path options events)
unfolding await_child
await_child-Settles tool_path options events final =
    let exec_options : ExecOptions = record {
      ignore_return_code = options.ignore_return_code;
      fail_on_std_err = options.fail_on_std_err;
    } in
    >>-Obeys (write_all-Settles options events) (
      settle-Settles exec_options tool_path
        (handle_all exec_options tool_path events new_state).done
        (handle_all exec_options tool_path events new_state).emitted (heard events)
        (handle_all_finishes exec_options tool_path events new_state final)
        (handle_all-IsSettled exec_options tool_path events))

check_cwd-Settles : (h : Host) → IsResponsive h → (cwd : Option Text) → Settles (check_cwd h cwd)
unfolding check_cwd exists
check_cwd-Settles h responsive none = record { obeys = λ w. tt }
check_cwd-Settles h responsive (some cwd) = record {
  obeys = λ w. elim (StatResult-cases (h.stat w cwd)) [
    | inl (stats, e) ↦ rw (e, check_cwd) tt
    | inr (inl e) ↦ rw (e, check_cwd) tt
    | inr (inr (err, e)) ↦ absurd (responsive.reads w cwd err e)
  ];
}

show_command-Settles :
    (h : Host)
    → (tool_path : Text) → (args : List Text) → (options : Options)
    → Settles (show_command h tool_path args options)
unfolding show_command
show_command-Settles h tool_path args options = record {
  obeys = λ w. (if-Obeys options.silent (pure-Obeys tt) (perform-Settles _)).obeys w;
}

module _ (h : Host) (responsive : IsResponsive h) where
  started-Settles :
      (tool_path : Text)
      → (file : World → Text) → (args : List Text) → (options : Options)
      → Settles ((λ w. start_child h (file w) args options.cwd w) >>= await_child tool_path options)
  unfolding start_child
  started-Settles tool_path file args options = record {
    obeys = λ w.
        (await_child-Settles tool_path options (h.spawn w (file w) args options.cwd).events
            (responsive.ends w (file w) args options.cwd)).obeys
          (start_child h (file w) args options.cwd w).1;
  }

  spawn_tool-Settles :
      (tool_path : Text)
      → (args : List Text) → (options : Options) → Settles (spawn_tool h tool_path args options)
  unfolding spawn_tool
  spawn_tool-Settles tool_path args options =
      >>-Obeys (show_command-Settles h tool_path args options) (
        >>-Obeys (check_cwd-Settles h responsive options.cwd) (
          started-Settles tool_path (λ w. get_spawn_file_name h w tool_path)
            (get_spawn_args h tool_path args options) options))

  run_tool-Settles :
      (tool_path : Text)
      → (args : List Text) → (options : Options) → Settles (run_tool h tool_path args options)
  unfolding run_tool
  run_tool-Settles tool_path args options = >>-Obeys (throw_if-Obeys _ _) (
      >>=-Obeys (is_rooted-Settles h tool_path) λ rooted.
        >>=-Obeys (which-Settles h _ true) λ located. spawn_tool-Settles located args options)

  exec_words-Settles :
      (words args : List Text) → (options : Options) → Settles (exec_words h words args options)
  unfolding exec_words
  exec_words-Settles [] args options = throw-Obeys _
  exec_words-Settles (tool_path ∷ rest) args options =
      run_tool-Settles tool_path (rest ++ args) options

  -- `exec` comes to an end on a responsive host.
  pub exec-Settles :
      (command_line : Text)
      → (args : List Text) → (options : Options) → Settles (exec h command_line args options)
  unfolding exec
  exec-Settles command_line args options =
      exec_words-Settles (arg_string_to_array command_line) args options
