-- ===== src/Exec/Runner.antt =====
-- The class `ToolRunner` and the function `exec`: how a command is found, shown, started and
-- awaited. The listeners of the action append to one text, which `heard` returns; the events that reach the
-- parent after the end of a command are handled before the action goes on.
use coherence_operator.Prelude.{
  ℕ, List, [], ◌∷◌, ◌++◌, Option, none, some, Bool, true, false, not, ◌&&◌, ◌||◌, Text, codes,
  is_empty, includes, ends_with, if◌then◌else◌,
}
use coherence_operator.Runtime.{
  World, Host, ChildEvent, stdout, stderr, M, ◌>>=◌, ◌>>◌, ok, throws, pending, pure, throw,
  throw_if, perform, wrote, wrote_to_stderr, spawned, plain_error, or_empty,
}
use coherence_operator.Io.{is_windows, is_rooted, which, exists}
use coherence_operator.Exec.ArgString.{arg_string_to_array}
use coherence_operator.Exec.Quote.{windows_quote_cmd_arg}
use coherence_operator.Exec.State.{new_state, handle_all}

-- The options that the action gives, with the defaults of `_cloneExecOptions` for the others. An
-- empty `cwd` is none.
pub record Options : Type 0 where
  pub silent : Bool
  pub ignore_return_code : Bool
  pub fail_on_std_err : Bool
  pub windows_verbatim_arguments : Bool
  pub cwd : Option Text

abbrev pub default_options : Options
default_options = record {
  silent = false;
  ignore_return_code = false;
  fail_on_std_err = false;
  windows_verbatim_arguments = false;
  cwd = none;
}

unfoldable pub is_cmd_file : Host → Text → Bool
is_cmd_file h tool_path =
    let upper = h.to_upper tool_path in
    ends_with upper (codes ".CMD") || ends_with upper (codes ".BAT")

-- `process.env["COMSPEC"] || "cmd.exe"`.
unfoldable pub command_shell : World → Text
command_shell w =
    let shell = or_empty (w.env (codes "COMSPEC")) in
    if is_empty shell then codes "cmd.exe" else shell

unfoldable pub get_spawn_file_name : Host → World → Text → Text
unfolding command_shell
get_spawn_file_name h w tool_path =
    if is_windows h && is_cmd_file h tool_path then command_shell w else tool_path

-- The arguments, each behind a blank.
unfoldable pub spaced : (Text → Text) → List Text → Text
spaced show [] = []
spaced show (a ∷ args) = b' ' ∷ (show a ++ spaced show args)

abbrev pub as_is : Text → Text
as_is a = a

unfoldable pub get_spawn_args : Host → Text → List Text → Options → List Text
unfolding spaced
get_spawn_args h tool_path args options =
    if is_windows h && is_cmd_file h tool_path
    then (codes "/D /S /C \""
        ++ (windows_quote_cmd_arg true tool_path
            ++ (spaced
                  (if options.windows_verbatim_arguments then as_is else windows_quote_cmd_arg true)
                  args
                ++ codes "\"")))
      ∷ []
    else args

unfoldable pub get_command_string : Host → World → Text → List Text → Options → Text
unfolding get_spawn_file_name get_spawn_args spaced
get_command_string h w tool_path args options =
    let file = get_spawn_file_name h w tool_path in
    let spawn_args = get_spawn_args h tool_path args options in
    codes "[command]"
    ++ (if is_windows h
        then if is_cmd_file h tool_path
          then file ++ spaced as_is spawn_args
          else if options.windows_verbatim_arguments
          then b'"' ∷ (file ++ (b'"' ∷ spaced as_is spawn_args))
          else windows_quote_cmd_arg false file ++ spaced (windows_quote_cmd_arg false) spawn_args
        else file ++ spaced as_is spawn_args)

-- What the handlers of the streams write and what the listeners hear.
unfoldable pub write_all : Options → List ChildEvent → M (Unit {0})
write_all options [] = pure tt
write_all options (stdout chunk ∷ events) = do
  if options.silent then pure tt else perform (wrote chunk)
  write_all options events
write_all options (stderr chunk ∷ events) = do
  if options.silent
      then pure tt
      else perform (if options.fail_on_std_err then wrote_to_stderr chunk else wrote chunk)
  write_all options events
write_all options (e ∷ events) = write_all options events

unfoldable pub heard : List ChildEvent → Text
heard [] = []
heard (stdout chunk ∷ events) = chunk ++ heard events
heard (stderr chunk ∷ events) = chunk ++ heard events
heard (e ∷ events) = heard events

pub record Output : Type 0 where
  pub exit_code : Option ℕ
  pub text : Text

-- The promise: the first `done` event settles it.
unfoldable pub settle : List (Option Text × Option ℕ) → Text → M Output
settle [] text w = (pending, w)
settle ((none, code) ∷ rest) text w = (ok (record { exit_code = code; text = text }), w)
settle ((some message, code) ∷ rest) text w = (throws (plain_error message), w)

unfoldable pub await_child : Text → Options → List ChildEvent → M Output
unfolding write_all heard settle
await_child tool_path options events = do
  write_all options events
  let execution =
      handle_all
        (record {
          ignore_return_code = options.ignore_return_code;
          fail_on_std_err = options.fail_on_std_err;
        })
        tool_path events new_state
  settle execution.emitted (heard events)

-- `child.spawn`.
unfoldable pub start_child : Host → Text → List Text → Option Text → M (List ChildEvent)
start_child h file args cwd w =
    let run = h.spawn w file args cwd in
    (ok run.events, record w { files = run.files; trace = spawned file args cwd ∷ w.trace })

unfoldable pub missing_cwd : Text → Text
missing_cwd cwd = codes "The cwd: " ++ (cwd ++ codes " does not exist!")

-- The test of `options.cwd`. An error of `exists` is lost in the asynchronous executor, and the
-- promise is never settled.
unfoldable pub check_cwd : Host → Option Text → M (Unit {0})
check_cwd h none w = (ok tt, w)
check_cwd h (some cwd) w = elim ((exists h cwd w).0) [
  | ok true ↦ (ok tt, w)
  | ok false ↦ (throws (plain_error (missing_cwd cwd)), w)
  | throws e ↦ (pending, w)
  | pending ↦ (pending, w)
]

unfoldable pub show_command : Host → Text → List Text → Options → M (Unit {0})
unfolding get_command_string
show_command h tool_path args options w =
    (if options.silent
        then pure tt
        else perform (wrote (get_command_string h w tool_path args options ++ h.eol)))
      w

unfoldable pub spawn_tool : Host → Text → List Text → Options → M Output
unfolding start_child check_cwd show_command await_child get_spawn_file_name get_spawn_args
spawn_tool h tool_path args options = do
  show_command h tool_path args options
  check_cwd h options.cwd
  events ← λ w.
      start_child h (get_spawn_file_name h w tool_path) (get_spawn_args h tool_path args options)
        options.cwd w
  await_child tool_path options events

-- `options.cwd || process.cwd()`.
abbrev pub cwd_of : Host → Option Text → Text
cwd_of h none = h.cwd
cwd_of h (some cwd) = cwd

-- `new ToolRunner(…).exec()`.
unfoldable pub run_tool : Host → Text → List Text → Options → M Output
unfolding spawn_tool
run_tool h tool_path args options = do
  throw_if (is_empty tool_path)
      (plain_error (codes "Parameter 'toolPath' cannot be null or empty."))
  rooted ← is_rooted h tool_path
  located ←
      which h
        (if not rooted && (includes tool_path b'/' || is_windows h && includes tool_path b'\\')
          then h.resolve h.cwd (cwd_of h options.cwd) tool_path
          else tool_path)
        true
  spawn_tool h located args options

unfoldable pub exec_words : Host → List Text → List Text → Options → M Output
unfolding run_tool
exec_words h [] args options =
    throw (plain_error (codes "Parameter 'commandLine' cannot be null or empty."))
exec_words h (tool_path ∷ rest) args options = run_tool h tool_path (rest ++ args) options

unfoldable pub exec : Host → Text → List Text → Options → M Output
unfolding exec_words
exec h command_line args options = exec_words h (arg_string_to_array command_line) args options
