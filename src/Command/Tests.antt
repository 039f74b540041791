-- ===== src/Command/Tests.antt =====
-- Runs of the workflow commands, and the theorems about them at concrete inputs.
use coherence_operator.Prelude.{
  ◌≡◌, refl, [], ◌∷◌, codes, text_eq, replace_all, trim, is_space, arith,
}
use coherence_operator.Runtime.{ok, decimal}
use coherence_operator.Runtime.Sample.{sample_host, sample_world}
use coherence_operator.Command.{
  Command, str, num, undefined, to_command_value, escape_data, escape_property, command_to_string,
  new_command, get_input, no_options, add_path, is_truthy,
}
use coherence_operator.Command.Escape.{unescape, unescape-escape, IsOneLine}
use coherence_operator.Command.Line.{command_to_string-IsOneLine}
use coherence_operator.Command.Effects.{IsPathAdded, add_path-IsPathAdded}

printed :
    command_to_string (
      new_command
        (codes "error")
        ((codes "title", undefined)
          ∷ (codes "line", num 12)
          ∷ (codes "file", str (codes "a:b"))
          ∷ [])
        (str (codes "50%\n")))
    ≡ codes "::error line=12,file=a%3Ab::50%25%0A"
unfolding command_to_string new_command is_truthy escape_property escape_data replace_all
    to_command_value decimal
printed = refl

trimmed_input :
    (get_input sample_host (codes "version") no_options sample_world).0 ≡ ok (codes "1.3.1")
unfolding get_input replace_all trim text_eq is_space
trimmed_input = refl

unescape-escape_example :
    (unescape (escape_data (str (codes "100%\r\n"))) ≡ to_command_value (str (codes "100%\r\n")))
    × (unescape (escape_property (str (codes "100%\r\n")))
        ≡ to_command_value (str (codes "100%\r\n")))
unescape-escape_example = unescape-escape (str (codes "100%\r\n"))

abbrev injected : Command
injected = record {
  command = codes "error";
  properties = (codes "title", str (codes "x\n::add-path::/evil")) ∷ [];
  message = str (codes "a\r\n::add-path::/evil");
}

command_to_string-IsOneLine_example : IsOneLine (command_to_string injected)
command_to_string-IsOneLine_example =
    command_to_string-IsOneLine injected (omega arith) (omega arith)

add_path-IsPathAdded_example :
    IsPathAdded sample_host
      (codes "/tmp/id")
      sample_world
      (add_path sample_host (codes "/tmp/id") sample_world)
add_path-IsPathAdded_example = add_path-IsPathAdded sample_host (codes "/tmp/id") sample_world
