-- ===== src/Command/Tame.antt =====
-- Debug messages, lines of output and the reading of an input start no process, leave the environment
-- and the exit code alone, and come to an end.
use coherence_operator.Prelude.{refl, codes, Text, ◌++◌, replace_all, trim}
use coherence_operator.Runtime.{Host, or_empty}
use coherence_operator.Runtime.Obey.{>>=-Obeys, pure-Obeys}
use coherence_operator.Runtime.Quiet.{IsTame, tame_law, spawns, perform-IsTame, reads-IsTame}
use coherence_operator.Command.{debug, info, get_input, no_options, issue_command}

module _ {P : Type 0} (h : Host) where
  pub debug-IsTame : (message : Text) → IsTame P (debug h message)
  unfolding debug issue_command spawns
  debug-IsTame message = perform-IsTame _ λ es. refl

  pub info-IsTame : (message : Text) → IsTame P (info h message)
  unfolding info spawns
  info-IsTame message = perform-IsTame _ λ es. refl

  pub get_input-IsTame : (name : Text) → IsTame P (get_input h name no_options)
  unfolding get_input
  get_input-IsTame name =
      >>=-Obeys
        (reads-IsTame λ w. w.env (codes "INPUT_" ++ h.to_upper (replace_all b' ' (codes "_") name)))
        λ found. pure-Obeys (trim (or_empty found))
