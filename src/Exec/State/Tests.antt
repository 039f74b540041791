-- ===== src/Exec/State/Tests.antt =====
-- Runs of a command's events, and the theorems about them at concrete inputs.
use coherence_operator.Prelude.{◌≡◌, refl, List, [], ◌∷◌, none, some, codes, false}
use coherence_operator.Runtime.{ChildEvent, stderr, exited, closed, timed_out}
use coherence_operator.Exec.State.{ExecOptions, new_state, handle_all, handle, verdict, is_success}
use coherence_operator.Exec.State.Once.{IsSettled, handle_all-IsSettled}

abbrev strict : ExecOptions
strict = record { ignore_return_code = false; fail_on_std_err = false }

abbrev late_close : List ChildEvent
late_close = stderr (codes "x") ∷ exited (some 0) ∷ timed_out ∷ closed (some 0) ∷ timed_out ∷ []

late_close_run :
    (handle_all strict (codes "tar") late_close new_state).emitted ≡ (none, some 0) ∷ []
unfolding handle_all handle verdict is_success
late_close_run = refl

handle_all-IsSettled_example :
    IsSettled strict
      (codes "tar")
      (handle_all strict (codes "tar") late_close new_state).done
      (handle_all strict (codes "tar") late_close new_state).emitted
handle_all-IsSettled_example = handle_all-IsSettled strict (codes "tar") late_close
