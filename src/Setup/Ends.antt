-- ===== src/Setup/Ends.antt =====
-- How `setup` ends: what its `catch` makes of the end of the body of the `try`.
use coherence_operator.Prelude.{◌≡◌, refl, ◌∙◌, ap, some, Text, codes, ◌++◌, ◌∷◌, []}
use coherence_operator.Runtime.{
  World, Host, Thrown, error, http_error, not_an_error, Result, ok, throws, pending, wrote, catch,
  to_string,
}
use coherence_operator.Command.{command_to_string, new_command, str}
use coherence_operator.Command.Effects.{set_failed_lem}
use coherence_operator.Setup.{run, report, setup}

-- The text of the error annotation.
abbrev pub failure : Thrown → Text
failure not_an_error = codes "unknown error during ORAS setup"
failure (error name message) = to_string (error name message)
failure (http_error status) = to_string (http_error status)

-- The state behind `setFailed`.
abbrev pub failed_with : Host → Text → World → World
failed_with h message w = record w {
  exit_code = some 1;
  trace =
      wrote (command_to_string (new_command (codes "error") [] (str message)) ++ h.eol) ∷ w.trace;
}

report_lem :
    (h : Host) → (e : Thrown) → (w : World) → report h e w ≡ (ok tt, failed_with h (failure e) w)
unfolding report
report_lem h not_an_error w = set_failed_lem h (failure not_an_error) w
report_lem h (error name message) w = set_failed_lem h (failure (error name message)) w
report_lem h (http_error status) w = set_failed_lem h (failure (http_error status)) w

module _ (h : Host) (w v : World) where
  -- A body that returns is the whole of `setup`.
  pub setup-ok : run h w ≡ (ok tt, v) → setup h w ≡ (ok tt, v)
  unfolding setup
  setup-ok hr = ap (λ (p : Result (Unit {0}) × World). catch (λ (x : World). p) (report h) w) hr

  -- An error in the body becomes one error annotation and the exit code 1; `setup` returns.
  pub setup-throws :
      (e : Thrown) → run h w ≡ (throws e, v) → setup h w ≡ (ok tt, failed_with h (failure e) v)
  unfolding setup
  setup-throws e hr =
      ap (λ (p : Result (Unit {0}) × World). catch (λ (x : World). p) (report h) w) hr
      ∙ report_lem h e v

  pub setup-pending : run h w ≡ (pending, v) → setup h w ≡ (pending, v)
  unfolding setup
  setup-pending hr =
      ap (λ (p : Result (Unit {0}) × World). catch (λ (x : World). p) (report h) w) hr

-- What the end of `run` makes of the whole program.
abbrev pub IsReported : Host → Result (Unit {0}) × World → Result (Unit {0}) × World → Type 0
IsReported h (ok tt, v) end = end ≡ (ok tt, v)
IsReported h (throws e, v) end = end ≡ (ok tt, failed_with h (failure e) v)
IsReported h (pending, v) end = end ≡ (pending, v)

reported :
    (h : Host)
    → (w : World) → (r : Result (Unit {0})) → (v : World) → run h w ≡ (r, v)
    → IsReported h (r, v) (setup h w)
reported h w (ok tt) v hr = setup-ok h w v hr
reported h w (throws e) v hr = setup-throws h w v e hr
reported h w pending v hr = setup-pending h w v hr

-- `setup` never throws. If the body of the `try` returns, that is the end; if it throws, `setup` returns with
-- the exit code 1 and one error annotation that carries the message, and everything else is as the body left it; if
-- the body never settles, nor does `setup`.
pub setup-IsReported : (h : Host) → (w : World) → IsReported h (run h w) (setup h w)
setup-IsReported h w = reported h w (run h w).0 (run h w).1 refl
