-- ===== src/Exec/State/Once.antt =====
-- A command is done at most once, and at the latest when its streams are closed.
use coherence_operator.Prelude.{
  ℕ, ◌≡◌, refl, ap, ◌⊎◌, inl, inr, List, [], ◌∷◌, ◌++◌, Option, none, some, Bool, true, false, not,
  ◌&&◌, any, Text, if◌then◌else◌, arith, Bool-cases,
}
use coherence_operator.Runtime.{
  ChildEvent, stdout, stderr, failed_to_start, exited, closed, timed_out,
}
use coherence_operator.Exec.State.{
  ExecOptions, ExecState, new_state, verdict, set_result, check_complete, handle_timeout, handle,
  handle_all, is_success,
}

-- The events that must end a command.
abbrev pub is_final : ChildEvent → Bool
is_final (closed code) = true
is_final (failed_to_start message) = true
is_final e = false

module _ (options : ExecOptions) (tool_path : Text) where
  -- A result without an error is for the exit code 0, if the exit code counts.
  abbrev pub IsHonest : Option Text × Option ℕ → Type 0
  IsHonest (none, code) = (options.ignore_return_code ≡ true) ⊎ (code ≡ some 0)
  IsHonest (some message, code) = Unit

  -- What has been emitted: nothing before the state is done, one honest result after.
  abbrev pub IsSettled : Bool → List (Option Text × Option ℕ) → Type 0
  IsSettled false [] = Unit
  IsSettled false (r ∷ rs) = ⊥
  IsSettled true [] = ⊥
  IsSettled true (r ∷ []) = IsHonest r
  IsSettled true (r ∷ s ∷ rs) = ⊥

  IsSettled-add :
      (rs : List (Option Text × Option ℕ)) (r : Option Text × Option ℕ)
      → IsSettled false rs
      → IsHonest r
      → IsSettled true (rs ++ r ∷ [])
  IsSettled-add [] r h k = k
  IsSettled-add (q ∷ rs) r h k = absurd h

  is_success_sound : (code : Option ℕ) → is_success code ≡ true → code ≡ some 0
  unfolding is_success
  is_success_sound none h = cc
  is_success_sound (some code) h = ap some (ground arith)

  verdict_sound :
      (s : ExecState)
      → s.process_exited ≡ true
      → verdict options tool_path s ≡ none
      → (options.ignore_return_code ≡ true) ⊎ (s.process_exit_code ≡ some 0)
  unfolding verdict
  verdict_sound s e v = elim (Bool-cases (is_success s.process_exit_code)) [
    | inl good ↦ inr (is_success_sound s.process_exit_code good)
    | inr bad ↦ ground arith
  ]

  honest :
      (v : Option Text) (s : ExecState)
      → verdict options tool_path s ≡ v
      → s.process_exited ≡ true
      → IsHonest (v, s.process_exit_code)
  honest none s v e = verdict_sound s e v
  honest (some message) s v e = tt

  record IsSound (s : ExecState) : Type 0 where
    settled : IsSettled s.done s.emitted
    closed_after_exit : (s.process_closed && not s.process_exited) ≡ false
    timer_after_exit : (s.timer && not s.process_exited) ≡ false

  set_result-IsSound :
      (s : ExecState)
      → s.done ≡ false
      → s.process_exited ≡ true
      → IsSound s
      → IsSound (set_result options tool_path s)
  unfolding set_result
  set_result-IsSound s d e i = record {
    settled = IsSettled-add s.emitted _ (rw d at i.settled) (honest _ s refl e);
    closed_after_exit = i.closed_after_exit;
    timer_after_exit = refl;
  }

  if-IsSound :
      (b : Bool) (s t : ExecState)
      → (b ≡ true → IsSound s)
      → (b ≡ false → IsSound t)
      → IsSound (if b then s else t)
  if-IsSound true s t h k = h refl
  if-IsSound false s t h k = k refl

  check_complete-IsSound :
      (s : ExecState) → IsSound s → IsSound (check_complete options tool_path s)
  unfolding check_complete
  check_complete-IsSound s i =
      if-IsSound s.done _ _ (λ d. i)
        (λ d.
          if-IsSound s.process_closed _ _
            (λ c. set_result-IsSound s d (ground (arith, i.closed_after_exit)) i)
            (λ c.
              if-IsSound s.process_exited _ _
                (λ e. record {
                  settled = i.settled;
                  closed_after_exit = i.closed_after_exit;
                  timer_after_exit = ap not e;
                })
                (λ e. i)))

  handle-IsSound :
      (e : ChildEvent) (s : ExecState) → IsSound s → IsSound (handle options tool_path e s)
  unfolding handle
  handle-IsSound (stdout chunk) s i = i
  handle-IsSound (stderr chunk) s i = record {
    settled = i.settled;
    closed_after_exit = i.closed_after_exit;
    timer_after_exit = i.timer_after_exit;
  }
  handle-IsSound (failed_to_start message) s i =
      if-IsSound s.done _ _ (λ d. i)
        (λ d. check_complete-IsSound _ (record {
          settled = i.settled;
          closed_after_exit = refl;
          timer_after_exit = ground arith;
        }))
  handle-IsSound (exited code) s i =
      if-IsSound s.done _ _ (λ d. i)
        (λ d. check_complete-IsSound _ (record {
          settled = i.settled;
          closed_after_exit = ground arith;
          timer_after_exit = ground arith;
        }))
  handle-IsSound (closed code) s i =
      if-IsSound s.done _ _ (λ d. i)
        (λ d. check_complete-IsSound _ (record {
          settled = i.settled;
          closed_after_exit = refl;
          timer_after_exit = ground arith;
        }))
  handle-IsSound timed_out s i =
      if-IsSound s.timer _ _
        (λ t.
          if-IsSound s.done _ _ (λ d. i)
            (λ d. set_result-IsSound s d (ground (arith, i.timer_after_exit)) i))
        (λ t. i)

  handle_all-IsSound :
      (events : List ChildEvent) (s : ExecState)
      → IsSound s
      → IsSound (handle_all options tool_path events s)
  unfolding handle_all
  handle_all-IsSound [] s i = i
  handle_all-IsSound (e ∷ events) s i =
      handle_all-IsSound events (handle options tool_path e s) (handle-IsSound e s i)

  -- Whatever the child process sends and in whatever order: before the state is done nothing has been
  -- emitted, and after it one result has, which reports success only for the exit code 0 or where
  -- the options ignore the code.
  pub handle_all-IsSettled :
      (events : List ChildEvent)
      → IsSettled
          (handle_all options tool_path events new_state).done
          (handle_all options tool_path events new_state).emitted
  handle_all-IsSettled events =
      (handle_all-IsSound events new_state
        (record { settled = tt; closed_after_exit = refl; timer_after_exit = refl })).settled

  done_kept :
      (e : ChildEvent) (s : ExecState) → s.done ≡ true → (handle options tool_path e s).done ≡ true
  unfolding handle check_complete handle_timeout set_result
  done_kept (stdout chunk) s d = d
  done_kept e s d = ground arith

  done_by_final :
      (e : ChildEvent) (s : ExecState)
      → is_final e ≡ true
      → (handle options tool_path e s).done ≡ true
  unfolding handle check_complete set_result
  done_by_final (closed code) s h = ground arith
  done_by_final (failed_to_start message) s h = ground arith
  done_by_final _ s h = cc

  handle_all-done :
      (events : List ChildEvent) (s : ExecState)
      → s.done ≡ true
      → (handle_all options tool_path events s).done ≡ true
  unfolding handle_all
  handle_all-done [] s d = d
  handle_all-done (e ∷ events) s d = handle_all-done events _ (done_kept e s d)

  -- A command whose child process failed to start or closed its streams is done, whatever else
  -- happened before and after.
  pub handle_all_finishes :
      (events : List ChildEvent) (s : ExecState)
      → any is_final events ≡ true
      → (handle_all options tool_path events s).done ≡ true
  unfolding handle_all
  handle_all_finishes [] s h = cc
  handle_all_finishes (e ∷ events) s h = elim (Bool-cases (is_final e)) [
    | inl final ↦ handle_all-done events _ (done_by_final e s final)
    | inr other ↦ handle_all_finishes events _ (ground (arith, other, h))
  ]
