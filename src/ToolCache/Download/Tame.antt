-- ===== src/ToolCache/Download/Tame.antt =====
-- What `downloadTool` leaves alone, and that it comes to an end: it starts no process and changes
-- neither the environment nor the exit code, its retries are bounded, and it ends if each request is
-- answered or fails.
use coherence_operator.Prelude.{
  ℕ, ◌≢◌, zero, suc, Bool, Text, refl, Option-cases, inl, inr, is_empty,
}
use coherence_operator.Runtime.{
  World, Host, Thrown, http_error, Body, complete, broken, Reply, failed, answered, no_reply, M,
  perform, ok, slept, message_of, ◌>>=◌, ◌>>◌,
}
use coherence_operator.Runtime.Obey.{
  pure-Obeys, throw-Obeys, if-Obeys, throw_if-Obeys, >>=-Obeys, >>-Obeys, catch-Obeys,
}
use coherence_operator.Runtime.Quiet.{IsTame, Tame, tame_law, spawns, perform-IsTame, reads-IsTame}
use coherence_operator.Command.Tame.{debug-IsTame, info-IsTame}
use coherence_operator.Command.{info}
use coherence_operator.Io.{make_directory, mkdir_p, remove, rm_rf}
use coherence_operator.ToolCache.Retry.{
  RetryHelper, new_retry_helper, pause, attempt, execute, get_sleep_amount, waiting,
}
use coherence_operator.ToolCache.Download.{
  get_temp_directory, write_file, clean_up, save, receive, get_url, download_tool_attempt,
  destination, download_tool,
}

-- Each request is answered or fails.
abbrev pub IsAnswered : Host → Type 0
IsAnswered h = (w : World) → (url : Text) → h.http_get w url ≢ no_reply

make_directory-IsTame : {P : Type 0} → (h : Host) → (path : Text) → IsTame P (make_directory h path)
unfolding spawns make_directory
make_directory-IsTame h path = record {
  obeys = λ w. elim (Option-cases (h.mkdir w path)) [
    | inl e ↦ rw (e, make_directory) ((refl, refl, refl), λ answers. tt)
    | inr (err, e) ↦ rw (e, make_directory) ((refl, refl, refl), λ answers. tt)
  ];
}

remove-IsTame : {P : Type 0} → (h : Host) → (path : Text) → IsTame P (remove h path)
unfolding spawns remove
remove-IsTame h path = record {
  obeys = λ w. elim (Option-cases (h.rm w path)) [
    | inl e ↦ rw (e, remove) ((refl, refl, refl), λ answers. tt)
    | inr (err, e) ↦ rw (e, remove) ((refl, refl, refl), λ answers. tt)
  ];
}

pub mkdir_p-IsTame : {P : Type 0} → (h : Host) → (path : Text) → IsTame P (mkdir_p h path)
unfolding mkdir_p
mkdir_p-IsTame h path = >>-Obeys (throw_if-Obeys _ _) (make_directory-IsTame h path)

rm_rf-IsTame : {P : Type 0} → (h : Host) → (path : Text) → IsTame P (rm_rf h path)
unfolding rm_rf
rm_rf-IsTame h path = >>-Obeys (throw_if-Obeys _ _) (remove-IsTame h path)

write_file-IsTame : {P : Type 0} → (path content : Text) → IsTame P (write_file path content)
unfolding write_file
write_file-IsTame path content = record { obeys = λ w. ((refl, refl, refl), λ answers. tt) }

clean_up-IsTame :
    {P : Type 0} → (h : Host) → (dest : Text) → (err : Thrown) → IsTame P (clean_up h dest err)
unfolding clean_up
clean_up-IsTame h dest err =
    >>-Obeys (debug-IsTame h _)
      (>>-Obeys (catch-Obeys (rm_rf-IsTame h dest) λ e. debug-IsTame h _) (throw-Obeys err))

save-IsTame :
    {P : Type 0} → (h : Host) → (dest : Text) → (body : Body) → IsTame P (save h dest body)
unfolding save
save-IsTame h dest (complete content) =
    >>-Obeys (write_file-IsTame dest content) (>>-Obeys (debug-IsTame h _) (pure-Obeys dest))
save-IsTame h dest (broken part err) =
    >>-Obeys (write_file-IsTame dest part) (clean_up-IsTame h dest err)

receive-IsTame :
    {P : Type 0}
    → (h : Host) → (url dest : Text) → (reply : Reply) → (P → reply ≢ no_reply)
    → IsTame P (receive h url dest reply)
unfolding receive
receive-IsTame h url dest no_reply given = record {
  obeys = λ w. ((refl, refl, refl), λ p. absurd (given p refl));
}
receive-IsTame h url dest (failed err) given = throw-Obeys err
receive-IsTame h url dest (answered status status_message body) given =
    if-Obeys _ (>>-Obeys (debug-IsTame h _) (throw-Obeys (http_error status)))
      (save-IsTame h dest body)

got-IsTame :
    (h : Host) → (url dest : Text) → IsTame (IsAnswered h) (get_url h url >>= receive h url dest)
unfolding get_url spawns
got-IsTame h url dest = record {
  obeys = λ w.
      (receive-IsTame h url dest (h.http_get w url) (λ answers. answers w url)).obeys
        (get_url h url w).1;
}

-- One attempt at a download starts no process, changes neither the environment nor the exit code,
-- and comes to an end if the request is answered or fails.
download_tool_attempt-IsTame :
    (h : Host) → (url dest : Text) → IsTame (IsAnswered h) (download_tool_attempt h url dest)
unfolding download_tool_attempt
download_tool_attempt-IsTame h url dest =
    >>-Obeys (record { obeys = λ w. (throw_if-Obeys {R = Tame (IsAnswered h)} _ _).obeys w })
      (got-IsTame h url dest)

pause-IsTame :
    {P : Type 0}
    → (h : Host) → (helper : RetryHelper) → (err : Thrown) → IsTame P (pause h helper err)
unfolding pause spawns
pause-IsTame h helper err = >>-Obeys (info-IsTame h (message_of err)) (
    >>=-Obeys {m = λ w. (ok (get_sleep_amount h helper w), w)}
      {f = λ seconds. info h (waiting seconds) >> perform (slept seconds)}
      (reads-IsTame λ w. get_sleep_amount h helper w)
      λ seconds.
        >>-Obeys (info-IsTame h (waiting seconds)) (perform-IsTame (slept seconds) λ es. refl))

module _ {P : Type 0} (h : Host) (helper : RetryHelper) (A : Type 0) (action : M A)
    (is_retryable : Thrown → Bool) (action-IsTame : IsTame P action) where
  attempt-IsTame : (left : ℕ) → IsTame P (attempt h helper action is_retryable left)
  unfolding attempt
  attempt-IsTame zero = action-IsTame
  attempt-IsTame (suc left) = catch-Obeys action-IsTame λ err.
      if-Obeys (is_retryable err) (>>-Obeys (pause-IsTame h helper err) (attempt-IsTame left))
        (throw-Obeys err)

new_retry_helper-IsTame : {P : Type 0} → IsTame P (new_retry_helper 3 10 20)
unfolding new_retry_helper
new_retry_helper-IsTame = record { obeys = λ w. ((refl, refl, refl), λ answers. tt) }

get_temp_directory-IsTame : {P : Type 0} → IsTame P get_temp_directory
unfolding get_temp_directory
get_temp_directory-IsTame {P = P} = record {
  obeys = λ w. (>>-Obeys {R = Tame P} (throw_if-Obeys _ _) (pure-Obeys _)).obeys w;
}

pub destination-IsTame : {P : Type 0} → (h : Host) → (dest : Text) → IsTame P (destination h dest)
unfolding destination
destination-IsTame h dest =
    if-Obeys (is_empty dest)
      (>>=-Obeys get_temp_directory-IsTame λ temp. reads-IsTame (λ w. h.join temp (h.uuid w)))
      (pure-Obeys dest)

-- `downloadTool` starts no process, and changes neither the environment nor the exit code, however
-- it ends, and it comes to an end if each request is answered or fails.
pub download_tool-IsTame :
    (h : Host) → (url dest : Text) → IsTame (IsAnswered h) (download_tool h url dest)
unfolding download_tool execute
download_tool-IsTame h url dest = >>=-Obeys (destination-IsTame h dest) λ path.
    >>-Obeys (mkdir_p-IsTame h _) (
      >>-Obeys (debug-IsTame h _) (
        >>-Obeys (debug-IsTame h _) (
          >>=-Obeys (new_retry_helper-IsTame) λ helper.
            attempt-IsTame h helper _ (download_tool_attempt h url path) _
              (download_tool_attempt-IsTame h url path) _)))
