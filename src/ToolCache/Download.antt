-- ===== src/ToolCache/Download.antt =====
-- `downloadTool` (lib/tool-cache.js), with a URL and a destination only, as the action calls it. The
-- hooks that the library's own tests put into `global` are not set.
pub mod Cleanup
pub mod Whole
pub mod Tame
mod Tests
use coherence_operator.Prelude.{
  ℕ, Option, none, some, Bool, true, false, not, ◌&&◌, Text, codes, ◌++◌, [], ◌∷◌, is_empty, ltb,
  ◌==◌, if◌then◌else◌,
}
use coherence_operator.Runtime.{
  World, Host, Thrown, http_error, error, Reply, failed, answered, no_reply, Body, complete, broken,
  M, ◌>>=◌, ◌>>◌, ok, throws, pending, pure, throw, throw_if, catch, perform, requested,
  plain_error, assertion_error, message_of, decimal, or_empty, update,
}
use coherence_operator.Command.{debug}
use coherence_operator.Io.{mkdir_p, rm_rf}
use coherence_operator.ToolCache.Retry.{RetryHelper, new_retry_helper, execute}

-- `_getTempDirectory`.
unfoldable pub get_temp_directory : M Text
get_temp_directory w =
    let temp_directory = or_empty (w.env (codes "RUNNER_TEMP")) in
    (do
      throw_if (is_empty temp_directory)
          (assertion_error (codes "Expected RUNNER_TEMP to be defined"))
      pure temp_directory)
      w

unfoldable pub already_exists : Text → Text
already_exists dest = codes "Destination file path " ++ (dest ++ codes " already exists")

unfoldable pub download_failed : Text → ℕ → Text → Text
download_failed url status status_message =
    codes "Failed to download from \""
    ++ (url
        ++ (codes "\". Code("
            ++ (decimal status ++ (codes ") Message(" ++ (status_message ++ codes ")")))))

unfoldable pub delete_failed : Text → Thrown → Text
delete_failed dest err = codes "Failed to delete '" ++ (dest ++ (codes "'. " ++ message_of err))

unfoldable pub write_file : Text → Text → M (Unit {0})
write_file path content w = (ok tt, record w { files = update w.files path (some content) })

-- The `finally` block where the download did not succeed, and the error that goes on.
unfoldable pub clean_up : Host → Text → Thrown → M Text
clean_up h dest err = do
  debug h (codes "download failed")
  catch (rm_rf h dest) (λ e. debug h (delete_failed dest e))
  throw err

-- The stream into the file.
unfoldable pub save : Host → Text → Body → M Text
unfolding write_file clean_up
save h dest (complete content) = do
  write_file dest content
  debug h (codes "download complete")
  pure dest
save h dest (broken part err) = do write_file dest part; clean_up h dest err

unfoldable pub receive : Host → Text → Text → Reply → M Text
unfolding save
receive h url dest no_reply = λ w. (pending, w)
receive h url dest (failed err) = throw err
receive h url dest (answered status status_message body) =
    if not (status == 200)
    then (debug h (download_failed url status status_message) >>= λ _. throw (http_error status))
    else save h dest body

-- `http.get(url)`.
unfoldable pub get_url : Host → Text → M Reply
get_url h url w = (ok (h.http_get w url), record w { trace = requested url ∷ w.trace })

abbrev pub is_there : Option Text → Bool
is_there none = false
is_there (some content) = true

unfoldable pub download_tool_attempt : Host → Text → Text → M Text
unfolding receive get_url
download_tool_attempt h url dest = do
  λ w. throw_if (is_there (w.files dest)) (plain_error (already_exists dest)) w
  reply ← get_url h url
  receive h url dest reply

-- The test that `downloadTool` hands to the retry helper.
unfoldable pub is_retryable : Thrown → Bool
is_retryable (http_error status) =
    if not (status == 0) && (ltb status 500 && (not (status == 408) && not (status == 429)))
    then false
    else true
is_retryable e = true

-- `dest || path.join(_getTempDirectory(), crypto.randomUUID())`.
unfoldable pub destination : Host → Text → M Text
unfolding get_temp_directory
destination h dest =
    if is_empty dest
    then (get_temp_directory >>= λ temp w. (ok (h.join temp (h.uuid w)), w))
    else pure dest

unfoldable pub download_tool : Host → Text → Text → M Text
unfolding destination download_tool_attempt
download_tool h url dest = do
  path ← destination h dest
  mkdir_p h (h.dirname path)
  debug h (codes "Downloading " ++ url)
  debug h (codes "Destination " ++ path)
  helper ← new_retry_helper 3 10 20
  execute h helper (download_tool_attempt h url path) is_retryable
