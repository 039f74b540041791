-- ===== src/ToolCache/Download/Whole.antt =====
-- What `downloadTool` has fetched when it returns.
use coherence_operator.Prelude.{ℕ, ◌≤◌, ◌≡◌, none, some, Text}
use coherence_operator.Runtime.{World, Host, answered, complete, update}
use coherence_operator.ToolCache.Retry.{RetryHelper}
use coherence_operator.ToolCache.Retry.Attempts.{IsAttempt}
use coherence_operator.ToolCache.Download.{download_tool_attempt, is_retryable}

-- The request was answered with the status 200 and a whole body, and the file holds that body.
abbrev pub IsWhole : Host → Text → Text → World → World → Type 0
IsWhole h url dest u v =
    (message content : Text) × (h.http_get u url ≡ answered 200 message (complete content))
    × (v.files ≡ update u.files dest (some content))

abbrev standard : RetryHelper
standard = record { max_attempts = 3; min_seconds = 10; max_seconds = 20 }

-- The attempt that the result comes from, behind at most two that failed with an error that may be retried.
abbrev pub IsFetched : Host → Text → Text → World → Type 0
IsFetched h url path v =
    (begin u : World) × (n : ℕ) × (n ≤ 2)
    × IsAttempt h standard (download_tool_attempt h url path) is_retryable n begin u
    × (u.files path ≡ none)
    × IsWhole h url path u v
