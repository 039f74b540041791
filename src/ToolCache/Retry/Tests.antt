-- ===== src/ToolCache/Retry/Tests.antt =====
-- The theorems about `RetryHelper` at concrete inputs: the attempt at a download.
use coherence_operator.Prelude.{codes, ◌≡◌, refl}
use coherence_operator.Runtime.{ok}
use coherence_operator.Runtime.Sample.{sample_host, sample_world}
use coherence_operator.ToolCache.Retry.{RetryHelper, execute, new_retry_helper}
use coherence_operator.ToolCache.Retry.Attempts.{IsDecided, execute-IsDecided}
use coherence_operator.ToolCache.Download.{download_tool_attempt, is_retryable}

abbrev three_times : RetryHelper
three_times = record { max_attempts = 3; min_seconds = 10; max_seconds = 20 }

execute-IsDecided_example :
    IsDecided sample_host three_times
      (download_tool_attempt sample_host (codes "https://a") (codes "/tmp/id"))
      is_retryable
      2
      sample_world
      (execute sample_host three_times
        (download_tool_attempt sample_host (codes "https://a") (codes "/tmp/id"))
        is_retryable
        sample_world)
execute-IsDecided_example =
    execute-IsDecided sample_host three_times
      (download_tool_attempt sample_host (codes "https://a") (codes "/tmp/id")) is_retryable
      sample_world

made : new_retry_helper 3 10 20 sample_world ≡ (ok three_times, sample_world)
unfolding new_retry_helper
made = refl
