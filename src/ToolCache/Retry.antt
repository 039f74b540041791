-- ===== src/ToolCache/Retry.antt =====
-- `RetryHelper` (lib/retry-helper.js).
pub mod Attempts
pub mod Sleep
mod Tests
use coherence_operator.Prelude.{ℕ, zero, suc, ◌+◌, ◌-◌, Bool, Text, codes, ◌++◌, ltb, if◌then◌else◌}
use coherence_operator.Runtime.{
  World, Host, Thrown, M, ◌>>=◌, ◌>>◌, ok, pure, throw, throw_if, catch, perform, slept,
  plain_error, message_of, decimal,
}
use coherence_operator.Command.{info}

pub record RetryHelper : Type 0 where
  pub max_attempts : ℕ
  pub min_seconds : ℕ
  pub max_seconds : ℕ

-- The constructor, on whole seconds.
unfoldable pub new_retry_helper : ℕ → ℕ → ℕ → M RetryHelper
new_retry_helper max_attempts min_seconds max_seconds = do
  throw_if (ltb max_attempts 1)
      (plain_error (codes "max attempts should be greater than or equal to 1"))
  throw_if (ltb max_seconds min_seconds)
      (plain_error (codes "min seconds should be less than or equal to max seconds"))
  pure
      (record { max_attempts = max_attempts; min_seconds = min_seconds; max_seconds = max_seconds })

-- `Math.floor(Math.random() * n)` is the host's choice below `n`.
unfoldable pub get_sleep_amount : Host → RetryHelper → World → ℕ
get_sleep_amount h helper w =
    h.random_below w (helper.max_seconds - helper.min_seconds + 1) + helper.min_seconds

unfoldable pub waiting : ℕ → Text
waiting seconds = codes "Waiting " ++ (decimal seconds ++ codes " seconds before trying again")

-- The pause between two attempts.
unfoldable pub pause : Host → RetryHelper → Thrown → M (Unit {0})
unfolding get_sleep_amount
pause h helper err = do
  info h (message_of err)
  seconds ← λ w. (ok (get_sleep_amount h helper w), w)
  info h (waiting seconds)
  perform (slept seconds)

-- The loop, by the number of attempts that may still be repeated, and the last attempt behind it.
unfoldable pub attempt : {A : Type 0} → Host → RetryHelper → M A → (Thrown → Bool) → ℕ → M A
attempt h helper action is_retryable zero = action
attempt h helper action is_retryable (suc left) =
    let again = attempt h helper action is_retryable left in
    catch action λ err. if is_retryable err then (pause h helper err >>= λ _. again) else throw err

unfoldable pub execute : {A : Type 0} → Host → RetryHelper → M A → (Thrown → Bool) → M A
unfolding attempt
execute h helper action is_retryable =
    attempt h helper action is_retryable (helper.max_attempts - 1)
