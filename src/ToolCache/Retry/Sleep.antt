-- ===== src/ToolCache/Retry/Sleep.antt =====
-- How long `RetryHelper` waits between two attempts.
use coherence_operator.Prelude.{ℕ, ◌+◌, ◌-◌, ◌≤◌, ◌<◌, ◌≡◌, Bool-cases, inl, inr, ltb, arith}
use coherence_operator.Runtime.{World, Host, ok}
use coherence_operator.ToolCache.Retry.{RetryHelper, new_retry_helper, get_sleep_amount}

-- What the constructor lets through.
pub record IsSound (helper : RetryHelper) : Type 0 where
  pub tries : 1 ≤ helper.max_attempts
  pub ordered : helper.min_seconds ≤ helper.max_seconds

new_retry_helper-IsSound :
    (n lo hi : ℕ) (helper : RetryHelper) (w v : World)
    → new_retry_helper n lo hi w ≡ (ok helper, v)
    → IsSound helper
unfolding new_retry_helper
new_retry_helper-IsSound n lo hi helper w v e = elim (Bool-cases (ltb n 1)) [
  | inl few ↦ ground (arith, few, e)
  | inr enough ↦ elim (Bool-cases (ltb hi lo)) [
    | inl crossed ↦ ground (arith, enough, crossed, e)
    | inr fine ↦ record {
      tries = ground (arith, enough, fine, e);
      ordered = ground (arith, enough, fine, e);
    }
  ]
]

-- A helper that the constructor made waits at least its minimum and at most its maximum of seconds, if the
-- random choice below a positive number is below it.
pub get_sleep_amount-IsBetween :
    (h : Host) (n lo hi : ℕ) (helper : RetryHelper) (w v : World)
    → new_retry_helper n lo hi w ≡ (ok helper, v)
    → ((u : World) (k : ℕ) → 0 < k → h.random_below u k < k)
    → (u : World)
    → (helper.min_seconds ≤ get_sleep_amount h helper u)
      × (get_sleep_amount h helper u ≤ helper.max_seconds)
unfolding get_sleep_amount
get_sleep_amount-IsBetween h n lo hi helper w v e below u =
    let sound = (new_retry_helper-IsSound n lo hi helper w v e).ordered in
    let less = below u (helper.max_seconds - helper.min_seconds + 1) (omega arith) in
    (omega arith, omega arith)
