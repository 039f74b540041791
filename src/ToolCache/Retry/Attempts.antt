-- ===== src/ToolCache/Retry/Attempts.antt =====
-- Which attempt decides the outcome of `RetryHelper.execute`.
use coherence_operator.Prelude.{
  ℕ, zero, suc, ◌-◌, ◌≤◌, ◌≡◌, refl, ap, sym, ◌∙◌, ◌⊎◌, inl, inr, Bool, true, false, Bool-cases,
  arith, if◌then◌else◌,
}
use coherence_operator.Runtime.{
  World, Host, Thrown, Result, ok, throws, pending, M, ◌>>=◌, catch, throw,
}
use coherence_operator.Runtime.Laws.{>>=-ok}
use coherence_operator.Command.{info}
use coherence_operator.ToolCache.Retry.{RetryHelper, pause, attempt, execute}

module _ {A : Type 0} (h : Host) (helper : RetryHelper) (action : M A)
    (is_retryable : Thrown → Bool) where
  -- The action starts from the second state behind so many failed attempts from the first, each with an
  -- error that may be retried and a pause behind it.
  pub data IsAttempt : ℕ → World → World → Type 0 where
    first : {w : World} → IsAttempt zero w w
    again :
        {n : ℕ} {w v u : World} {e : Thrown}
        → action w ≡ (throws e, v)
        → is_retryable e ≡ true
        → IsAttempt n (pause h helper e v).1 u
        → IsAttempt (suc n) w u

  -- An outcome that is not tried again.
  abbrev pub IsFinal : Result A → Type 0
  IsFinal (ok a) = Unit
  IsFinal (throws e) = is_retryable e ≡ false
  IsFinal pending = Unit

  -- The outcome is the one of an attempt that is the last allowed, or whose outcome is final.
  abbrev pub IsDecided : ℕ → World → Result A × World → Type 0
  IsDecided left w end =
      (n : ℕ) × (u : World) × (n ≤ left)
      × IsAttempt n w u
      × (end ≡ action u)
      × ((n ≡ left) ⊎ IsFinal (action u).0)

  pause-eq-ok : (e : Thrown) → (v : World) → pause h helper e v ≡ (ok tt, (pause h helper e v).1)
  unfolding pause info
  pause-eq-ok e v = refl

  -- What the `catch` of the loop does.
  abbrev retry : ℕ → Thrown → M A
  retry left err =
      if is_retryable err
      then (pause h helper err >>= λ _. attempt h helper action is_retryable left)
      else throw err

  attempt-suc :
      (left : ℕ)
      → (w v : World) → (r : Result A) → action w ≡ (r, v)
      → attempt h helper action is_retryable (suc left) w ≡ catch (λ _. (r, v)) (retry left) w
  unfolding attempt
  attempt-suc left w v r ha =
      ap (λ (p : Result A × World). catch (λ (x : World). p) (retry left) w) ha

  decided :
      (left : ℕ)
      → ((w : World) → IsDecided left w (attempt h helper action is_retryable left w))
      → (w v : World) → (r : Result A) → action w ≡ (r, v)
      → IsDecided (suc left) w (attempt h helper action is_retryable (suc left) w)
  decided left ih w v (ok a) ha =
      (0, w, omega arith, first, attempt-suc left w v (ok a) ha ∙ sym ha, inr (rw ha tt))
  decided left ih w v pending ha =
      (0, w, omega arith, first, attempt-suc left w v pending ha ∙ sym ha, inr (rw ha tt))
  decided left ih w v (throws e) ha = elim (Bool-cases (is_retryable e)) [
    | inr lasting ↦ (
      0,
      w,
      omega arith,
      first,
      attempt-suc left w v (throws e) ha ∙ rw lasting (sym ha),
      inr (rw (ha, lasting) refl),
    )
    | inl passing ↦
        let (n, u, few, tried, same, last) = ih (pause h helper e v).1 in
        let once_more : attempt h helper action is_retryable (suc left) w
            ≡ attempt h helper action is_retryable left (pause h helper e v).1 =
          attempt-suc left w v (throws e) ha
          ∙ rw passing (
              >>=-ok (pause h helper e) (λ _. attempt h helper action is_retryable left) v
                (pause-eq-ok e v)) in
        (
          suc n,
          u,
          omega arith,
          again ha passing tried,
          once_more ∙ same,
          elim last [ inl equal ↦ inl (ap suc equal) | inr final ↦ inr final ],
        )
  ]

  attempt-IsDecided :
      (left : ℕ) → (w : World) → IsDecided left w (attempt h helper action is_retryable left w)
  unfolding attempt
  attempt-IsDecided zero w = (0, w, omega arith, first, refl, inl refl)
  attempt-IsDecided (suc left) w =
      decided left (attempt-IsDecided left) w (action w).1 (action w).0 refl

  -- The outcome is the one of a single attempt, made after at most `max_attempts - 1` others, each of
  -- which failed with an error that may be retried and was followed by a pause; and that attempt is
  -- the last allowed, or it returned, or its error may not be retried, or it never settles.
  pub execute-IsDecided :
      (w : World) → IsDecided (helper.max_attempts - 1) w (execute h helper action is_retryable w)
  unfolding execute
  execute-IsDecided w = attempt-IsDecided (helper.max_attempts - 1) w
