-- ===== src/Resilience/Frame.antt =====
-- `request_with_retry` of `apps/api/resilience.py`: what one attempt, a random draw and a sleep leave
-- true of the outside, the whole loop does.
use revenue_recovery_voice_a.Base.{
  ℕ, zero, suc, ◌+◌, not, ◌||◌, Option, none, some, FloatOps, inl, inr, Bool-cases, Option-cases,
  ◌==◌,
}
use mathlib.Core.Path.{subst}
use revenue_recovery_voice_a.Resilience.{
  Exchange, response, failed, Outside, RetryPolicy, retryable_exceptions, should_retry,
  retry_after_ms, delay_ms, next_delay, pause, retry_loop, request_with_retry,
}

module _ (fl : FloatOps) {S : Type 0} (io : Outside fl.F S) (P : S → Type 0)
    (drawn : (w : S) → P w → P (io.random w).1)
    (slept : (delay : fl.F) (w : S) → P w → P (io.sleep delay w)) where
  delay_ms-keeps :
      (policy : RetryPolicy) (attempt : ℕ) (w : S) → P w → P (delay_ms fl io policy attempt w).1
  unfolding delay_ms
  delay_ms-keeps policy attempt w h = drawn w h

  -- What holds of the state after a delay was chosen.
  abbrev Later : Option (fl.F × S) → Type 0
  Later none = Unit
  Later (some (delay, w)) = P w

  next_delay-Later :
      (policy : RetryPolicy) (x : Exchange) (attempt : ℕ) (w : S)
      → P w
      → Later (next_delay fl io policy x attempt w)
  unfolding next_delay
  next_delay-Later policy (failed e) attempt w h =
      elim (Bool-cases (not (retryable_exceptions policy e))) [
        | inl final ↦ rw final tt
        | inr open_yet ↦ elim (Bool-cases (attempt == policy.attempts)) [
          | inl last ↦ rw (open_yet, last) tt
          | inr more ↦ rw (open_yet, more) (delay_ms-keeps policy attempt w h)
        ]
      ]
  next_delay-Later policy (response r) attempt w h =
      elim (Bool-cases ((attempt == policy.attempts) || not (should_retry r policy))) [
        | inl final ↦ rw final tt
        | inr open_yet ↦ rw open_yet (elim (Option-cases (retry_after_ms fl io r policy.cap_ms w)) [
          | inl unasked ↦ rw unasked (delay_ms-keeps policy attempt w h)
          | inr (requested, asked) ↦ rw asked h
        ])
      ]

  module _ (send : S → Exchange × S) (policy : RetryPolicy)
      (attempted : (w : S) → P w → P (send w).1) where
    retry_loop-keeps :
        (left attempt : ℕ) (w : S)
        → P w
        → P (retry_loop fl io (pause fl io) send policy left attempt w).1
    unfolding retry_loop pause
    retry_loop-keeps zero attempt w h = h
    retry_loop-keeps (suc left) attempt w h =
        let later = next_delay-Later policy (send w).0 attempt (send w).1 (attempted w h) in
        elim (Option-cases (next_delay fl io policy (send w).0 attempt (send w).1)) [
          | inl over ↦ rw (over, retry_loop) (attempted w h)
          | inr ((delay, w'), again) ↦
              rw (again, retry_loop)
                (retry_loop-keeps left (attempt + 1) (io.sleep delay w')
                  (slept delay w' (subst Later again later)))
        ]

    pub request_with_retry-keeps : (w : S) → P w → P (request_with_retry fl io send policy w).1
    unfolding request_with_retry
    request_with_retry-keeps w h = retry_loop-keeps policy.attempts 1 w h
