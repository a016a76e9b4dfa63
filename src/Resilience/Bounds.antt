-- ===== src/Resilience/Bounds.antt =====
-- `apps/api/resilience.py`: the waits of the retry loop.
use revenue_recovery_voice_a.Base.{
  ℕ, ◌*◌, ◌^◌, ◌-◌, ◌≤◌, ◌<◌, ◌≡◌, ap, true, some, pos, ℤ, FloatOps, arith, Option-cases, inl, inr,
  ◌≤ℤ◌, negsuc,
}
use revenue_recovery_voice_a.Resilience.{
  Exchange, response, failed, HttpResponse, RetryPolicy, Outside, window_ms, delay_ms,
  retry_after_ms, next_delay, celery_countdown, min_int, max_int, min_float,
}

module _ (fl : FloatOps) {S : Type 0} (io : Outside fl.F S) where
  open fl use {F, of_int, mul, le, trunc}

  -- `random()` draws from the unit interval.
  pub record UnitDraws : Type 0 where
    pub low : (world : S) → le (of_int (pos 0)) (io.random world).0 ≡ true
    pub high : (world : S) → le (io.random world).0 (of_int (pos 1)) ≡ true

  -- A draw scaled by a window stays between zero and the window.
  draw_below :
      UnitDraws
      → (n : ℕ) (world : S) → n < 2 ^ 53
      → le (mul (io.random world).0 (of_int (pos n))) (of_int (pos n)) ≡ true
  draw_below u n world small =
      let whole : mul (of_int (pos 1)) (of_int (pos n)) ≡ of_int (pos n) =
        rw (fl.mul_exact 1 n (omega arith)) (ap (λ k. of_int (pos k)) (omega arith)) in
      rw whole at (
        fl.mul_mono_right (io.random world).0 (of_int (pos 1)) (of_int (pos n))
          (fl.of_int_mono (pos 0) (pos n) (omega arith)) (u.high world))

  min_float-le : (x y : F) → le (min_float fl io x y) y ≡ true
  min_float-le x y = ground (arith, fl.le_refl y)

  min_int-le : (a b : ℕ) → min_int a b ≤ a
  min_int-le a b = ground arith

  delay_ms-le :
      UnitDraws
      → (policy : RetryPolicy) (attempt : ℕ) (world : S) → policy.cap_ms < 2 ^ 53
      → le (delay_ms fl io policy attempt world).0 (of_int (pos policy.cap_ms)) ≡ true
  unfolding delay_ms window_ms
  delay_ms-le u policy attempt world small =
      let w = window_ms policy attempt in
      let below : w ≤ policy.cap_ms =
        min_int-le policy.cap_ms (policy.base_ms * 2 ^ (attempt - 1)) in
      fl.le_trans (mul (io.random world).0 (of_int (pos w))) (of_int (pos w))
        (of_int (pos policy.cap_ms)) (draw_below u w world (omega (arith, below)))
        (fl.of_int_mono (pos w) (pos policy.cap_ms) (omega (arith, below)))

  retry_after-le :
      (r : HttpResponse) (limit : ℕ) (world : S) {d : F}
      → retry_after_ms fl io r limit world ≡ some d
      → le d (of_int (pos limit)) ≡ true
  unfolding retry_after_ms
  retry_after-le r limit world {d} h = elim (Option-cases r.retry_after) [
    | inl absent ↦ ground (arith, absent)
    | inr (raw, present) ↦ elim (Option-cases (io.parse_float raw)) [
      | inl other ↦ elim (Option-cases (io.remaining_ms raw world)) [
        | inl bad ↦ ground (arith, present, other, bad)
        | inr (ms, good) ↦ ground (
          arith,
          present,
          other,
          good,
          min_float-le ms (of_int (pos limit)),
          fl.of_int_mono (pos 0) (pos limit) (omega arith),
        )
      ]
      | inr (seconds, good) ↦ ground (
        arith,
        present,
        good,
        min_float-le (mul seconds (of_int (pos 1000))) (of_int (pos limit)),
      )
    ]
  ]

  clamp_bounds :
      (t : ℤ) (m limit : ℕ)
      → t ≤ℤ pos m
      → m ≤ limit
      → (1 ≤ (elim t [ pos n ↦ max_int 1 n | negsuc _ ↦ 1 ]))
        × ((elim t [ pos n ↦ max_int 1 n | negsuc _ ↦ 1 ]) ≤ max_int 1 limit)
  clamp_bounds (pos n) m limit h k = (ground arith, ground arith)
  clamp_bounds (negsuc n) m limit h k = (omega arith, ground arith)

  -- When `random` draws from the unit interval and `cap_ms` is below 2^53, no wait between two
  -- attempts is longer than `cap_ms`, whether it is jittered or the server asked for it.
  next_delay-le-cap :
      UnitDraws
      → (policy : RetryPolicy) (x : Exchange) (attempt : ℕ) (world : S) {next : F × S}
      → policy.cap_ms < 2 ^ 53
      → next_delay fl io policy x attempt world ≡ some next
      → le next.0 (of_int (pos policy.cap_ms)) ≡ true
  unfolding next_delay
  next_delay-le-cap u policy (failed e) attempt world small h =
      ground (arith, delay_ms-le u policy attempt world small)
  next_delay-le-cap u policy (response r) attempt world small h =
      elim (Option-cases (retry_after_ms fl io r policy.cap_ms world)) [
        | inl absent ↦ ground (arith, absent, delay_ms-le u policy attempt world small)
        | inr (d, present) ↦ ground (arith, present, retry_after-le r policy.cap_ms world present)
      ]

  -- When `random` draws from the unit interval and the cap is below 2^53, a Celery countdown is at
  -- least one second and at most the cap, or one second when the cap is 0.
  celery_countdown-bounds :
      UnitDraws
      → (retries base_seconds cap_seconds : ℕ) (world : S) → cap_seconds < 2 ^ 53
      → (1 ≤ (celery_countdown fl io retries base_seconds cap_seconds world).0)
        × ((celery_countdown fl io retries base_seconds cap_seconds world).0
            ≤ max_int 1 cap_seconds)
  unfolding celery_countdown
  celery_countdown-bounds u retries base_seconds cap_seconds world small =
      let w = min_int cap_seconds (base_seconds * 2 ^ retries) in
      let below = min_int-le cap_seconds (base_seconds * 2 ^ retries) in
      clamp_bounds (trunc (mul (io.random world).0 (of_int (pos w)))) w cap_seconds
        (rw (fl.trunc_of_int w (omega (arith, below))) at (
          fl.trunc_mono (mul (io.random world).0 (of_int (pos w))) (of_int (pos w))
            (draw_below u w world (omega (arith, below)))))
        below
