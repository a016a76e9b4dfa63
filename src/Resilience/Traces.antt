-- ===== src/Resilience/Traces.antt =====
-- `apps/api/resilience.py`: the retry loop between its first send and its answer.
use revenue_recovery_voice_a.Base.{
  ℕ, zero, suc, ◌+◌, ◌≤◌, ◌≡◌, refl, Bool, true, false, List, [], ◌∷◌, none, some, Text, pos,
  FloatOps, value_error, length, All, arith, ◌==◌, is_empty, Option-cases, inl, inr,
}
use revenue_recovery_voice_a.Resilience.{
  Exchange, response, failed, HttpResponse, RetryPolicy, Outside, Sent, crashed, sent_of,
  should_retry, retryable_exceptions, next_delay, retry_after_ms, min_float, pause, pause_sync,
  retry_loop, request_with_retry, request_with_retry_sync,
}

-- An exchange after which the policy wants another attempt.
abbrev pub is_retried : RetryPolicy → Exchange → Bool
is_retried policy (response r) = should_retry r policy
is_retried policy (failed e) = retryable_exceptions policy e

module _ (fl : FloatOps) {S : Type 0} (io : Outside fl.F S) (send : S → Exchange × S)
    (policy : RetryPolicy) where
  open fl use {F, of_int, mul, le}

  -- From `world`, sends number `attempt` and on came to the exchanges `xs`, each followed by one sleep
  -- of the delay prescribed for it, and a last send came to `x` and left `world'`.
  abbrev pub Sends : ℕ → S → List Exchange → Exchange → S → Type 0
  Sends attempt world [] x world' = send world ≡ (x, world')
  Sends attempt world (y ∷ ys) x world' =
      (world1 : S) × (next : F × S) × (send world ≡ (y, world1))
      × (next_delay fl io policy y attempt world1 ≡ some next)
      × Sends (attempt + 1) (io.sleep next.0 next.1) ys x world'

  -- The loop ended with the answer of a last send, after at most `left` sends.
  record Answered (left attempt : ℕ) (world : S) (end : Sent × S) : Type 0 where
    resent : List Exchange
    last : Exchange
    answer : end.0 ≡ sent_of last
    bound : length resent + 1 ≤ left
    retried : All (λ y. is_retried policy y ≡ true) resent
    sends : Sends attempt world resent last end.1

  next_delay-is_retried :
      (x : Exchange) (attempt : ℕ) (world : S) {next : F × S}
      → next_delay fl io policy x attempt world ≡ some next
      → (is_retried policy x ≡ true) × ((attempt == policy.attempts) ≡ false)
  unfolding next_delay
  next_delay-is_retried (response r) attempt world h = ground arith
  next_delay-is_retried (failed e) attempt world h = ground arith

  stops :
      (left attempt : ℕ) (world : S)
      → next_delay fl io policy (send world).0 attempt (send world).1 ≡ none
      → Answered
          (suc left)
          attempt
          world
          (retry_loop fl io (pause fl io) send policy (suc left) attempt world)
  unfolding retry_loop
  stops left attempt world stop =
      rw (stop, retry_loop)
        (record {
          resent = [];
          last = (send world).0;
          answer = refl;
          bound = omega arith;
          retried = tt;
          sends = refl;
        })

  loop_answers :
      (left attempt : ℕ) (world : S)
      → attempt + left ≡ policy.attempts
      → Answered
          (suc left)
          attempt
          world
          (retry_loop fl io (pause fl io) send policy (suc left) attempt world)
  unfolding retry_loop pause
  loop_answers zero attempt world total =
      elim (Option-cases (next_delay fl io policy (send world).0 attempt (send world).1)) [
        | inl stop ↦ stops zero attempt world stop
        | inr (next, again) ↦
            ground (arith, next_delay-is_retried (send world).0 attempt (send world).1 again)
      ]
  loop_answers (suc left) attempt world total =
      elim (Option-cases (next_delay fl io policy (send world).0 attempt (send world).1)) [
        | inl stop ↦ stops (suc left) attempt world stop
        | inr (next, again) ↦
            let rest = loop_answers left (attempt + 1) (io.sleep next.0 next.1) (omega arith) in
            rw (again, retry_loop)
              (record {
                resent = (send world).0 ∷ rest.resent;
                last = rest.last;
                answer = rest.answer;
                bound = omega (arith, rest.bound);
                retried = (
                  (next_delay-is_retried (send world).0 attempt (send world).1 again).0,
                  rest.retried,
                );
                sends = ((send world).1, next, refl, again, rest.sends);
              })
      ]

  loop_answers_all :
      (n left : ℕ) (world : S)
      → left ≡ suc n
      → 1 + n ≡ policy.attempts
      → Answered left 1 world (retry_loop fl io (pause fl io) send policy left 1 world)
  loop_answers_all n left world h total = rw h (loop_answers n 1 world total)

  -- A policy of `n + 1` attempts gets an answer: `request_with_retry` never reaches its assertion. The
  -- answer is the response or the exception of the last of at most `n + 1` sends. Every send before
  -- it came to an exchange that the policy retries, and one sleep of the prescribed delay followed it.
  pub request_with_retry-answers :
      (n : ℕ) (world : S)
      → policy.attempts ≡ suc n
      → (resent : List Exchange) × (last : Exchange) × ((request_with_retry fl io send policy
            world).0
          ≡ sent_of last)
        × (length resent ≤ n)
        × All (λ y. is_retried policy y ≡ true) resent
        × Sends 1 world resent last (request_with_retry fl io send policy world).1
  unfolding request_with_retry
  request_with_retry-answers n world h =
      let a = loop_answers_all n policy.attempts world h (omega (arith, h)) in
      (a.resent, a.last, a.answer, omega (arith, a.bound), a.retried, a.sends)

  sync_crash :
      (left n attempt : ℕ) (world : S) {next : F × S}
      → left ≡ suc n
      → next_delay fl io policy (send world).0 attempt (send world).1 ≡ some next
      → le (of_int (pos 0)) next.0 ≡ false
      → retry_loop fl io (pause_sync fl io) send policy left attempt world
        ≡ (crashed value_error, next.1)
  unfolding retry_loop pause_sync
  sync_crash left n attempt world h again negative =
      rw (h, retry_loop) (rw (again, retry_loop) (rw negative refl))

  async_goes_on :
      (left n attempt : ℕ) (world : S) {next : F × S}
      → left ≡ suc n
      → next_delay fl io policy (send world).0 attempt (send world).1 ≡ some next
      → retry_loop fl io (pause fl io) send policy left attempt world
        ≡ retry_loop fl io (pause fl io) send policy n (attempt + 1) (io.sleep next.0 next.1)
  unfolding retry_loop pause
  async_goes_on left n attempt world h again = rw (h, retry_loop) (rw (again, retry_loop) refl)

  -- A negative `Retry-After` on a response that the policy would retry makes the blocking twin raise
  -- `ValueError` out of `time.sleep`, where `request_with_retry` goes on to its second attempt.
  negative_retry_after :
      (n : ℕ) (world : S) (r : HttpResponse) (raw : Text) (seconds : F)
      → policy.attempts ≡ suc (suc n)
      → (send world).0 ≡ response r
      → should_retry r policy ≡ true
      → r.retry_after ≡ some raw
      → is_empty raw ≡ false
      → io.parse_float raw ≡ some seconds
      → le
          (of_int (pos 0))
          (min_float fl io (mul seconds (of_int (pos 1000))) (of_int (pos policy.cap_ms)))
        ≡ false
      → (request_with_retry_sync fl io send policy world ≡ (crashed value_error, (send world).1))
        × (request_with_retry fl io send policy world
            ≡ retry_loop fl io (pause fl io) send policy (suc n) 2 (
                io.sleep
                  (min_float fl io (mul seconds (of_int (pos 1000))) (of_int (pos policy.cap_ms)))
                  (send world).1))
  unfolding request_with_retry request_with_retry_sync retry_after_ms next_delay
  negative_retry_after n world r raw seconds attempts first again header full parsed negative =
      let delay = min_float fl io (mul seconds (of_int (pos 1000))) (of_int (pos policy.cap_ms)) in
      let requested : retry_after_ms fl io r policy.cap_ms (send world).1 ≡ some delay =
        rw (header, retry_after_ms) (rw full (rw parsed refl)) in
      let next : next_delay fl io policy (send world).0 1 (send world).1
          ≡ some (delay, (send world).1) =
        rw first (rw requested (rw again (ground (arith, attempts)))) in
      (
        sync_crash policy.attempts (suc n) 1 world attempts next negative,
        async_goes_on policy.attempts (suc n) 1 world attempts next,
      )
