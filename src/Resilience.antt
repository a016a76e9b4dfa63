-- ===== src/Resilience.antt =====
-- `apps/api/resilience.py`: retry with full jitter. The HTTP client, the clock, the random generator
-- and the parsers of header values are parameters that act on a state `S` of the outside world.
pub mod Bounds
pub mod Traces
pub mod Frame
use revenue_recovery_voice_a.Base.{
  ℕ, zero, suc, ◌+◌, ◌-◌, ◌*◌, ◌^◌, Bool, true, false, not, ◌||◌, List, [], ◌∷◌, Option, none, some,
  Text, Json, ℤ, pos, FloatOps, Result, ok, err, Exc, value_error, assertion_error, is_empty, any,
  leb, ◌==◌, if◌then◌else◌,
}

-- The exception classes of `httpx.HTTPError`.
pub data HttpError : Type 0 where
  connect_timeout read_timeout write_timeout pool_timeout : HttpError
  connect_error read_error write_error close_error : HttpError
  local_protocol_error remote_protocol_error : HttpError
  proxy_error unsupported_protocol decoding_error too_many_redirects : HttpError

-- A response: its status, its header `retry-after` and its body where that is JSON.
pub record HttpResponse : Type 0 where
  pub status_code : ℕ
  pub retry_after : Option Text
  pub json : Option Json

-- What one request comes to.
pub data Exchange : Type 0 where
  response : HttpResponse → Exchange
  failed : HttpError → Exchange

-- `RETRYABLE_STATUS`
abbrev retryable_status : List ℕ
retryable_status = 408 ∷ 425 ∷ 429 ∷ 500 ∷ 502 ∷ 503 ∷ 504 ∷ 529 ∷ []

-- `RETRYABLE_EXCEPTIONS`
unfoldable pub is_retryable_exception : HttpError → Bool
is_retryable_exception proxy_error = false
is_retryable_exception unsupported_protocol = false
is_retryable_exception decoding_error = false
is_retryable_exception too_many_redirects = false
is_retryable_exception _ = true

-- `PRE_DELIVERY_STATUS`
abbrev pre_delivery_status : List ℕ
pre_delivery_status = 429 ∷ 503 ∷ []

-- `PRE_DELIVERY_EXCEPTIONS`
unfoldable pub is_pre_delivery_exception : HttpError → Bool
is_pre_delivery_exception connect_error = true
is_pre_delivery_exception connect_timeout = true
is_pre_delivery_exception pool_timeout = true
is_pre_delivery_exception _ = false

pub record RetryPolicy : Type 0 where
  pub attempts : ℕ
  pub base_ms : ℕ
  pub cap_ms : ℕ
  pub retry_when_ambiguous : Bool

abbrev pub in_call : RetryPolicy
in_call = record { attempts = 2; base_ms = 25; cap_ms = 100; retry_when_ambiguous = true }

abbrev pub background : RetryPolicy
background = record { attempts = 3; base_ms = 500; cap_ms = 4000; retry_when_ambiguous = true }

abbrev pub unsafe_write : RetryPolicy
unsafe_write = record { attempts = 2; base_ms = 200; cap_ms = 1000; retry_when_ambiguous = false }

-- `retryable_statuses`, as a test
unfoldable pub retryable_statuses : RetryPolicy → ℕ → Bool
retryable_statuses policy status =
    any (λ s. status == s)
      (if policy.retry_when_ambiguous then retryable_status else pre_delivery_status)

-- `retryable_exceptions`, as a test
unfoldable pub retryable_exceptions : RetryPolicy → HttpError → Bool
retryable_exceptions policy e =
    if policy.retry_when_ambiguous then is_retryable_exception e else is_pre_delivery_exception e

-- `_should_retry`
unfoldable pub should_retry : HttpResponse → RetryPolicy → Bool
should_retry r policy = retryable_statuses policy r.status_code

-- `min` and `max` on ints
abbrev pub min_int : ℕ → ℕ → ℕ
min_int a b = if leb a b then a else b

abbrev pub max_int : ℕ → ℕ → ℕ
max_int a b = if leb b a then a else b

-- The window of `delay_ms`; `attempt - 1` is `max(attempt - 1, 0)`.
unfoldable pub window_ms : RetryPolicy → ℕ → ℕ
window_ms policy attempt = min_int policy.cap_ms (policy.base_ms * 2 ^ (attempt - 1))

-- The calls that leave the process: the random generator, `sleep`, and what the header parsers
-- return; `none` is the exception that `retry_after_ms` catches.
pub record Outside (F S : Type 0) : Type 0 where
  pub random : S → F × S
  pub sleep : F → S → S
  pub parse_float : Text → Option F
  pub remaining_ms : Text → S → Option F

-- How a request with retries ends.
pub data Sent : Type 0 where
  returned : HttpResponse → Sent
  raised : HttpError → Sent
  crashed : Exc → Sent

abbrev pub sent_of : Exchange → Sent
sent_of (response r) = returned r
sent_of (failed e) = raised e

module _ (fl : FloatOps) {S : Type 0} (io : Outside fl.F S) where
  open fl use {F, of_int, mul, le, trunc}

  -- `RetryPolicy.delay_ms`
  unfoldable pub delay_ms : RetryPolicy → ℕ → S → F × S
  unfolding window_ms
  delay_ms policy attempt world =
      let (draw, world') = io.random world in
      (mul draw (of_int (pos (window_ms policy attempt))), world')

  -- `min(x, y)`
  abbrev pub min_float : F → F → F
  min_float x y = if le x y then x else y

  -- `retry_after_ms`
  unfoldable pub retry_after_ms : HttpResponse → ℕ → S → Option F
  retry_after_ms r cap_ms world = elim r.retry_after [
    | none ↦ none
    | some raw ↦ if is_empty raw then none else elim (io.parse_float raw) [
      | some seconds ↦ some (min_float (mul seconds (of_int (pos 1000))) (of_int (pos cap_ms)))
      | none ↦ elim (io.remaining_ms raw world) [
        | none ↦ none
        | some ms ↦
            let clamped = min_float ms (of_int (pos cap_ms)) in
            some (if le clamped (of_int (pos 0)) then of_int (pos 0) else clamped)
      ]
    ]
  ]

  -- The delay before the next attempt, if there is one after this exchange.
  unfoldable pub next_delay : RetryPolicy → Exchange → ℕ → S → Option (F × S)
  unfolding delay_ms
  next_delay policy (failed e) attempt world =
      if not (retryable_exceptions policy e)
      then none
      else if attempt == policy.attempts
      then none
      else some (delay_ms policy attempt world)
  next_delay policy (response r) attempt world =
      if (attempt == policy.attempts) || not (should_retry r policy)
      then none
      else elim (retry_after_ms r policy.cap_ms world) [
        | some requested ↦ some (requested, world)
        | none ↦ some (delay_ms policy attempt world)
      ]

  -- `asyncio.sleep`: a negative delay is no delay.
  unfoldable pub pause : F → S → Result S
  pause delay world = ok (io.sleep delay world)

  -- `time.sleep`: a negative delay is a `ValueError`.
  unfoldable pub pause_sync : F → S → Result S
  pause_sync delay world =
      if le (of_int (pos 0)) delay then ok (io.sleep delay world) else err value_error

  module _ (sleep : F → S → Result S) (send : S → Exchange × S) (policy : RetryPolicy) where
    -- The loop over `range(1, policy.attempts + 1)`, with the number of rounds left.
    unfoldable pub retry_loop : ℕ → ℕ → S → Sent × S
    retry_loop zero attempt world = (crashed assertion_error, world)
    retry_loop (suc left) attempt world =
        let (x, world1) = send world in
        elim (next_delay policy x attempt world1) [
          | none ↦ (sent_of x, world1)
          | some (delay, world2) ↦ elim (sleep delay world2) [
            | err e ↦ (crashed e, world2)
            | ok world3 ↦ retry_loop left (attempt + 1) world3
          ]
        ]

  -- `request_with_retry`
  unfoldable pub request_with_retry : (S → Exchange × S) → RetryPolicy → S → Sent × S
  unfolding pause
  request_with_retry send policy = retry_loop pause send policy policy.attempts 1

  -- `request_with_retry_sync`
  unfoldable pub request_with_retry_sync : (S → Exchange × S) → RetryPolicy → S → Sent × S
  unfolding pause_sync
  request_with_retry_sync send policy = retry_loop pause_sync send policy policy.attempts 1

  -- `celery_countdown`
  unfoldable pub celery_countdown : ℕ → ℕ → ℕ → S → ℕ × S
  celery_countdown retries base_seconds cap_seconds world =
      let (draw, world') = io.random world in
      let window = min_int cap_seconds (base_seconds * 2 ^ retries) in
      (elim (trunc (mul draw (of_int (pos window)))) [ pos n ↦ max_int 1 n | _ ↦ 1 ], world')
