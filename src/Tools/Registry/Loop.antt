-- ===== src/Tools/Registry/Loop.antt =====
-- The loop of `run_tool`: how many budgets it spends, and what it ends with.
use revenue_recovery_voice_a.Base.{
  ℕ, ◌+◌, ◌≡◌, refl, Bool, true, false, not, ◌||◌, [], ◌∷◌, Option, none, some, Text, Json, obj,
  Fields, Result, ok, err, type_error, is_empty, arith, leb, ◌/◌, if◌then◌else◌, Bool-cases, inl,
  inr,
}
use revenue_recovery_voice_a.Domain.State.{is_ok}
use revenue_recovery_voice_a.Tools.Registry.{
  ToolResult, ToolSpec, FailurePolicy, retry_once, degrade, escalate, Reply, replied, timed_out,
  raised, Progress, is_timeout, failure, timeout_hint, budgets, attempt_result, attempt,
  run_attempts,
}

-- A result that the model can act on: `ok`, or with a hint that is not empty.
abbrev has_hint : Option Text → Bool
has_hint none = false
has_hint (some hint) = not (is_empty hint)

abbrev pub carries_hint : ToolResult → Bool
carries_hint r = is_ok r.status || has_hint r.speak_hint

abbrev pub reply_hints : Reply → Bool
reply_hints (replied r) = carries_hint r
reply_hints _ = true

abbrev reply_ok : Reply → Bool
reply_ok (replied r) = is_ok r.status
reply_ok _ = false

abbrev is_escalate : FailurePolicy → Bool
is_escalate escalate = true
is_escalate _ = false

abbrev pub is_type_error : {A : Type 0} → Result A → Bool
is_type_error (err type_error) = true
is_type_error _ = false

abbrev pub is_object : Json → Bool
is_object (obj fs) = true
is_object _ = false

-- An attempt never raises: a timeout and an exception become results with a hint.
attempt_result_total :
    (policy : FailurePolicy) (budget attempts : ℕ) (reply : Reply)
    → (r : ToolResult) × (attempt_result policy budget attempts reply ≡ ok r)
      × (is_ok r.status ≡ reply_ok reply)
      × ((not (reply_hints reply) || carries_hint r) ≡ true)
unfolding attempt_result timeout_hint failure
attempt_result_total policy budget attempts (replied r) = (r, refl, refl, ground arith)
attempt_result_total retry_once budget attempts timed_out = (_, refl, refl, refl)
attempt_result_total degrade budget attempts timed_out = (_, refl, refl, refl)
attempt_result_total escalate budget attempts timed_out = (_, refl, refl, refl)
attempt_result_total retry_once budget attempts (raised e) = (_, refl, refl, refl)
attempt_result_total degrade budget attempts (raised e) = (_, refl, refl, refl)
attempt_result_total escalate budget attempts (raised e) = (_, refl, refl, refl)

module _ {S : Type 0} (spec : ToolSpec S) where
  -- The first and the second call of the handler.
  abbrev pub first_call : Fields → S → Reply × S
  first_call kwargs world = spec.handler kwargs spec.timeout_ms world

  abbrev pub second_budget : ℕ
  second_budget = if leb 100 (spec.timeout_ms / 2) then spec.timeout_ms / 2 else 100

  abbrev pub second_call : Fields → S → Reply × S
  second_call kwargs world = spec.handler kwargs second_budget (first_call kwargs world).1

  -- Whether the handler is called once only.
  abbrev pub settles : Fields → S → Bool
  settles kwargs world = is_escalate spec.on_failure || reply_ok (first_call kwargs world).0

  -- The loop has come to its end with a result.
  pub record Ended (r : Result (Progress S)) (attempts : ℕ) (world : S) (hints : Bool)
      : Type 0 where
    pub progress : Progress S
    pub returned : r ≡ ok progress
    pub counted : progress.attempts ≡ attempts
    pub left : progress.world ≡ world
    pub answer : ToolResult
    pub answered : progress.result ≡ some answer
    pub hinted : (not hints || carries_hint answer) ≡ true

  -- One attempt, with the handler's reply and the world it leaves.
  record Tried (kwargs : Fields) (b : ℕ) (p : Progress S) : Type 0 where
    progress : Progress S
    returned : attempt spec kwargs b p ≡ ok (progress, reply_ok (spec.handler kwargs b p.world).0)
    counted : progress.attempts ≡ p.attempts + 1
    left : progress.world ≡ (spec.handler kwargs b p.world).1
    answer : ToolResult
    answered : progress.result ≡ some answer
    hinted : (not (reply_hints (spec.handler kwargs b p.world).0) || carries_hint answer) ≡ true

  tried : (kwargs : Fields) (b : ℕ) (p : Progress S) → Tried kwargs b p
  unfolding attempt
  tried kwargs b p =
      let reply = (spec.handler kwargs b p.world).0 in
      let (r, returned, status, hinted) =
        attempt_result_total spec.on_failure b (p.attempts + 1) reply in
      record {
        progress = record {
          attempts = p.attempts + 1;
          timed_out = if is_timeout reply then true else p.timed_out;
          result = some r;
          world = (spec.handler kwargs b p.world).1;
        };
        returned = rw returned (rw status refl);
        counted = refl;
        left = refl;
        answer = r;
        answered = refl;
        hinted = hinted;
      }

  -- A single budget.
  run_one :
      (kwargs : Fields) (b : ℕ) (p : Progress S)
      → Ended
          (run_attempts spec kwargs (b ∷ []) p)
          (p.attempts + 1)
          (spec.handler kwargs b p.world).1
          (reply_hints (spec.handler kwargs b p.world).0)
  unfolding run_attempts
  run_one kwargs b p =
      let t = tried kwargs b p in
      record {
        progress = t.progress;
        returned = rw t.returned (ground arith);
        counted = t.counted;
        left = t.left;
        answer = t.answer;
        answered = t.answered;
        hinted = t.hinted;
      }

  -- Two budgets: the second is spent only after a first reply that is not `ok`.
  run_two :
      (kwargs : Fields) (b c : ℕ) (p : Progress S)
      → let first = spec.handler kwargs b p.world in
        let second = spec.handler kwargs c first.1 in
        Ended
          (run_attempts spec kwargs (b ∷ c ∷ []) p)
          (if reply_ok first.0 then p.attempts + 1 else p.attempts + 2)
          (if reply_ok first.0 then first.1 else second.1)
          (reply_hints (if reply_ok first.0 then first.0 else second.0))
  unfolding run_attempts
  run_two kwargs b c p =
      let t = tried kwargs b p in
      let first = spec.handler kwargs b p.world in
      elim (Bool-cases (reply_ok first.0)) [
        | inl done ↦ rw done (record {
          progress = t.progress;
          returned = rw t.returned (rw done refl);
          counted = t.counted;
          left = t.left;
          answer = t.answer;
          answered = t.answered;
          hinted = t.hinted;
        })
        | inr again ↦
            let u = run_one kwargs c t.progress in
            rw again (record {
              progress = u.progress;
              returned = rw t.returned (rw again u.returned);
              counted = rw u.counted (rw t.counted (omega arith));
              left = rw u.left (rw t.left refl);
              answer = u.answer;
              answered = u.answered;
              hinted = rw t.left at u.hinted;
            })
      ]

  abbrev pub start : S → Progress S
  start world = record { attempts = 0; timed_out = false; result = none; world = world }

  -- The loop over the budgets of the spec, whatever its policy is.
  pub run_budgets :
      (kwargs : Fields) (world : S) (policy : FailurePolicy)
      → let first = first_call kwargs world in
        let second = second_call kwargs world in
        let once = is_escalate policy || reply_ok first.0 in
        Ended
          (run_attempts spec kwargs (budgets spec.timeout_ms policy) (start world))
          (if once then 1 else 2)
          (if once then first.1 else second.1)
          (reply_hints (if once then first.0 else second.0))
  unfolding budgets
  run_budgets kwargs world escalate = run_one kwargs spec.timeout_ms (start world)
  run_budgets kwargs world retry_once = run_two kwargs spec.timeout_ms second_budget (start world)
  run_budgets kwargs world degrade = run_two kwargs spec.timeout_ms second_budget (start world)
