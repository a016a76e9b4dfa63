-- ===== src/Tools/Registry/Attempts.antt =====
-- What `run_tool` promises: how often it calls the handler, and what it hands to the model.
use revenue_recovery_voice_a.Base.{
  ℕ, ◌≡◌, refl, Bool, true, false, not, ◌||◌, some, Json, obj, null, arr, num, str, bool, Fields,
  ok, if◌then◌else◌, is_ok as returns,
}
use revenue_recovery_voice_a.Tools.Registry.{
  ToolResult, ToolSpec, Reply, Invocation, Progress, run_tool, invocation, keyword_args, merge,
}
use revenue_recovery_voice_a.Tools.Registry.Loop.{
  carries_hint, reply_hints, is_type_error, is_object, first_call, second_call, second_budget,
  settles, run_budgets,
}

module _ {S : Type 0} (spec : ToolSpec S) where
  abbrev ended_invocation : (S → S → ℕ) → Fields → S → Progress S → ToolResult → Invocation
  ended_invocation millis arguments world p r = record {
    name = spec.name;
    arguments = obj arguments;
    result = r;
    latency_ms = millis world p.world;
    attempts = p.attempts;
    filler_played = false;
    timed_out = p.timed_out;
  }

  invocation-answered :
      (millis : S → S → ℕ) (arguments : Fields) (world : S) (p : Progress S) {r : ToolResult}
      → p.result ≡ some r
      → invocation spec millis (obj arguments) world p
        ≡ ok (ended_invocation millis arguments world p r, p.world)
  unfolding invocation
  invocation-answered millis arguments world p h = rw h refl

  run_tool-obj :
      (millis : S → S → ℕ) (context arguments : Fields) (world : S)
      → let e = run_budgets spec (merge context arguments) world spec.on_failure in
        run_tool spec millis context (obj arguments) world
        ≡ ok (ended_invocation millis arguments world e.progress e.answer, e.progress.world)
  unfolding run_tool keyword_args
  run_tool-obj millis context arguments world =
      let e = run_budgets spec (merge context arguments) world spec.on_failure in
      rw e.returned (invocation-answered millis arguments world e.progress e.answered)

  hints_of :
      (first second : Reply) (once : Bool) (r : ToolResult)
      → reply_hints first ≡ true
      → reply_hints second ≡ true
      → (not (reply_hints (if once then first else second)) || carries_hint r) ≡ true
      → carries_hint r ≡ true
  hints_of first second true r h k hinted = rw h at hinted
  hints_of first second false r h k hinted = rw k at hinted

  -- With a dict of arguments `run_tool` returns, whatever the handler does: exceptions and timeouts do
  -- not escape. The handler is called once if its first reply is `ok` or the policy is "escalate", and
  -- otherwise exactly once more; no later call touches the outside world.
  pub run_tool_attempts :
      (millis : S → S → ℕ) (context arguments : Fields) (world : S)
      → (inv : Invocation) × (world' : S) × (run_tool spec millis context (obj arguments) world
          ≡ ok (inv, world'))
        × (inv.attempts ≡ (if settles spec (merge context arguments) world then 1 else 2))
        × (world' ≡ (
            if settles spec (merge context arguments) world
            then (first_call spec (merge context arguments) world).1
            else (second_call spec (merge context arguments) world).1))
  run_tool_attempts millis context arguments world =
      let e = run_budgets spec (merge context arguments) world spec.on_failure in
      (
        ended_invocation millis arguments world e.progress e.answer,
        e.progress.world,
        run_tool-obj millis context arguments world,
        e.counted,
        e.left,
      )

  -- If every result that the handler replies with carries a hint unless it is `ok`, so does every
  -- result that `run_tool` returns on a dict of arguments: what the model is handed always tells it what to say.
  run_tool_hints :
      (millis : S → S → ℕ) (context arguments : Fields) (world : S) {inv : Invocation} {world' : S}
      → ((kwargs : Fields) (b : ℕ) (w : S) → reply_hints (spec.handler kwargs b w).0 ≡ true)
      → run_tool spec millis context (obj arguments) world ≡ ok (inv, world')
      → carries_hint inv.result ≡ true
  run_tool_hints millis context arguments world {inv} all h =
      let kwargs = merge context arguments in
      let e = run_budgets spec kwargs world spec.on_failure in
      let same : inv.result ≡ e.answer = cc (run_tool-obj millis context arguments world) in
      rw same (
        hints_of (first_call spec kwargs world).0 (second_call spec kwargs world).0
          (settles spec kwargs world) e.answer (all kwargs spec.timeout_ms world)
          (all kwargs (second_budget spec) (first_call spec kwargs world).1) e.hinted)

  -- `run_tool` returns exactly on arguments that are a dict. Arguments of any other JSON shape raise
  -- `TypeError` before the handler is reached.
  run_tool_raises :
      (millis : S → S → ℕ) (context : Fields) (arguments : Json) (world : S)
      → (returns (run_tool spec millis context arguments world) ≡ is_object arguments)
        × ((is_object arguments || is_type_error (run_tool spec millis context arguments world))
            ≡ true)
  unfolding run_tool keyword_args
  run_tool_raises millis context (obj fs) world =
      rw (run_tool-obj millis context fs world) (refl, refl)
  run_tool_raises millis context null world = (refl, refl)
  run_tool_raises millis context (bool b) world = (refl, refl)
  run_tool_raises millis context (num n) world = (refl, refl)
  run_tool_raises millis context (str t) world = (refl, refl)
  run_tool_raises millis context (arr xs) world = (refl, refl)
