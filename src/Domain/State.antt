-- ===== src/Domain/State.antt =====
-- `apps/api/domain/state.py`: the state of one call and the two counters that escalation reads.
pub mod Streaks
use revenue_recovery_voice_a.Base.{
  ℕ, suc, ◌+◌, ◌≡◌, Bool, true, false, List, [], ◌∷◌, ◌++◌, Option, String, Text, ℤ, pos, FloatOps,
  codes, lower, text_in, ◌-ℤ◌, if◌then◌else◌,
}

-- `ToolStatus` of `tools/registry.py`, the statuses that an outcome carries.
pub data ToolStatus : Type 0 where
  ok not_found unavailable denied : ToolStatus

pub record ToolOutcome : Type 0 where
  pub name : String
  pub status : ToolStatus
  pub latency_ms : ℕ
  pub attempt : ℕ

abbrev pub is_ok : ToolStatus → Bool
is_ok ok = true
is_ok _ = false

-- Times are microseconds of the epoch.
pub record CallState : Type 0 where
  pub call_id : String
  pub client_id : String
  pub from_e164 : String
  pub started_at : ℤ
  pub last_caller_text : Text
  pub caller_turns : ℕ
  pub agent_turns : ℕ
  pub human_requested : Bool
  pub consecutive_tool_failures : ℕ
  pub negative_sentiment_turns : ℕ
  pub postcode : Option Text
  pub in_service_area : Option Bool
  pub is_emergency : Bool
  pub booking_confirmed : Bool
  pub booking_in_flight : Bool
  pub tool_history : List ToolOutcome
  pub escalated : Bool
  pub consent_captured : Bool

-- `CallState.record_tool`
unfoldable pub record_tool : CallState → ToolOutcome → CallState
record_tool s outcome = record s {
  tool_history = s.tool_history ++ (outcome ∷ []);
  consecutive_tool_failures = if is_ok outcome.status then 0 else s.consecutive_tool_failures + 1;
}

-- The labels of `record_sentiment` that continue a negative streak.
abbrev negative_labels : List Text
negative_labels = codes "negative" ∷ codes "frustrated" ∷ codes "angry" ∷ codes "hostile" ∷ []

-- `CallState.record_sentiment`
unfoldable pub record_sentiment : CallState → Text → CallState
record_sentiment s label = record s {
  negative_sentiment_turns =
      if text_in (lower label) negative_labels then s.negative_sentiment_turns + 1 else 0;
}

module _ (fl : FloatOps) where
  open fl use {of_int, mul, div, trunc}

  -- `CallState.elapsed_ms` at the time `now`; `total_seconds()` is the microseconds by 10^6.
  unfoldable elapsed_ms : CallState → ℤ → ℤ
  elapsed_ms s now =
      trunc (mul (div (of_int (now -ℤ s.started_at)) (of_int (pos 1000000))) (of_int (pos 1000)))
