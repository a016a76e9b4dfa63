-- ===== src/Store/Tables.antt =====
-- The tables of `apps/api/db/models.py` that the repository writes.
use revenue_recovery_voice_a.Base.{ℕ, suc, Bool, List, Option, none, some, String, Text, Json, ℤ}

pub data Direction : Type 0 where
  inbound outbound : Direction

-- `CALL_OUTCOMES`
pub data CallOutcome : Type 0 where
  booked qualified escalated abandoned out_of_area failed : CallOutcome

-- `EVENT_KINDS`
pub data EventKind : Type 0 where
  barge_in tool_call escalation budget_warning transfer consent session : EventKind

pub data Role : Type 0 where
  caller agent : Role

-- `Call`
pub record Call : Type 0 where
  pub id : String
  pub client_id : String
  pub twilio_call_sid : String
  pub from_e164 : String
  pub direction : Direction
  pub started_at : ℕ
  pub ended_at : Option ℕ
  pub outcome : Option CallOutcome
  pub cost_cents : ℕ
  pub recording_url : Option Text
  pub consent_captured : Bool

-- `Turn`
pub record Turn : Type 0 where
  pub id : ℕ
  pub call_id : String
  pub role : Role
  pub text : Text
  pub started_at_ms : ℕ
  pub latency_ms : Option ℕ
  pub truncated_at_ms : Option ℕ
  pub realtime_item_id : Option String

-- `ToolInvocation`
pub record ToolInvocation : Type 0 where
  pub id : ℕ
  pub call_id : String
  pub name : String
  pub arguments : Json
  pub result_status : String
  pub latency_ms : ℕ
  pub attempt : ℕ

-- `CallEvent`
pub record CallEvent : Type 0 where
  pub id : ℕ
  pub call_id : String
  pub at_ms : ℕ
  pub kind : EventKind
  pub payload : Json

-- `Contact`
pub record Contact : Type 0 where
  pub id : String
  pub client_id : String
  pub phone_e164 : String
  pub full_name : Option Text
  pub crm_id : Option Text
  pub opted_out_at : Option ℕ

-- `SmsSend`
pub record SmsSend : Type 0 where
  pub id : ℕ
  pub client_id : String
  pub to_e164 : String
  pub dedupe_key : String
  pub provider_sid : Option Json
  pub delivered : Bool

-- `CallAnalysis`
pub record CallAnalysis : Type 0 where
  pub call_id : String
  pub summary : Text
  pub intent : Text
  pub sentiment : Text
  pub qa_score : ℤ
  pub action_items : List Text
  pub model : Text

-- The tables, the next value of the `id` sequences, and what `datetime.now(UTC)` returns from here on, at
-- its first call, its second and so on.
pub record Store : Type 0 where
  pub calls : List Call
  pub turns : List Turn
  pub tool_invocations : List ToolInvocation
  pub call_events : List CallEvent
  pub contacts : List Contact
  pub sms_sends : List SmsSend
  pub analyses : List CallAnalysis
  pub next_id : ℕ
  pub now : ℕ → ℕ

-- `at or datetime.now(UTC)`, and the clock after it: it is read only where no time is given.
abbrev pub or_now : Option ℕ → (ℕ → ℕ) → ℕ
or_now none clock = clock 0
or_now (some at) clock = at

abbrev pub clock_after : Option ℕ → (ℕ → ℕ) → (ℕ → ℕ)
clock_after none clock = λ k. clock (suc k)
clock_after (some at) clock = clock

-- A value that is set where one is given, `if value is not None`
abbrev pub or_else {ℓ} : {A : Type ℓ} → Option A → A → A
or_else none d = d
or_else (some a) d = a

-- `COALESCE(a, b)`
abbrev pub coalesce {ℓ} : {A : Type ℓ} → Option A → Option A → Option A
coalesce none b = b
coalesce (some a) b = some a
