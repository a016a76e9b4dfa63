-- ===== src/Config/Schema.antt =====
-- The models of `apps/api/config/schema.py`, without their validators.
use revenue_recovery_voice_a.Base.{ℕ, Bool, List, Option, String, Text, Dict, ℤ}

pub data VadType : Type 0 where
  semantic_vad server_vad : VadType

pub record TurnDetectionConfig : Type 0 where
  pub type : VadType
  pub interrupt_response : Bool

pub record RealtimeConfig : Type 0 where
  pub model : String
  pub voice : String
  pub prompt_id : Option Text
  pub prompt_version : Option Text
  pub instructions : Option Text
  pub turn_detection : TurnDetectionConfig
  pub variables : Dict Text
  pub transcription_model : String
  pub greeting : Option Text

-- A day's entry is "closed" or "HH:MM-HH:MM", as text.
pub record RegularHours : Type 0 where
  pub mon_fri : Text
  pub sat : Text
  pub sun : Text

pub data EmergencyDispatch : Type 0 where
  always never after_hours_only : EmergencyDispatch

pub record HoursConfig : Type 0 where
  pub regular : RegularHours
  pub emergency_dispatch : EmergencyDispatch

pub data OutOfAreaAction : Type 0 where
  capture_and_refer decline transfer : OutOfAreaAction

pub record ServiceAreaConfig : Type 0 where
  pub postcodes : List Text
  pub out_of_area_action : OutOfAreaAction

pub record EscalationConfig : Type 0 where
  pub triggers : List Text
  pub safety_keywords : List Text
  pub target_number : Option Text
  pub after_hours_target : Text
  pub max_consecutive_tool_failures : ℤ
  pub max_negative_sentiment_turns : ℤ
  pub live_sentiment : Bool

pub record BudgetConfig (F : Type 0) : Type 0 where
  pub max_call_seconds : ℕ
  pub max_call_cost_usd : F
  pub wrap_up_at_pct : ℕ

pub record BookingConfig (F : Type 0) : Type 0 where
  pub event_type_id : Option ℤ
  pub default_duration_minutes : ℤ
  pub emergency_fee_usd : Option F

pub record ClientConfig (F : Type 0) : Type 0 where
  pub client_id : String
  pub display_name : Text
  pub phone_number : String
  pub timezone : String
  pub realtime : RealtimeConfig
  pub hours : HoursConfig
  pub service_area : ServiceAreaConfig
  pub tools_enabled : List String
  pub escalation : EscalationConfig
  pub budget : BudgetConfig F
  pub booking : BookingConfig F
  pub knowledge_base : Option String
