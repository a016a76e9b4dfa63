-- ===== src/Examples/Data.antt =====
-- Test data: a client, a store with one call, an outside that counts the requests, tools and ledgers.
use revenue_recovery_voice_a.Base.{
  ℕ, ◌+◌, true, false, [], ◌∷◌, none, some, String, Text, codes, obj, str, Fields, end, field, ℤ,
  pos, negsuc, ok,
}
use revenue_recovery_voice_a.Base.Fixed.{fixed}
use revenue_recovery_voice_a.Config.{
  ClientConfig, semantic_vad, always, capture_and_refer, BudgetConfig,
}
use revenue_recovery_voice_a.Config.Loader.{ClientConfigRegistry, Disk}
use revenue_recovery_voice_a.Domain.State.{CallState, ToolStatus}
use revenue_recovery_voice_a.Domain.Hours.{LocalTime}
use revenue_recovery_voice_a.Media.Budget.{BudgetGuard}
use revenue_recovery_voice_a.Media.Ledger.{Ledger}
use revenue_recovery_voice_a.Resilience.{Exchange, response, HttpResponse, Outside}
use revenue_recovery_voice_a.Store.{Store, Call, inbound}
use revenue_recovery_voice_a.Telephony.Sms.{Settings}
use revenue_recovery_voice_a.Tools.Registry.{
  ToolSpec, ToolResult, retry_once, Reply, replied, timed_out,
}
use revenue_recovery_voice_a.Tools.Dispatch.{FunctionCall}
use revenue_recovery_voice_a.Tools.Booking.{Calendar, BookingCall}

abbrev pub F : Type 0
F = fixed.F

abbrev pub budget : BudgetConfig F
budget = record {
  max_call_seconds = 480;
  max_call_cost_usd = fixed.of_int (pos 2);
  wrap_up_at_pct = 80;
}

abbrev pub client : ClientConfig F
client = record {
  client_id = "acme";
  display_name = codes "Acme Plumbing";
  phone_number = "+15550100";
  timezone = "America/Chicago";
  realtime = record {
    model = "gpt-realtime-2.1";
    voice = "cedar";
    prompt_id = none;
    prompt_version = none;
    instructions = some (codes "Be brief.");
    turn_detection = record { type = semantic_vad; interrupt_response = true };
    variables = [];
    transcription_model = "gpt-4o-mini-transcribe";
    greeting = none;
  };
  hours = record {
    regular = record {
      mon_fri = codes "08:00-18:00";
      sat = codes "08:00-18:00";
      sun = codes "08:00-18:00";
    };
    emergency_dispatch = always;
  };
  service_area = record { postcodes = codes "60601" ∷ []; out_of_area_action = capture_and_refer };
  tools_enabled = "lookup" ∷ [];
  escalation = record {
    triggers = [];
    safety_keywords = codes "gas" ∷ codes "smoke" ∷ [];
    target_number = none;
    after_hours_target = codes "voicemail_with_page";
    max_consecutive_tool_failures = pos 3;
    max_negative_sentiment_turns = pos 2;
    live_sentiment = true;
  };
  budget = budget;
  booking = record {
    event_type_id = some (pos 7);
    default_duration_minutes = pos 60;
    emergency_fee_usd = some (fixed.of_int (pos 89));
  };
  knowledge_base = none;
}

abbrev pub state : CallState
state = record {
  call_id = "c1";
  client_id = "acme";
  from_e164 = "+15550199";
  started_at = pos 0;
  last_caller_text = codes "I smell GAS here";
  caller_turns = 1;
  agent_turns = 1;
  human_requested = false;
  consecutive_tool_failures = 0;
  negative_sentiment_turns = 0;
  postcode = some (codes "60601");
  in_service_area = some true;
  is_emergency = false;
  booking_confirmed = false;
  booking_in_flight = false;
  tool_history = [];
  escalated = false;
  consent_captured = true;
}

abbrev pub calm : CallState
calm = record state { last_caller_text = codes "my sink drips" }

-- Ten o'clock on a Thursday, wherever the business is.
abbrev pub zone : String → ℤ → LocalTime
zone name now = record { day = 20000; time = 36000000000 }

abbrev pub call_row : Call
call_row = record {
  id = "c1";
  client_id = "acme";
  twilio_call_sid = "CA1";
  from_e164 = "+15550199";
  direction = inbound;
  started_at = 5;
  ended_at = none;
  outcome = none;
  cost_cents = 0;
  recording_url = none;
  consent_captured = false;
}

abbrev pub store : Store
store = record {
  calls = call_row ∷ [];
  turns = [];
  tool_invocations = [];
  call_events = [];
  contacts = [];
  sms_sends = [];
  analyses = [];
  next_id = 1;
  now = λ k. 9 + k;
}

abbrev pub settings : Settings
settings = record {
  twilio_account_sid = "AC1";
  twilio_messaging_from = "+15550100";
  twilio_recording_enabled = true;
}

-- The outside counts the requests that it has answered.
abbrev pub outside : Outside F ℕ
outside = record {
  random = λ w. (fixed.of_int (pos 0), w);
  sleep = λ d w. w;
  parse_float = λ raw. some (fixed.of_int (negsuc 4));
  remaining_ms = λ raw w. none;
}

abbrev pub accepted : HttpResponse
accepted = record {
  status_code = 201;
  retry_after = none;
  json = some (obj (field (codes "sid") (str (codes "SM1")) end));
}

abbrev pub busy : HttpResponse
busy = record { status_code = 503; retry_after = some (codes "-5"); json = none }

abbrev pub post : String → Text → ℕ → Exchange × ℕ
post to body w = (response accepted, w + 1)

abbrev pub send_busy : ℕ → Exchange × ℕ
send_busy w = (response busy, w + 1)

abbrev pub found : ToolResult
found = record { status = ToolStatus.ok; payload = none; speak_hint = none }

-- A tool that is too slow the first time.
abbrev pub slow_once : Fields → ℕ → ℕ → Reply × ℕ
slow_once kwargs budget_ms ℕ.zero = (timed_out, 1)
slow_once kwargs budget_ms (ℕ.suc w) = (replied found, w + 2)

abbrev pub spec : ToolSpec ℕ
spec = record {
  name = "lookup";
  description = codes "Looks up a slot.";
  json_schema = obj end;
  handler = slow_once;
  timeout_ms = 800;
  on_failure = retry_once;
  filler_phrase = some (codes "One moment.");
  idempotency_key = none;
}

abbrev pub function_call : FunctionCall
function_call = record {
  name = "lookup";
  call_id = "fc1";
  arguments = obj (field (codes "day") (str (codes "mon")) end);
}

abbrev pub calendar : Calendar ℕ ℕ
calendar = record {
  idempotency_key = λ call slot. slot;
  fromisoformat = λ slot. some 17;
  isoformat = λ d. codes "17";
  speak_slot = λ d. codes "Tuesday";
  create_booking = λ request w.
      (ok (record { uid = codes "bk1"; start = request.start; status = codes "accepted" }), w + 1);
}

abbrev pub booking_call : BookingCall
booking_call = record {
  call_id = "c1";
  from_e164 = "+15550199";
  slot_start = "2026-03-03T09:00";
  caller_name = codes "Ann";
  notes = none;
}

abbrev pub registry : ClientConfigRegistry F
registry = record {
  by_id = ("acme", client) ∷ [];
  by_number = ("+15550100", client) ∷ [];
  mtimes = ("acme.yaml", 1) ∷ [];
  fixture_overrides = [];
}

abbrev pub disk : Disk F
disk = record { yaml_paths = ("acme.yaml", 1) ∷ []; load_client_config = λ path. ok client }

-- A ledger with two chunks of 100 ms outstanding, the first of them for the item in flight.
abbrev pub ledger : Ledger
ledger = record {
  marks = ("m1", pos 800) ∷ ("m2", pos 1600) ∷ [];
  played_bytes = pos 0;
  queued_bytes = pos 1600;
  current_item_id = some "item1";
  item_start_offset = pos 0;
}

abbrev pub guard : BudgetGuard F
guard = record { budget = budget; wrapped_up = false }
