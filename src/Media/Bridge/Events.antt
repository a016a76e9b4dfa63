-- ===== src/Media/Bridge/Events.antt =====
-- `apps/api/media/bridge.py`: the messages of the two sockets, and the end of a call.
pub mod Runs
pub mod Close
use revenue_recovery_voice_a.Base.{
  ℕ, ◌+◌, Bool, true, false, not, ◌||◌, List, [], ◌∷◌, ◌++◌, Option, none, some, String, Text,
  codes, strip, Json, Fields, ℤ, pos, Exc, value_error, type_error, lookup_error, runtime_error,
  assertion_error, attribute_error, integrity_error, Result, ok, err, FloatOps, is_empty, text_eq,
  if◌then◌else◌,
}
use revenue_recovery_voice_a.Domain.State.{CallState}
use revenue_recovery_voice_a.Media.Ledger.{on_mark_ack}
use revenue_recovery_voice_a.Media.Realtime.{
  append_audio, create_response, say_out_of_band, build_session_update, oob_topic,
  oob_topic_sentiment, response_output_text, truthy_text,
}
use revenue_recovery_voice_a.Media.Outbound.{
  Line, send_audio, on_item, on_mark, pump_take, pump_mark, pump_done, waiting, sending_media,
  sending_mark, Pump,
}
use revenue_recovery_voice_a.Media.Bridge.{
  Hooks, Role, agent, Event, twilio_connected, stream_started, Output, to_model, emitted,
  closed_realtime, closed_twilio, Bridge, Handler, resume, ◌>>◌, skip, raise, modify, send, when,
  reading, on_line, emit,
}
use revenue_recovery_voice_a.Media.Bridge.Turns.{
  Setup, now, record_turn, on_state, on_agent_transcript, on_barge_in, on_sentiment_verdict,
  on_caller_transcript, on_call,
}
use revenue_recovery_voice_a.Tools.Registry.{openai_tools}
use revenue_recovery_voice_a.Tools.Dispatch.{FunctionCall}

-- What `_pump_twilio` receives: the socket's end, text that is not JSON, or an event with the fields
-- that are read of it.
pub data TwilioMessage : Type 0 where
  disconnected bad_json connected stop other : TwilioMessage
  media : (payload : Json) → TwilioMessage
  start : (stream_sid : String) → TwilioMessage
  mark : (name : String) → TwilioMessage

-- What `_pump_openai` receives, with the fields that are read of it. A function call is what
-- `FunctionCall.from_event` makes of its event.
pub data RealtimeEvent : Type 0 where
  audio_delta : (delta : Text) → RealtimeEvent
  speech_started speech_stopped response_cancelled other : RealtimeEvent
  item_added : (type : Text) (id : String) → RealtimeEvent
  input_transcript : (transcript : Text) → RealtimeEvent
  transcript_delta : (delta : Text) → RealtimeEvent
  transcript_done : (transcript : Text) → RealtimeEvent
  function_call : (call : Result FunctionCall) → RealtimeEvent
  response_done : (event : Json) → RealtimeEvent
  error : (code : Text) → RealtimeEvent

-- A message of either socket.
pub data SocketMessage : Type 0 where
  from_twilio : TwilioMessage → SocketMessage
  from_model : RealtimeEvent → SocketMessage

-- `type(exc).__name__`
abbrev exception_name : Exc → Text
exception_name value_error = codes "ValueError"
exception_name type_error = codes "TypeError"
exception_name lookup_error = codes "LookupError"
exception_name runtime_error = codes "RuntimeError"
exception_name assertion_error = codes "AssertionError"
exception_name attribute_error = codes "AttributeError"
exception_name integrity_error = codes "IntegrityError"

module _ (fl : FloatOps) {S : Type 0} (setup : Setup fl S) where
  open fl use {F}
  open setup use {hooks, config, registry, started}

  unfoldable pub set_latency : (Bridge F S → Option F) → Bool → Handler F S
  set_latency since reset b = (
    ok tt,
    record b {
      line = record b.line {
        pending_response_start = since b;
        first_audio_latency_ms = if reset then none else b.line.first_audio_latency_ms;
      };
    },
  )

  -- The greeting, or else a first response.
  unfoldable pub greet : Handler F S
  greet = elim (truthy_text config.realtime.greeting) [
    | none ↦ send (to_model (create_response none))
    | some greeting ↦ send (to_model (say_out_of_band greeting))
  ]

  -- `_on_stream_start`
  unfoldable pub on_stream_start : String → Handler F S
  unfolding greet emit
  on_stream_start sid =
      modify (λ b. record b { line = record b.line { stream_sid = sid }; controller = some sid })
      >> send (to_model (build_session_update config (openai_tools registry)))
      >> greet
      >> set_latency (λ b. some (now fl setup b)) false
      >> emit hooks (stream_started sid)

  unfoldable pub set_stopped : Handler F S
  set_stopped = modify (λ b. record b { stopped = true })

  -- One round of `_pump_twilio` after `receive_text`.
  unfoldable pub on_twilio : TwilioMessage → Handler F S
  unfolding on_stream_start emit
  on_twilio disconnected = set_stopped
  on_twilio bad_json = skip
  on_twilio connected = emit hooks twilio_connected
  on_twilio (media payload) =
      modify (λ b. record b { frames_from_caller = b.frames_from_caller + 1 })
      >> send (to_model (append_audio payload))
  on_twilio (start sid) = on_stream_start sid
  on_twilio (mark name) = on_line (on_mark name)
  on_twilio stop = set_stopped
  on_twilio other = skip

  unfoldable pub raised_in {ℓ} : {A : Type ℓ} → Result A → (A → Handler F S) → Handler F S
  raised_in (ok a) later = later a
  raised_in (err e) later = raise e

  -- The branch of a finished response.
  unfoldable pub on_response_done : Json → Handler F S
  on_response_done event = raised_in (oob_topic event) λ topic.
      if text_eq topic oob_topic_sentiment
      then raised_in (response_output_text event) (on_sentiment_verdict fl setup)
      else set_latency (λ b. none) true

  -- One round of `_pump_openai` after its test of `_stop`.
  unfoldable pub on_realtime : RealtimeEvent → Handler F S
  unfolding on_response_done on_barge_in on_agent_transcript on_caller_transcript on_call
  on_realtime (audio_delta delta) = on_line (send_audio delta)
  on_realtime speech_started = on_barge_in fl setup
  on_realtime speech_stopped = set_latency (λ b. some (now fl setup b)) true
  on_realtime (item_added type id) = when (text_eq type (codes "message")) (on_line (on_item id))
  on_realtime (input_transcript transcript) = on_caller_transcript fl setup transcript
  on_realtime (transcript_delta delta) =
      modify (λ b. record b { partial_agent_text = b.partial_agent_text ++ delta })
  on_realtime (transcript_done transcript) =
      modify (λ b. record b { partial_agent_text = [] }) >> on_agent_transcript fl setup transcript
  on_realtime (function_call call) = raised_in call (on_call fl setup)
  on_realtime (response_done event) = on_response_done event
  on_realtime response_cancelled = set_latency (λ b. none) false
  on_realtime (error code) = modify (λ b. record b { errors = b.errors ++ (code ∷ []) })
  on_realtime other = skip

  -- `_flush_partial_turn`; an exception of the hook is logged there, and hooks do not raise here.
  unfoldable pub flush_partial_turn : Handler F S
  unfolding record_turn
  flush_partial_turn b =
      let text = strip b.partial_agent_text in
      (modify (λ b'. record b' { partial_agent_text = [] })
          >> when (not (is_empty text)) (
              on_state fl setup (λ s. record s { agent_turns = s.agent_turns + 1 })
              >> record_turn fl setup agent text))
        b

  -- `aclose`
  unfoldable pub aclose : Handler F S
  unfolding flush_partial_turn
  aclose b = elim b.closed [
    | true ↦ skip b
    | false ↦
        (modify (λ b'. record b' { closed = true })
            >> flush_partial_turn
            >> send closed_realtime
            >> send closed_twilio)
          b
  ]

  -- The messages of a call, in the order in which they are handled, until the call is stopped or a
  -- task raises.
  unfoldable pub run_messages : List SocketMessage → Handler F S
  unfolding on_twilio on_realtime
  run_messages [] b = skip b
  run_messages (m ∷ ms) b = elim b.stopped [
    | true ↦ skip b
    | false ↦ elim m [
      | from_twilio t ↦ resume (on_twilio t b) (run_messages ms)
      | from_model e ↦ resume (on_realtime e b) (run_messages ms)
    ]
  ]

  -- The errors after `run` has looked at the tasks that are done; only `_pump_openai` raises.
  abbrev task_errors : Result (Unit {0}) → List Text → List Text
  task_errors (ok done) errors = errors
  task_errors (err e) errors = errors ++ ((codes "pump_openai: " ++ exception_name e) ∷ [])

  -- The end of `run`, after the drain: a task's exception becomes an error, and the call is closed.
  unfoldable pub finish : Result (Unit {0}) × Bridge F S → Bridge F S
  unfolding aclose
  finish (result, b) =
      (aclose (record b { stopped = true; errors = task_errors result b.errors })).1

  -- `run` over the messages of its sockets.
  unfoldable pub run_call : List SocketMessage → Bridge F S → Bridge F S
  unfolding run_messages finish
  run_call ms b = finish (run_messages ms b)
