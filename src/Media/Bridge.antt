-- ===== src/Media/Bridge.antt =====
-- `apps/api/media/bridge.py`: what the class `MediaBridge` does with each message of its two sockets.
-- A handler is a function of the bridge: it changes the state, appends to `sent` what leaves for the
-- model and for the hooks, and may raise. A socket that fails ends the call, which is the end of the
-- sequence of messages; the tasks' turns at the audio are in `Outbound`.
pub mod Turns
pub mod Events
use revenue_recovery_voice_a.Base.{
  ℕ, ◌+◌, Bool, true, false, List, [], ◌∷◌, ◌++◌, Option, none, some, String, Text, Json, Fields, ℤ,
  pos, Exc, Result, ok, err, FloatOps, if◌then◌else◌,
}
use revenue_recovery_voice_a.Config.{ClientConfig}
use revenue_recovery_voice_a.Domain.State.{CallState, ToolStatus}
use revenue_recovery_voice_a.Domain.Escalation.{EscalationDecision}
use revenue_recovery_voice_a.Media.BargeIn.{BargeInResult}
use revenue_recovery_voice_a.Media.Budget.{BudgetGuard}
use revenue_recovery_voice_a.Media.Outbound.{
  Line, Cut, new_line, cut_next, clearing, cancelling, truncating, Reading,
}
use revenue_recovery_voice_a.Tools.Registry.{ToolRegistry, Invocation}
use revenue_recovery_voice_a.Tools.Dispatch.{Message}

-- `BridgeHooks`: which of the callbacks are there.
pub record Hooks : Type 0 where
  pub on_event : Bool
  pub on_turn : Bool
  pub on_truncation : Bool
  pub on_invocation : Bool
  pub on_escalation : Bool

pub data Role : Type 0 where
  caller agent : Role

-- The `meta` of a turn.
pub record TurnMeta : Type 0 where
  pub item_id : Option String
  pub latency_ms : Option ℤ

-- What `_emit` publishes.
pub data Event : Type 0 where
  twilio_connected : Event
  stream_started : String → Event
  barge_in :
      (truncated_at_ms : ℤ) (item_id : Option String) (discarded_ms : ℤ) (truncated : Bool) → Event
  sentiment : (label : Text) (negative_turns : ℕ) → Event
  escalation : EscalationDecision → Event
  tool_call : (tool : String) (status : ToolStatus) (latency_ms : ℕ) (filler_played : Bool) → Event

-- What leaves the bridge: a message to the model, what a dispatch sends, or a call of a hook.
pub data Output : Type 0 where
  to_model : Json → Output
  to_dispatch : Message → Output
  emitted : Event → Output
  turn : Role → Text → ℤ → TurnMeta → Output
  truncated : String → ℤ → Output
  escalated : EscalationDecision → Output
  closed_realtime closed_twilio : Output

-- The fields of `MediaBridge` and of its `BridgeStats`. `controller` is the stream of the barge-in
-- controller; the frame counters are in the line.
pub record Bridge (F S : Type 0) : Type 0 where
  pub line : Line F
  pub controller : Option String
  pub state : CallState
  pub stopped : Bool
  pub closed : Bool
  pub partial_agent_text : Text
  pub frames_from_caller : ℕ
  pub barge_ins : ℕ
  pub tool_calls : ℕ
  pub errors : List Text
  pub world : S
  pub sent : List Output

-- A coroutine that returns nothing.
abbrev pub Handler : Type 0 → Type 0 → Type 0
Handler F S = Bridge F S → Result (Unit {0}) × Bridge F S

module _ {F S : Type 0} where
  -- The line and the rest that `__init__` makes for a call.
  unfoldable pub new_bridge : CallState → S → Bridge F S
  new_bridge state world = record {
    line = new_line;
    controller = none;
    state = state;
    stopped = false;
    closed = false;
    partial_agent_text = [];
    frames_from_caller = 0;
    barge_ins = 0;
    tool_calls = 0;
    errors = [];
    world = world;
    sent = [];
  }

  -- What comes after a handler, where it did not raise.
  abbrev pub resume : Result (Unit {0}) × Bridge F S → Handler F S → Result (Unit {0}) × Bridge F S
  resume (ok done, b) later = later b
  resume (err e, b) later = (err e, b)

  infixl 5 ◌>>◌
  unfoldable pub ◌>>◌ : (first second : Handler F S) → Handler F S
  (first >> second) b = resume (first b) second

  unfoldable pub skip : Handler F S
  skip b = (ok tt, b)

  unfoldable pub raise : Exc → Handler F S
  raise e b = (err e, b)

  -- An assignment.
  unfoldable pub modify : (Bridge F S → Bridge F S) → Handler F S
  modify f b = (ok tt, f b)

  unfoldable pub send : Output → Handler F S
  send out b = (ok tt, record b { sent = b.sent ++ (out ∷ []) })

  -- `if test: …`
  unfoldable pub when : Bool → Handler F S → Handler F S
  when true h = h
  when false h = skip

  -- A handler that reads the bridge first.
  unfoldable pub reading : {A : Type 0} → (Bridge F S → A) → (A → Handler F S) → Handler F S
  reading get h b = h (get b) b

  unfoldable pub on_line : (Line F → Line F) → Handler F S
  on_line f b = (ok tt, record b { line = f b.line })

  -- `_emit`
  unfoldable pub emit : Hooks → Event → Handler F S
  emit hooks event = when hooks.on_event (send (emitted event))
