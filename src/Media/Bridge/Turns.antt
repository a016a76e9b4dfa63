-- ===== src/Media/Bridge/Turns.antt =====
-- The state transitions of `MediaBridge`: turns, barge-ins, sentiment, escalation and tool calls.
pub mod Counts
pub mod Quiet
pub mod Once
use mathlib.Core.List
use revenue_recovery_voice_a.Base.{
  ℕ, zero, suc, ◌+◌, Bool, true, false, not, ◌&&◌, ◌||◌, List, [], ◌∷◌, ◌++◌, Option, none, some,
  String, Text, codes, lower, strip, strip_of, text_in, take, Json, str, obj, Fields, end, field, ℤ,
  pos, Result, ok, err, FloatOps, is_some, is_empty, map, ◌==◌, if◌then◌else◌,
}
use revenue_recovery_voice_a.Config.{ClientConfig}
use revenue_recovery_voice_a.Domain.State.{CallState, record_tool, record_sentiment}
use revenue_recovery_voice_a.Domain.Escalation.{EscalationDecision, is_immediate, should_escalate}
use revenue_recovery_voice_a.Telephony.Sms.{is_blank}
use revenue_recovery_voice_a.Media.Ledger.{played_ms_for_current_item, unplayed_ms}
use revenue_recovery_voice_a.Media.BargeIn.{is_positive}
use revenue_recovery_voice_a.Media.Realtime.{classify_out_of_band, oob_topic_sentiment}
use revenue_recovery_voice_a.Media.Outbound.{Line, barge_in_cut, safety_cut, cut_next, millis_since}
use revenue_recovery_voice_a.Media.Bridge.{
  Hooks, Role, caller, agent, TurnMeta, Event, barge_in, sentiment, escalation, tool_call, Output,
  to_model, to_dispatch, emitted, turn, truncated, escalated, Bridge, Handler, resume, ◌>>◌, skip,
  raise, modify, send, when, reading, on_line, emit,
}
use revenue_recovery_voice_a.Tools.Registry.{ToolRegistry, Invocation, get}
use revenue_recovery_voice_a.Tools.Dispatch.{FunctionCall, Message, dispatch_with_masking}

-- `SENTIMENT_LABELS`
abbrev sentiment_labels : List Text
sentiment_labels =
    codes "positive" ∷ codes "neutral" ∷ codes "negative" ∷ codes "frustrated" ∷ codes "angry" ∷ []

-- `SENTIMENT_INSTRUCTIONS`
abbrev sentiment_instructions : Text
sentiment_instructions =
    codes
      "Classify the emotional state the caller expressed in their most recent message. Reply with exactly one word from this list and nothing else: positive, neutral, negative, frustrated, angry."

-- `SENTIMENT_MAX_CHARS`
abbrev sentiment_max_chars : ℕ
sentiment_max_chars = 500

-- How deep `_check_escalation` calls itself: the first call sets `escalated`.
abbrev pub escalation_depth : ℕ
escalation_depth = 2

-- What a call has: its hooks, its configuration and tools, the clock with the time of its start, and
-- the functions of other modules.
pub record Setup (fl : FloatOps) (S : Type 0) : Type 0 where
  pub hooks : Hooks
  pub config : ClientConfig fl.F
  pub registry : ToolRegistry S
  pub context : Fields
  pub perf_counter : S → fl.F
  pub started : fl.F
  pub escalation_id : S → String
  pub redact_pan : Text → Text
  pub latency_ms : S → S → ℕ

module _ (fl : FloatOps) {S : Type 0} (setup : Setup fl S) where
  open fl use {F}
  open setup use {
    hooks, config, registry, context, perf_counter, started, escalation_id, redact_pan, latency_ms,
  }

  abbrev pub now : Bridge F S → F
  now b = perf_counter b.world

  -- The latency of an agent's turn.
  unfoldable pub turn_latency : Bridge F S → Option ℤ
  turn_latency b = elim b.line.first_audio_latency_ms [
    | some ms ↦ some ms
    | none ↦ elim b.line.pending_response_start [
      | none ↦ none
      | some start ↦ some (millis_since fl start (now b))
    ]
  ]

  abbrev pub meta_of : Role → Bridge F S → TurnMeta
  meta_of caller b = record { item_id = b.line.ledger.current_item_id; latency_ms = none }
  meta_of agent b = record { item_id = b.line.ledger.current_item_id; latency_ms = turn_latency b }

  -- `_record_turn`
  unfoldable pub record_turn : Role → Text → Handler F S
  unfolding turn_latency
  record_turn role text =
      when hooks.on_turn
        (reading (λ b. turn role text (millis_since fl started (now b)) (meta_of role b)) send)

  unfoldable pub on_state : (CallState → CallState) → Handler F S
  on_state f = modify (λ b. record b { state = f b.state })

  -- `_on_agent_transcript`
  unfoldable pub on_agent_transcript : Text → Handler F S
  unfolding record_turn
  on_agent_transcript text =
      when (not (is_empty (strip text)))
        (on_state (λ s. record s { agent_turns = s.agent_turns + 1 }) >> record_turn agent text)

  -- The rest of `on_speech_started` where no other task comes between, and its event.
  unfoldable pub finish_cut : Bridge F S → Handler F S
  unfolding emit
  finish_cut before =
      let ms = played_ms_for_current_item fl before.line.ledger in
      let item = before.line.ledger.current_item_id in
      on_line (λ l. cut_next l.cut l)
      >> on_line (λ l. cut_next l.cut l)
      >> on_line (λ l. cut_next l.cut l)
      >> emit hooks
          (barge_in ms item (unplayed_ms fl before.line.ledger) (is_some item && is_positive ms))

  -- What `_on_barge_in` does with the result.
  unfoldable pub note_truncation : Bridge F S → Handler F S
  note_truncation before =
      let ms = played_ms_for_current_item fl before.line.ledger in
      elim before.line.ledger.current_item_id [
        | none ↦ skip
        | some item ↦
            when (is_positive ms) (modify (λ b. record b { barge_ins = b.barge_ins + 1 }))
            >> when (not (is_blank item) && hooks.on_truncation) (send (truncated item ms))
      ]

  -- `_on_barge_in`
  unfoldable pub on_barge_in : Handler F S
  unfolding finish_cut note_truncation
  on_barge_in b = elim b.controller [
    | none ↦ skip b
    | some sid ↦ (on_line (barge_in_cut fl sid) >> finish_cut b >> note_truncation b) b
  ]

  -- `_classify_sentiment`
  unfoldable pub classify_sentiment : Text → Handler F S
  classify_sentiment text =
      reading (λ b. not config.escalation.live_sentiment || b.state.escalated)
        λ quiet. when (not quiet) (
          send (
            to_model (
              classify_out_of_band
                (sentiment_instructions
                  ++ (codes "\n\nCaller said: \""
                      ++ (take sentiment_max_chars (redact_pan (strip text)) ++ codes "\"")))
                oob_topic_sentiment)))

  -- What `_dispatch` does with the invocation before it checks the escalation.
  unfoldable pub note_invocation : Invocation → Handler F S
  unfolding record_tool emit
  note_invocation inv =
      modify (λ b. record b { line = record b.line { pending_response_start = some (now b) } })
      >> on_state (λ s. record_tool s (record {
        name = inv.name;
        status = inv.result.status;
        latency_ms = inv.latency_ms;
        attempt = inv.attempts;
      }))
      >> emit hooks (tool_call inv.name inv.result.status inv.latency_ms inv.filler_played)

  -- The rest of `_dispatch`; `check` is `_check_escalation`.
  unfoldable pub after_dispatch : Handler F S → Invocation → Handler F S
  unfolding note_invocation
  after_dispatch check inv = note_invocation inv >> check

  -- `_dispatch`
  unfoldable pub dispatch : Handler F S → FunctionCall → Handler F S
  unfolding after_dispatch
  dispatch check call b =
      let (result, messages) =
        dispatch_with_masking latency_ms hooks.on_invocation call registry context b.world in
      let b' = record b {
        tool_calls = b.tool_calls + 1;
        sent = b.sent ++ map to_dispatch messages;
      } in
      elim result [
        | err e ↦ raise e b'
        | ok (inv, world) ↦ after_dispatch check inv (record b' { world = world })
      ]

  -- The call of the transfer in `_check_escalation`.
  unfoldable pub transfer : Handler F S → EscalationDecision → Handler F S
  unfolding dispatch
  transfer check decision b = elim (get "transfer_to_human" registry) [
    | none ↦ skip b
    | some spec ↦
        dispatch check
          (record {
            name = "transfer_to_human";
            call_id = escalation_id b.world;
            arguments = obj (field (codes "reason") (str decision.detail) end);
          })
          b
  ]

  -- The cut that a safety escalation makes.
  unfoldable pub preempt : Handler F S
  unfolding finish_cut
  preempt b = elim b.controller [
    | none ↦ skip b
    | some sid ↦ (on_line (safety_cut fl sid) >> finish_cut b) b
  ]

  -- `_check_escalation` from its first assignment to the call of the hook.
  unfoldable pub announce : EscalationDecision → Handler F S
  unfolding emit
  announce decision =
      on_state (λ s. record s { escalated = true })
      >> emit hooks (escalation decision)
      >> when hooks.on_escalation (send (escalated decision))

  unfoldable pub escalate : Handler F S → EscalationDecision → Handler F S
  unfolding announce preempt transfer
  escalate check decision =
      announce decision >> when (is_immediate decision) preempt >> transfer check decision

  -- `_check_escalation`, which `_dispatch` calls again; the depth bounds these calls.
  unfoldable pub check_escalation : ℕ → Handler F S
  unfolding escalate
  check_escalation zero b = skip b
  check_escalation (suc depth) b = elim b.state.escalated [
    | true ↦ skip b
    | false ↦ elim (should_escalate b.state config.escalation) [
      | none ↦ skip b
      | some decision ↦ escalate (check_escalation depth) decision b
    ]
  ]

  -- `_on_sentiment_verdict`
  unfoldable pub on_sentiment_verdict : Text → Handler F S
  unfolding record_sentiment emit
  on_sentiment_verdict label =
      let normalised = lower (strip_of (λ c. c == b'.') (strip label)) in
      when (text_in normalised sentiment_labels) (
        on_state (λ s. record_sentiment s normalised)
        >> reading (λ b. sentiment normalised b.state.negative_sentiment_turns) (emit hooks)
        >> check_escalation escalation_depth)

  -- `_on_caller_transcript`
  unfoldable pub on_caller_transcript : Text → Handler F S
  unfolding record_turn classify_sentiment
  on_caller_transcript text = when (not (is_empty (strip text))) (
      on_state (λ s. record s { last_caller_text = text; caller_turns = s.caller_turns + 1 })
      >> record_turn caller text
      >> check_escalation escalation_depth
      >> classify_sentiment text)

  -- `_dispatch` as the other methods call it.
  unfoldable pub on_call : FunctionCall → Handler F S
  unfolding dispatch
  on_call call = dispatch (check_escalation escalation_depth) call
