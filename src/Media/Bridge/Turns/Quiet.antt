-- ===== src/Media/Bridge/Turns/Quiet.antt =====
-- `apps/api/media/bridge.py`: what the handlers do besides escalating.
use revenue_recovery_voice_a.Base.{
  ◌+◌, Bool, true, false, [], ◌∷◌, ◌++◌, some, Text, FloatOps, ◌≡◌, refl, arith, Option-cases,
  Result-cases, inl, inr, map, Exc, not, is_empty, strip,
}
use revenue_recovery_voice_a.Domain.State.{CallState, record_tool, record_sentiment}
use revenue_recovery_voice_a.Domain.Escalation.{EscalationDecision}
use revenue_recovery_voice_a.Media.Outbound.{Line, barge_in_cut, safety_cut, cut_next}
use revenue_recovery_voice_a.Media.Bridge.{
  Hooks, Role, caller, agent, Event, sentiment, Output, to_model, to_dispatch, emitted, turn,
  truncated, Bridge, Handler, ◌>>◌, skip, raise, modify, send, when, reading, on_line, emit,
}
use revenue_recovery_voice_a.Media.Bridge.Turns.{
  Setup, now, record_turn, on_state, on_agent_transcript, finish_cut, note_truncation, on_barge_in,
  classify_sentiment, note_invocation, after_dispatch, dispatch, transfer, preempt,
  check_escalation, escalation_depth, on_sentiment_verdict, on_caller_transcript, on_call,
}
use revenue_recovery_voice_a.Tools.Registry.{Invocation, get}
use revenue_recovery_voice_a.Tools.Dispatch.{FunctionCall, dispatch_with_masking}
use revenue_recovery_voice_a.Media.Bridge.Turns.Counts.{
  as_event, as_hook, total-dispatch, IsQuiet, KeepsP, resume-keeps,
}

module _ (fl : FloatOps) {S : Type 0} (setup : Setup fl S) (P : Bridge fl.F S → Type 0)
    (q : IsQuiet P) where
  open fl use {F}
  open setup use {hooks, config, registry, context, latency_ms, redact_pan}

  abbrev pub Keeps : Handler F S → Type 0
  Keeps = KeepsP P

  pub then-Keeps :
      {first second : Handler F S} → Keeps first → Keeps second → Keeps (first >> second)
  unfolding ◌>>◌
  then-Keeps {first} {second} f s = record {
    keeps = λ b h. resume-keeps (first b) second (f.keeps b h) s;
  }

  pub when-Keeps : {h : Handler F S} (test : Bool) → Keeps h → Keeps (when test h)
  unfolding when skip
  when-Keeps true k = k
  when-Keeps false k = record { keeps = λ b o. o }

  pub skip-Keeps : Keeps skip
  unfolding skip
  skip-Keeps = record { keeps = λ b o. o }

  pub raise-Keeps : (e : Exc) → Keeps (raise e)
  unfolding raise
  raise-Keeps e = record { keeps = λ b o. o }

  -- An assignment that neither sends nor touches `escalated`.
  pub modify-Keeps :
      (f : Bridge F S → Bridge F S)
      → ((b : Bridge F S) → (f b).sent ≡ b.sent)
      → ((b : Bridge F S) → (f b).state.escalated ≡ b.state.escalated)
      → Keeps (modify f)
  unfolding modify
  modify-Keeps f sends says = record { keeps = λ b o. q.frame b (f b) (sends b) (says b) o }

  pub line-Keeps : (f : Line F → Line F) → Keeps (on_line f)
  unfolding on_line
  line-Keeps f = record { keeps = λ b o. q.frame b _ refl refl o }

  -- What is sent is no escalation.
  pub send-Keeps : (out : Output) → as_event out ≡ 0 → as_hook out ≡ 0 → Keeps (send out)
  unfolding send
  send-Keeps out e h = record { keeps = λ b o. q.sends b (out ∷ []) (omega arith) (omega arith) o }

  pub emit-Keeps :
      (hooks : Hooks) (event : Event) → as_event (emitted event) ≡ 0 → Keeps (emit hooks event)
  unfolding emit
  emit-Keeps hooks event e = when-Keeps hooks.on_event (send-Keeps (emitted event) e refl)

  -- An assignment to the call's state that leaves `escalated`.
  state-Keeps :
      (f : CallState → CallState)
      → ((s : CallState) → (f s).escalated ≡ s.escalated)
      → Keeps (on_state fl setup f)
  unfolding on_state modify
  state-Keeps f says = record { keeps = λ b o. q.frame b _ refl (says b.state) o }

  record_turn-Keeps : (role : Role) (text : Text) → Keeps (record_turn fl setup role text)
  unfolding record_turn reading
  record_turn-Keeps role text =
      when-Keeps hooks.on_turn
        (record { keeps = λ b. (send-Keeps (turn role text _ _) refl refl).keeps b })

  -- A turn that is counted and recorded.
  pub agent_turn-Keeps :
      (text : Text)
      → Keeps (
          on_state fl setup (λ s. record s { agent_turns = s.agent_turns + 1 })
          >> record_turn fl setup agent text)
  agent_turn-Keeps text =
      then-Keeps (state-Keeps (λ s. record s { agent_turns = s.agent_turns + 1 }) (λ s. refl))
        (record_turn-Keeps agent text)

  pub on_agent_transcript-Keeps : (text : Text) → Keeps (on_agent_transcript fl setup text)
  unfolding on_agent_transcript
  on_agent_transcript-Keeps text = when-Keeps (not (is_empty (strip text))) (agent_turn-Keeps text)

  -- A step of the cut.
  cut_on-Keeps : Keeps (on_line (λ l. cut_next l.cut l))
  cut_on-Keeps = line-Keeps (λ l. cut_next l.cut l)

  finish_cut-Keeps : (before : Bridge F S) → Keeps (finish_cut fl setup before)
  unfolding finish_cut
  finish_cut-Keeps before =
      then-Keeps (then-Keeps (then-Keeps cut_on-Keeps cut_on-Keeps) cut_on-Keeps)
        (emit-Keeps hooks _ refl)

  note_truncation-Keeps : (before : Bridge F S) → Keeps (note_truncation fl setup before)
  unfolding note_truncation
  note_truncation-Keeps before = elim (Option-cases before.line.ledger.current_item_id) [
    | inl absent ↦ rw (absent, note_truncation) skip-Keeps
    | inr (item, present) ↦
        rw (present, note_truncation)
          (then-Keeps
            (when-Keeps _ (
              modify-Keeps (λ b. record b { barge_ins = b.barge_ins + 1 }) (λ b. refl) (λ b. refl)))
            (when-Keeps _ (send-Keeps (truncated item _) refl refl)))
  ]

  pub on_barge_in-Keeps : Keeps (on_barge_in fl setup)
  unfolding on_barge_in skip
  on_barge_in-Keeps = record {
    keeps = λ b o. elim (Option-cases b.controller) [
      | inl absent ↦ rw (absent, on_barge_in) o
      | inr (sid, present) ↦
          rw (present, on_barge_in)
            ((then-Keeps (then-Keeps (line-Keeps (barge_in_cut fl sid)) (finish_cut-Keeps b))
                (note_truncation-Keeps b)).keeps
              b o)
    ];
  }

  pub preempt-Keeps : Keeps (preempt fl setup)
  unfolding preempt skip
  preempt-Keeps = record {
    keeps = λ b o. elim (Option-cases b.controller) [
      | inl absent ↦ rw (absent, preempt) o
      | inr (sid, present) ↦
          rw (present, preempt)
            ((then-Keeps (line-Keeps (safety_cut fl sid)) (finish_cut-Keeps b)).keeps b o)
    ];
  }

  classify_sentiment-Keeps : (text : Text) → Keeps (classify_sentiment fl setup text)
  unfolding classify_sentiment reading
  classify_sentiment-Keeps text = record {
    keeps = λ b. (when-Keeps _ (send-Keeps (to_model _) refl refl)).keeps b;
  }

  pub note_invocation-Keeps : (inv : Invocation) → Keeps (note_invocation fl setup inv)
  unfolding note_invocation record_tool
  note_invocation-Keeps inv =
      then-Keeps
        (then-Keeps
          (modify-Keeps
            (λ b. record b {
              line = record b.line { pending_response_start = some (now fl setup b) };
            })
            (λ b. refl) (λ b. refl))
          (state-Keeps
            (λ s. record_tool s (record {
              name = inv.name;
              status = inv.result.status;
              latency_ms = inv.latency_ms;
              attempt = inv.attempts;
            }))
            (λ s. refl)))
        (emit-Keeps hooks _ refl)

  after_dispatch-Keeps :
      (check : Handler F S) (inv : Invocation)
      → Keeps check
      → Keeps (after_dispatch fl setup check inv)
  unfolding after_dispatch
  after_dispatch-Keeps check inv k = then-Keeps (note_invocation-Keeps inv) k

  dispatch-Keeps :
      (check : Handler F S) (call : FunctionCall)
      → Keeps check
      → Keeps (dispatch fl setup check call)
  unfolding dispatch raise
  dispatch-Keeps check call k = record {
    keeps = λ b o.
        let d =
          dispatch_with_masking latency_ms hooks.on_invocation call registry context b.world in
        let quiet = total-dispatch d.1 in
        let b' = record b { sent = b.sent ++ map to_dispatch d.1 } in
        let o' : P b' = q.sends b (map to_dispatch d.1) quiet.0 quiet.1 o in
        elim (Result-cases d.0) [
          | inr (e, bad) ↦ rw (bad, dispatch) (q.frame b' _ refl refl o')
          | inl ((inv, world), good) ↦
              rw (good, dispatch)
                ((after_dispatch-Keeps check inv k).keeps _ (q.frame b' _ refl refl o'))
        ];
  }

  pub transfer-Keeps :
      (check : Handler F S) (decision : EscalationDecision)
      → Keeps check
      → Keeps (transfer fl setup check decision)
  unfolding transfer skip
  transfer-Keeps check decision k = record {
    keeps = λ b o. elim (Option-cases (get "transfer_to_human" registry)) [
      | inl absent ↦ rw (absent, transfer) o
      | inr (spec, present) ↦ rw (present, transfer) ((dispatch-Keeps check _ k).keeps b o)
    ];
  }

  -- Handlers that check the escalation, where the check keeps the property.
  module _ (check : Keeps (check_escalation fl setup escalation_depth)) where
    pub on_call-Keeps : (call : FunctionCall) → Keeps (on_call fl setup call)
    unfolding on_call
    on_call-Keeps call = dispatch-Keeps (check_escalation fl setup escalation_depth) call check

    pub on_sentiment_verdict-Keeps : (label : Text) → Keeps (on_sentiment_verdict fl setup label)
    unfolding on_sentiment_verdict record_sentiment reading
    on_sentiment_verdict-Keeps label = when-Keeps _ (
        then-Keeps
          (then-Keeps (state-Keeps (λ s. record_sentiment s _) (λ s. refl))
            (record { keeps = λ b. (emit-Keeps hooks (sentiment _ _) refl).keeps b }))
          check)

    pub on_caller_transcript-Keeps : (text : Text) → Keeps (on_caller_transcript fl setup text)
    unfolding on_caller_transcript
    on_caller_transcript-Keeps text = when-Keeps _ (
        then-Keeps
          (then-Keeps
            (then-Keeps
              (state-Keeps
                (λ s. record s { last_caller_text = text; caller_turns = s.caller_turns + 1 })
                (λ s. refl))
              (record_turn-Keeps caller text))
            check)
          (classify_sentiment-Keeps text))
