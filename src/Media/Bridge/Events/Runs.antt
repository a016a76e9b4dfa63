-- ===== src/Media/Bridge/Events/Runs.antt =====
-- `apps/api/media/bridge.py`: a whole call, whatever the messages of its sockets.
use revenue_recovery_voice_a.Base.{
  ◌+◌, Bool, true, List, [], ◌∷◌, ◌++◌, Option, some, String, Json, FloatOps, ◌≡◌, refl, arith,
  Bool-cases, Option-cases, inl, inr, Result, ok, err, text_eq,
}
use revenue_recovery_voice_a.Domain.State.{CallState}
use revenue_recovery_voice_a.Media.Outbound.{send_audio, on_item, on_mark}
use revenue_recovery_voice_a.Media.Realtime.{
  append_audio, oob_topic, oob_topic_sentiment, response_output_text, truthy_text,
}
use revenue_recovery_voice_a.Media.Bridge.{
  Event, twilio_connected, stream_started, Output, to_model, emitted, closed_realtime,
  closed_twilio, Bridge, Handler, resume, ◌>>◌, skip, modify, send, when, emit, new_bridge,
}
use revenue_recovery_voice_a.Media.Bridge.Turns.{Setup, check_escalation, escalation_depth}
use revenue_recovery_voice_a.Media.Bridge.Turns.Counts.{as_event, as_hook, KeepsP, resume-keeps}
use revenue_recovery_voice_a.Media.Bridge.Turns.Quiet.{
  then-Keeps, when-Keeps, skip-Keeps, raise-Keeps, modify-Keeps, line-Keeps, send-Keeps, emit-Keeps,
  agent_turn-Keeps, on_agent_transcript-Keeps, on_barge_in-Keeps, on_call-Keeps,
  on_sentiment_verdict-Keeps, on_caller_transcript-Keeps,
}
use revenue_recovery_voice_a.Media.Bridge.Turns.Once.{
  IsOnce, IsOnce-IsQuiet, check_escalation-IsOnce,
}
use revenue_recovery_voice_a.Media.Bridge.Events.{
  TwilioMessage, disconnected, bad_json, connected, stop, other, media, start, mark, RealtimeEvent,
  audio_delta, speech_started, speech_stopped, response_cancelled, item_added, input_transcript,
  transcript_delta, transcript_done, function_call, response_done, error, set_latency, greet,
  on_stream_start, set_stopped, on_twilio, raised_in, on_response_done, on_realtime,
  flush_partial_turn, aclose, SocketMessage, from_twilio, from_model, run_messages, finish,
  run_call,
}

module _ (fl : FloatOps) {S : Type 0} (setup : Setup fl S) where
  open fl use {F}
  open setup use {hooks, config, registry}

  abbrev Keeps : Handler F S → Type 0
  Keeps = KeepsP IsOnce

  -- The rules for handlers, at this property.
  then_kept : {first second : Handler F S} → Keeps first → Keeps second → Keeps (first >> second)
  then_kept f s = then-Keeps fl setup IsOnce IsOnce-IsQuiet f s

  when_kept : {h : Handler F S} (test : Bool) → Keeps h → Keeps (when test h)
  when_kept test k = when-Keeps fl setup IsOnce IsOnce-IsQuiet test k

  send_kept : (out : Output) → as_event out ≡ 0 → as_hook out ≡ 0 → Keeps (send out)
  send_kept out e h = send-Keeps fl setup IsOnce IsOnce-IsQuiet out e h

  emit_kept : (event : Event) → as_event (emitted event) ≡ 0 → Keeps (emit hooks event)
  emit_kept event e = emit-Keeps fl setup IsOnce IsOnce-IsQuiet hooks event e

  modify_kept :
      (f : Bridge F S → Bridge F S)
      → ((b : Bridge F S) → (f b).sent ≡ b.sent)
      → ((b : Bridge F S) → (f b).state.escalated ≡ b.state.escalated)
      → Keeps (modify f)
  modify_kept f sends says = modify-Keeps fl setup IsOnce IsOnce-IsQuiet f sends says

  set_latency-Keeps :
      (since : Bridge F S → Option F) (reset : Bool) → Keeps (set_latency fl setup since reset)
  unfolding set_latency
  set_latency-Keeps since reset = record { keeps = λ b o. o }

  greet-Keeps : Keeps (greet fl setup)
  unfolding greet
  greet-Keeps = elim (Option-cases (truthy_text config.realtime.greeting)) [
    | inl absent ↦ rw (absent, greet) (send_kept _ refl refl)
    | inr (text, present) ↦ rw (present, greet) (send_kept _ refl refl)
  ]

  on_stream_start-Keeps : (sid : String) → Keeps (on_stream_start fl setup sid)
  unfolding on_stream_start
  on_stream_start-Keeps sid =
      then_kept
        (then_kept
          (then_kept
            (then_kept
              (modify_kept
                (λ b. record b { line = record b.line { stream_sid = sid }; controller = some sid })
                (λ b. refl) (λ b. refl))
              (send_kept _ refl refl))
            greet-Keeps)
          (set_latency-Keeps _ _))
        (emit_kept (stream_started sid) refl)

  set_stopped-Keeps : Keeps (set_stopped fl setup)
  unfolding set_stopped
  set_stopped-Keeps = modify_kept (λ b. record b { stopped = true }) (λ b. refl) (λ b. refl)

  skip_kept : Keeps skip
  skip_kept = skip-Keeps fl setup IsOnce IsOnce-IsQuiet

  on_twilio-Keeps : (m : TwilioMessage) → Keeps (on_twilio fl setup m)
  unfolding on_twilio
  on_twilio-Keeps disconnected = set_stopped-Keeps
  on_twilio-Keeps bad_json = skip_kept
  on_twilio-Keeps connected = emit_kept twilio_connected refl
  on_twilio-Keeps (media payload) =
      then_kept
        (modify_kept (λ b. record b { frames_from_caller = b.frames_from_caller + 1 }) (λ b. refl)
          (λ b. refl))
        (send_kept (to_model (append_audio payload)) refl refl)
  on_twilio-Keeps (start sid) = on_stream_start-Keeps sid
  on_twilio-Keeps (mark name) = line-Keeps fl setup IsOnce IsOnce-IsQuiet (on_mark name)
  on_twilio-Keeps stop = set_stopped-Keeps
  on_twilio-Keeps other = skip_kept

  raised_in-Keeps :
      {A : Type 0} (r : Result A) (later : A → Handler F S)
      → ((a : A) → Keeps (later a))
      → Keeps (raised_in fl setup r later)
  unfolding raised_in
  raised_in-Keeps (ok a) later k = k a
  raised_in-Keeps (err e) later k = raise-Keeps fl setup IsOnce IsOnce-IsQuiet e

  -- What the methods that check the escalation keep.
  check : Keeps (check_escalation fl setup escalation_depth)
  check = check_escalation-IsOnce fl setup escalation_depth

  on_response_done-Keeps : (event : Json) → Keeps (on_response_done fl setup event)
  unfolding on_response_done
  on_response_done-Keeps event = raised_in-Keeps (oob_topic event) _ (λ topic.
      elim (Bool-cases (text_eq topic oob_topic_sentiment)) [
        | inl verdict ↦ rw verdict (
            raised_in-Keeps (response_output_text event) _
              (on_sentiment_verdict-Keeps fl setup IsOnce IsOnce-IsQuiet check))
        | inr spoken ↦ rw spoken (set_latency-Keeps _ _)
      ])

  on_realtime-Keeps : (e : RealtimeEvent) → Keeps (on_realtime fl setup e)
  unfolding on_realtime
  on_realtime-Keeps (audio_delta delta) =
      line-Keeps fl setup IsOnce IsOnce-IsQuiet (send_audio delta)
  on_realtime-Keeps speech_started = on_barge_in-Keeps fl setup IsOnce IsOnce-IsQuiet
  on_realtime-Keeps speech_stopped = set_latency-Keeps _ _
  on_realtime-Keeps (item_added type id) =
      when_kept _ (line-Keeps fl setup IsOnce IsOnce-IsQuiet (on_item id))
  on_realtime-Keeps (input_transcript transcript) =
      on_caller_transcript-Keeps fl setup IsOnce IsOnce-IsQuiet check transcript
  on_realtime-Keeps (transcript_delta delta) =
      modify_kept (λ b. record b { partial_agent_text = b.partial_agent_text ++ delta }) (λ b. refl)
        (λ b. refl)
  on_realtime-Keeps (transcript_done transcript) =
      then_kept (modify_kept (λ b. record b { partial_agent_text = [] }) (λ b. refl) (λ b. refl))
        (on_agent_transcript-Keeps fl setup IsOnce IsOnce-IsQuiet transcript)
  on_realtime-Keeps (function_call call) =
      raised_in-Keeps call _ (on_call-Keeps fl setup IsOnce IsOnce-IsQuiet check)
  on_realtime-Keeps (response_done event) = on_response_done-Keeps event
  on_realtime-Keeps response_cancelled = set_latency-Keeps _ _
  on_realtime-Keeps (error code) =
      modify_kept (λ b. record b { errors = b.errors ++ (code ∷ []) }) (λ b. refl) (λ b. refl)
  on_realtime-Keeps other = skip_kept

  flush_partial_turn-Keeps : Keeps (flush_partial_turn fl setup)
  unfolding flush_partial_turn
  flush_partial_turn-Keeps = record {
    keeps = λ b.
        (then_kept
            (modify_kept (λ b'. record b' { partial_agent_text = [] }) (λ b'. refl) (λ b'. refl))
            (when_kept _ (agent_turn-Keeps fl setup IsOnce IsOnce-IsQuiet _))).keeps
          b;
  }

  aclose-Keeps : Keeps (aclose fl setup)
  unfolding aclose skip
  aclose-Keeps = record {
    keeps = λ b o. elim (Bool-cases b.closed) [
      | inl already ↦ rw (already, aclose) o
      | inr open_yet ↦
          rw (open_yet, aclose)
            ((then_kept
                (then_kept
                  (then_kept
                    (modify_kept (λ b'. record b' { closed = true }) (λ b'. refl) (λ b'. refl))
                    flush_partial_turn-Keeps)
                  (send_kept closed_realtime refl refl))
                (send_kept closed_twilio refl refl)).keeps
              b o)
    ];
  }

  run_messages-Keeps : (ms : List SocketMessage) → Keeps (run_messages fl setup ms)
  unfolding run_messages skip
  run_messages-Keeps [] = record { keeps = λ b o. o }
  run_messages-Keeps (m ∷ ms) = record {
    keeps = λ b o. elim (Bool-cases b.stopped) [
      | inl over ↦ rw (over, run_messages) o
      | inr on ↦
          rw (on, run_messages)
            (elim m
              as (λ m.
                IsOnce
                  (elim m as (λ m. Result (Unit {0}) × Bridge F S) [
                    | from_twilio t ↦ resume (on_twilio fl setup t b) (run_messages fl setup ms)
                    | from_model e ↦ resume (on_realtime fl setup e b) (run_messages fl setup ms)
                  ]).1) [
                    | from_twilio t ↦
                        resume-keeps _ _ ((on_twilio-Keeps t).keeps b o) (run_messages-Keeps ms)
                    | from_model e ↦
                        resume-keeps _ _ ((on_realtime-Keeps e).keeps b o) (run_messages-Keeps ms)
                  ])
    ];
  }

  -- In a call, from its start to its end and whatever its sockets bring, the escalation is announced
  -- by at most one event and one call of the hook, and by none as long as the state says that the
  -- call is not escalated.
  pub run_call-IsOnce :
      (ms : List SocketMessage) (state : CallState) (world : S)
      → IsOnce (run_call fl setup ms (new_bridge state world))
  unfolding run_call finish new_bridge
  run_call-IsOnce ms state world =
      aclose-Keeps.keeps _ ((run_messages-Keeps ms).keeps (new_bridge state world) (omega arith))
