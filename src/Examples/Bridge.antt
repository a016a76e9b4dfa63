-- ===== src/Examples/Bridge.antt =====
-- Runs of the bridge: its audio, and calls over the messages of its sockets.
use revenue_recovery_voice_a.Base.{ℕ, ◌+◌, ◌≡◌, refl, true, false, List, [], ◌∷◌, codes, end, pos}
use revenue_recovery_voice_a.Base.Fixed.{fixed}
use revenue_recovery_voice_a.Media.Outbound.{
  Line, OutboundAudio, new_line, send_audio, enqueue, put_nowait, pump_take, barge_in_cut, media,
  clear,
}
use revenue_recovery_voice_a.Media.Outbound.Steps.{
  Reach, here, next, stream_started, audio, taken, speech_started,
}
use revenue_recovery_voice_a.Media.Outbound.Fresh.{IsFresh, Reach-IsFresh, safety_cut-stale}
use revenue_recovery_voice_a.Media.Outbound.Accounts.{IsBalanced, Reach-IsBalanced}
use revenue_recovery_voice_a.Media.Bridge.{Bridge, new_bridge}
use revenue_recovery_voice_a.Media.Bridge.Turns.{Setup, check_escalation}
use revenue_recovery_voice_a.Media.Bridge.Turns.Once.{IsOnce, check_escalation-ends}
use revenue_recovery_voice_a.Media.Bridge.Events.{
  SocketMessage, from_twilio, from_model, start, input_transcript, run_call,
}
use revenue_recovery_voice_a.Media.Bridge.Events.Runs.{run_call-IsOnce}
use revenue_recovery_voice_a.Tools.Registry.{ToolSpec, replied}
use revenue_recovery_voice_a.Examples.Data.{F, client, calm, found, spec}

abbrev started : Line F
started = record new_line { stream_sid = "MZ1" }

abbrev one_frame : Line F
one_frame = send_audio (codes "AAAA") started

-- A frame is queued and taken by the pump, and then the caller speaks.
abbrev run :
    Reach fixed new_line (barge_in_cut fixed "MZ1" (pump_take one_frame.outbound one_frame))
unfolding new_line send_audio enqueue put_nowait pump_take
run =
    next (next (next (next here (stream_started "MZ1")) (audio (codes "AAAA") refl)) (taken refl))
      (speech_started "MZ1" refl)

Reach-IsFresh_example :
    IsFresh (barge_in_cut fixed "MZ1" (pump_take one_frame.outbound one_frame)).log
Reach-IsFresh_example = Reach-IsFresh fixed run

Reach-IsBalanced_example :
    IsBalanced (barge_in_cut fixed "MZ1" (pump_take one_frame.outbound one_frame))
Reach-IsBalanced_example = Reach-IsBalanced fixed run

abbrev frame : OutboundAudio
frame = record { mark_name = "m1"; payload_b64 = codes "AAAA"; decoded_bytes = pos 3 }

abbrev held : Line F
held = record new_line { stream_sid = "MZ1"; outbound = frame ∷ [] }

safety_cut-stale_example :
    (m : Line F) × Reach fixed held m
    × (m.log ≡ media held.stream_sid frame ∷ clear "MZ1" false ∷ held.log)
unfolding new_line
safety_cut-stale_example = safety_cut-stale fixed held "MZ1" frame [] refl refl refl

abbrev sound : List ℕ
sound = 255 ∷ 127 ∷ 0 ∷ 1 ∷ []

-- The transfer, which always works.
abbrev transfer_spec : ToolSpec ℕ
transfer_spec = record spec {
  name = "transfer_to_human";
  handler = λ kwargs budget_ms w. (replied found, w + 1);
}

abbrev setup : Setup fixed ℕ
setup = record {
  hooks = record {
    on_event = true;
    on_turn = true;
    on_truncation = true;
    on_invocation = true;
    on_escalation = true;
  };
  config = client;
  registry = ("transfer_to_human", transfer_spec) ∷ [];
  context = end;
  perf_counter = λ w. fixed.of_int (pos w);
  started = fixed.of_int (pos 0);
  escalation_id = λ w. "escalation-1";
  redact_pan = λ text. text;
  latency_ms = λ w w'. 5;
}

abbrev messages : List SocketMessage
messages =
    from_twilio (start "MZ1")
    ∷ from_model (input_transcript (codes "I smell gas, get me a person"))
    ∷ from_model (input_transcript (codes "hurry, I smell gas"))
    ∷ []

run_call-IsOnce_example : IsOnce (run_call fixed setup messages (new_bridge calm 0))
run_call-IsOnce_example = run_call-IsOnce fixed setup messages calm 0

check_escalation-ends_example :
    check_escalation fixed setup 7
      (new_bridge (record calm { last_caller_text = codes "I smell gas" }) 0)
    ≡ check_escalation fixed setup 1
        (new_bridge (record calm { last_caller_text = codes "I smell gas" }) 0)
check_escalation-ends_example =
    check_escalation-ends fixed setup 6
      (new_bridge (record calm { last_caller_text = codes "I smell gas" }) 0)

abbrev mid_turn : Bridge F ℕ
mid_turn = record (new_bridge calm 3) { partial_agent_text = codes "We can be there " }
