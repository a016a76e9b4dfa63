-- ===== src/Media/Bridge/Events/Close.antt =====
-- `aclose` of `apps/api/media/bridge.py` in the middle of a turn, and again after it.
use revenue_recovery_voice_a.Base.{
  ◌+◌, true, false, [], ◌∷◌, ◌++◌, FloatOps, ◌≡◌, refl, ok, is_empty, strip, ℤ,
}
use mathlib.Core.List.{append_assoc}
use revenue_recovery_voice_a.Media.Outbound.{millis_since}
use revenue_recovery_voice_a.Media.Bridge.{
  agent, turn, TurnMeta, closed_realtime, closed_twilio, Bridge, ◌>>◌, skip, modify, send, when,
  reading,
}
use revenue_recovery_voice_a.Media.Bridge.Turns.{Setup, now, meta_of, record_turn, on_state}
use revenue_recovery_voice_a.Media.Bridge.Events.{flush_partial_turn, aclose}

module _ (fl : FloatOps) {S : Type 0} (setup : Setup fl S) where
  open fl use {F}
  open setup use {hooks, config, registry}

  -- The call after it was closed in the middle of a turn.
  abbrev closed_in_turn : Bridge F S → Bridge F S
  closed_in_turn b = record b {
    closed = true;
    partial_agent_text = [];
    state = record b.state { agent_turns = b.state.agent_turns + 1 };
    sent =
        b.sent
        ++ (turn agent (strip b.partial_agent_text) (millis_since fl setup.started (now fl setup b))
              (meta_of fl setup agent b)
            ∷ closed_realtime
            ∷ closed_twilio
            ∷ []);
  }

  aclose-in_turn :
      (b : Bridge F S)
      → b.closed ≡ false
      → is_empty (strip b.partial_agent_text) ≡ false
      → hooks.on_turn ≡ true
      → aclose fl setup b ≡ (ok tt, closed_in_turn b)
  unfolding aclose flush_partial_turn ◌>>◌ modify when skip on_state record_turn reading send
  aclose-in_turn b open_yet spoken recorded =
      rw (open_yet, aclose) (simp (spoken, recorded) (simp (append_assoc)))

  -- Where a turn is in progress and turns are recorded, closing records it once, closes both sockets
  -- after it and leaves nothing in progress; closing again changes nothing and sends nothing.
  aclose-once :
      (b : Bridge F S)
      → b.closed ≡ false
      → is_empty (strip b.partial_agent_text) ≡ false
      → hooks.on_turn ≡ true
      → let b' = (aclose fl setup b).1 in
        (at_ms : ℤ) × (meta : TurnMeta) × (b'.sent
          ≡ b.sent
            ++ (turn agent (strip b.partial_agent_text) at_ms meta
                ∷ closed_realtime
                ∷ closed_twilio
                ∷ []))
        × (b'.partial_agent_text ≡ [])
        × (b'.state.agent_turns ≡ b.state.agent_turns + 1)
        × (aclose fl setup b' ≡ (ok tt, b'))
  aclose-once b open_yet spoken recorded =
      rw (aclose-in_turn b open_yet spoken recorded)
        (_, _, refl, refl, refl, unfold aclose skip in refl)
