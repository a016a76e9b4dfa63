-- ===== src/Telephony/Recording.antt =====
-- `apps/api/telephony/recording.py`: starting a recording on a live call. The POST is a parameter.
use revenue_recovery_voice_a.Base.{Bool, true, false, not, ◌||◌, String, leb}
use revenue_recovery_voice_a.Resilience.{Exchange, response, failed}
use revenue_recovery_voice_a.Telephony.Sms.{Settings, is_blank}

module _ {S : Type 0} (post : String → S → Exchange × S) (settings : Settings) where
  -- `start_call_recording`
  unfoldable start_call_recording : String → S → Bool × S
  start_call_recording call_sid world =
      elim (not settings.twilio_recording_enabled || is_blank call_sid) [
        | true ↦ (false, world)
        | false ↦
            let (reply, world') = post call_sid world in
            (elim reply [ response r ↦ not (leb 400 r.status_code) | failed e ↦ false ], world')
      ]
