-- ===== src/Domain/Hours/Dispatch.antt =====
-- `apps/api/domain/hours.py`: dispatch and the emergency fee against the clock.
use revenue_recovery_voice_a.Base.{
  ◌≡◌, Bool, true, false, is_some, ok, arith, String, ℤ, not, ◌&&◌, if◌then◌else◌,
}
use revenue_recovery_voice_a.Config.{ClientConfig, EmergencyDispatch, never}
use revenue_recovery_voice_a.Domain.Hours.{
  LocalTime, Moment, DispatchDecision, open_hours, emergency_only, closed, is_open, closed_decision,
  dispatch_decision, applies_emergency_fee,
}

abbrev pub is_never : EmergencyDispatch → Bool
is_never never = true
is_never _ = false

-- The answer that the policy prescribes, from what is known of the clock and the caller.
abbrev pub prescribed : Bool → Bool → EmergencyDispatch → DispatchDecision
prescribed true emergency policy = open_hours
prescribed false emergency policy =
    if emergency && not (is_never policy) then emergency_only else closed

abbrev is_open_hours : DispatchDecision → Bool
is_open_hours open_hours = true
is_open_hours _ = false

module _ (zone : String → ℤ → LocalTime) {F : Type 0} (cfg : ClientConfig F) (now : Moment) where
  -- At every clock, policy and emergency flag the decision is the prescribed one: open hours
  -- whenever the business is open, emergency dispatch when it is closed, the caller has an
  -- emergency and the policy is not "never", closed otherwise.
  pub dispatch_decision-prescribed :
      (emergency : Bool) {o : Bool}
      → is_open zone cfg now ≡ ok o
      → dispatch_decision zone cfg now emergency
        ≡ ok (prescribed o emergency cfg.hours.emergency_dispatch)
  unfolding dispatch_decision closed_decision
  dispatch_decision-prescribed emergency h = ground arith

  -- Whatever the dispatch decision was, the fee applies exactly if one is configured, the caller has
  -- an emergency and the decision was not open hours: never to a call booked in open hours, and
  -- to every call that is dispatched as an emergency.
  fee_follows_dispatch :
      (emergency : Bool) {d : DispatchDecision}
      → dispatch_decision zone cfg now emergency ≡ ok d
      → applies_emergency_fee zone cfg now emergency
        ≡ ok (is_some cfg.booking.emergency_fee_usd && (emergency && not (is_open_hours d)))
  unfolding dispatch_decision closed_decision applies_emergency_fee
  fee_follows_dispatch emergency h = ground arith
