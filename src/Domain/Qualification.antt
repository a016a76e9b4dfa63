-- ===== src/Domain/Qualification.antt =====
-- `apps/api/domain/qualification.py`: book, escalate, refer, decline or call back. The reason quotes
-- the postcode as `repr` does for a text without quotes, backslashes and control characters.
pub mod Rules
use revenue_recovery_voice_a.Base.{
  Bool, true, false, List, [], ◌∷◌, ◌++◌, Option, none, some, Text, String, ℤ, codes, Result, ok,
  err, ◌>>=◌,
}
use revenue_recovery_voice_a.Config.{
  ClientConfig, OutOfAreaAction, capture_and_refer, decline, transfer,
}
use revenue_recovery_voice_a.Domain.State.{CallState}
use revenue_recovery_voice_a.Domain.Escalation.{EscalationDecision, should_escalate}
use revenue_recovery_voice_a.Domain.Hours.{
  LocalTime, Moment, DispatchDecision, open_hours, emergency_only, closed, dispatch_decision,
}

pub data QualificationAction : Type 0 where
  book book_emergency refer escalate decline_call callback : QualificationAction

pub record Qualification : Type 0 where
  pub action : QualificationAction
  pub reason : Text

abbrev is_booking : QualificationAction → Bool
is_booking book = true
is_booking book_emergency = true
is_booking _ = false

-- `Qualification.books`
abbrev pub books : Qualification → Bool
books q = is_booking q.action

-- The dict of actions by `out_of_area_action`.
unfoldable pub out_of_area : OutOfAreaAction → QualificationAction
out_of_area capture_and_refer = refer
out_of_area decline = decline_call
out_of_area transfer = escalate

-- `{postcode!r}`
unfoldable pub repr : Option Text → Text
repr none = codes "None"
repr (some p) = codes "'" ++ (p ++ codes "'")

unfoldable pub by_dispatch : DispatchDecision → Qualification
by_dispatch open_hours = record { action = book; reason = codes "in area, business open" }
by_dispatch emergency_only = record {
  action = book_emergency;
  reason = codes "in area, emergency dispatch";
}
by_dispatch closed = record { action = callback; reason = codes "closed, non-emergency" }

module _ (zone : String → ℤ → LocalTime) {F : Type 0} (cfg : ClientConfig F) (now : Moment) where
  -- The tests of `in_service_area`, and the dispatch decision for a call in the area.
  unfoldable pub qualify_in_area : CallState → Option Bool → Result Qualification
  unfolding by_dispatch out_of_area repr
  qualify_in_area state (some false) = ok (record {
    action = out_of_area cfg.service_area.out_of_area_action;
    reason = codes "postcode " ++ (repr state.postcode ++ codes " outside service area");
  })
  qualify_in_area state none =
      ok (record { action = callback; reason = codes "service area not yet established" })
  qualify_in_area state (some true) =
      dispatch_decision zone cfg now state.is_emergency >>= λ d. ok (by_dispatch d)

  -- `qualify`
  unfoldable pub qualify : CallState → Result Qualification
  unfolding qualify_in_area
  qualify state = elim (should_escalate state cfg.escalation) [
    | some e ↦ ok (record { action = escalate; reason = e.detail })
    | none ↦ qualify_in_area state state.in_service_area
  ]
