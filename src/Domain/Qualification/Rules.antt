-- ===== src/Domain/Qualification/Rules.antt =====
-- What each action of `qualify` says of the call.
use revenue_recovery_voice_a.Base.{
  ◌≡◌, refl, Bool, true, false, not, ◌&&◌, ◌||◌, is_some, Option, none, some, String, ℤ, ok, arith,
  Option-cases, Bool-cases, Text, List, [], ◌∷◌, ◌++◌, ap, ◌∙◌, codes, is_infix-append, inl, inr,
  is_infix, lower,
}
use revenue_recovery_voice_a.Config.{ClientConfig}
use revenue_recovery_voice_a.Domain.State.{CallState}
use revenue_recovery_voice_a.Domain.Escalation.{
  should_escalate, first_keyword, matched_safety_keyword,
}
use revenue_recovery_voice_a.Domain.Hours.{LocalTime, Moment, is_open}
use revenue_recovery_voice_a.Domain.Hours.Dispatch.{
  is_never, prescribed, dispatch_decision-prescribed,
}
use revenue_recovery_voice_a.Domain.Qualification.{
  QualificationAction, Qualification, book, escalate, callback, out_of_area, books, repr,
  by_dispatch, qualify, qualify_in_area,
}

abbrev pub is_routine : QualificationAction → Bool
is_routine book = true
is_routine _ = false

abbrev pub in_area : Option Bool → Bool
in_area (some b) = b
in_area none = false

keyword_fires :
    (haystack : Text) (before after : List Text) (k : Text)
    → is_infix k haystack ≡ true
    → (j : Text) × (first_keyword haystack (before ++ (k ∷ after)) ≡ some j)
unfolding first_keyword
keyword_fires haystack [] after k h = (k, ground arith)
keyword_fires haystack (x ∷ before) after k h = elim (Bool-cases (is_infix x haystack)) [
  | inl hit ↦ (x, rw hit refl)
  | inr miss ↦ let (j, fires) = keyword_fires haystack before after k h in (j, rw miss fires)
]

module _ (zone : String → ℤ → LocalTime) {F : Type 0} (cfg : ClientConfig F) (now : Moment) where
  area_books :
      (s : CallState) (a : Option Bool) {o : Bool}
      → is_open zone cfg now ≡ ok o
      → (q : Qualification) × (qualify_in_area zone cfg now s a ≡ ok q)
        × (books q
            ≡ (in_area a && (o || s.is_emergency && not (is_never cfg.hours.emergency_dispatch))))
        × (is_routine q.action ≡ (books q && o))
  unfolding qualify_in_area
  area_books s none h = (
    record { action = callback; reason = codes "service area not yet established" },
    refl,
    refl,
    refl,
  )
  area_books s (some false) h = (
    record {
      action = out_of_area cfg.service_area.out_of_area_action;
      reason = codes "postcode " ++ (repr s.postcode ++ codes " outside service area");
    },
    refl,
    ground arith,
    ground arith,
  )
  area_books s (some true) {o} h = (
    by_dispatch (prescribed o s.is_emergency cfg.hours.emergency_dispatch),
    rw (dispatch_decision-prescribed zone cfg now s.is_emergency h) refl,
    ground arith,
    ground arith,
  )

  -- While the clock can be read, `qualify` returns, and it books exactly if nothing escalates the
  -- call, the address is known to be in the area, and the business is open or the call is an
  -- emergency under a policy other than "never". It books routinely exactly if it books in open hours.
  pub books_exactly :
      (s : CallState) {o : Bool}
      → is_open zone cfg now ≡ ok o
      → (q : Qualification) × (qualify zone cfg now s ≡ ok q)
        × (books q ≡ (
            not (is_some (should_escalate s cfg.escalation))
            && (in_area s.in_service_area
                && (o || s.is_emergency && not (is_never cfg.hours.emergency_dispatch)))))
        × (is_routine q.action ≡ (books q && o))
  unfolding qualify
  books_exactly s {o} h = elim (Option-cases (should_escalate s cfg.escalation)) [
    | inr (e, fired) ↦ (
      record { action = escalate; reason = e.detail },
      rw (fired, qualify) refl,
      rw fired refl,
      refl,
    )
    | inl quiet ↦
        let (q, found, booked, routine) = area_books s s.in_service_area h in
        (q, rw (quiet, qualify) found, rw quiet booked, routine)
  ]

  -- A call whose caller says one of the safety keywords, anywhere in the text and in any letter
  -- case, is answered with "escalate" and a safety detail, whatever else holds of the call, the
  -- clock, the address and the policies.
  safety_preempts :
      (s : CallState) (before after : List Text) (k a b : Text)
      → cfg.escalation.safety_keywords ≡ before ++ (k ∷ after)
      → lower s.last_caller_text ≡ a ++ (k ++ b)
      → (j : Text) × (qualify zone cfg now s
          ≡ ok (record { action = escalate; reason = codes "safety keyword: " ++ j }))
  unfolding qualify should_escalate matched_safety_keyword
  safety_preempts s before after k a b listed said =
      let (j, fires) =
        keyword_fires (lower s.last_caller_text) before after k
          (ap (is_infix k) said ∙ is_infix-append a k b) in
      (j, rw (ap (first_keyword (lower s.last_caller_text)) listed ∙ fires, qualify) refl)
