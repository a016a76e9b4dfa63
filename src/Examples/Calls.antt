-- ===== src/Examples/Calls.antt =====
-- Runs about a call: hours, escalation, qualification and the configuration.
use revenue_recovery_voice_a.Base.{
  is_digit, is_decimal, is_other_decimal, err, value_error, ℕ, ◌≡◌, refl, ap, true, not, ◌&&◌, ◌||◌,
  List, [], ◌∷◌, Option, some, Text, codes, pos, is_some, ok, arith, text_eq, ltb, ◌==◌, ◌∙◌,
  Bool-cases, inl, inr,
}
use revenue_recovery_voice_a.Config.{ClientConfig}
use revenue_recovery_voice_a.Config.Valid.{
  valid_range, matches_time_range, match_clock, match_dash, at_end, is_hour,
}
use revenue_recovery_voice_a.Config.Loader.{reload, load_all}
use revenue_recovery_voice_a.Config.Loader.Routing.{IsRouted, reload-IsRouted}
use revenue_recovery_voice_a.Domain.State.{ToolOutcome, ToolStatus}
use revenue_recovery_voice_a.Domain.Escalation.{should_escalate}
use revenue_recovery_voice_a.Domain.Escalation.Priority.{Explains, should_escalate-Explains}
use revenue_recovery_voice_a.Domain.Hours.{
  LocalTime, OpenWindow, aware, next_open, is_open, parse_range, window_for, day_entry, weekday,
  contains, in_window, local_now, split_range, cut_dash, from_isoformat, two_digits,
}
use revenue_recovery_voice_a.Domain.Hours.First.{WindowsParse, IsFirst, next_open-IsFirst}
use revenue_recovery_voice_a.Domain.Hours.Dispatch.{is_never}
use revenue_recovery_voice_a.Domain.Hours.Parsing.{IsAscii, WithinDay, valid_range-parse_range}
use revenue_recovery_voice_a.Domain.Qualification.{Qualification, books, qualify}
use revenue_recovery_voice_a.Domain.Qualification.Rules.{books_exactly, is_routine, in_area}
use revenue_recovery_voice_a.Examples.Data.{F, client, state, calm, zone, registry, disk}

abbrev all_day : OpenWindow
all_day = record { start = 28800000000; end_time = 64800000000 }

day_entry-same : (d : ℕ) → day_entry client.hours.regular d ≡ codes "08:00-18:00"
unfolding day_entry
day_entry-same d = elim (Bool-cases (ltb d 5)) [
  | inl working ↦ rw working refl
  | inr weekend ↦ elim (Bool-cases (d == 5)) [
    | inl saturday ↦ rw weekend (rw saturday refl)
    | inr sunday ↦ rw weekend (rw sunday refl)
  ]
]

parse_range-all_day : parse_range (codes "08:00-18:00") ≡ ok (some all_day)
unfolding parse_range split_range cut_dash from_isoformat two_digits text_eq is_digit
parse_range-all_day = refl

window_for-all_day : (t : LocalTime) → window_for client.hours t ≡ ok (some all_day)
unfolding window_for
window_for-all_day t = ap parse_range (day_entry-same (weekday t)) ∙ parse_range-all_day

windows-WindowsParse : WindowsParse client.hours
windows-WindowsParse = record {
  window = λ t. some all_day;
  parses = window_for-all_day;
  nonempty = λ t. omega arith;
}

next_open-IsFirst_example :
    (o : Option LocalTime) × (next_open zone client (aware (pos 0)) 14 ≡ ok o)
    × IsFirst client.hours (zone "America/Chicago" (pos 0)) 15 o
next_open-IsFirst_example = next_open-IsFirst zone client (pos 0) 14 windows-WindowsParse

hours-IsAscii : IsAscii (codes "08:00-18:00")
hours-IsAscii = (
  omega arith,
  (
    omega arith,
    (
      omega arith,
      (
        omega arith,
        (
          omega arith,
          (
            omega arith,
            (omega arith, (omega arith, (omega arith, (omega arith, (omega arith, tt))))),
          ),
        ),
      ),
    ),
  ),
)

valid_range-parse_range_example :
    (o : Option OpenWindow) × (parse_range (codes "08:00-18:00") ≡ ok o) × WithinDay o
unfolding valid_range matches_time_range match_clock match_dash at_end is_hour is_digit is_decimal
    text_eq
valid_range-parse_range_example =
    valid_range-parse_range (codes "08:00-18:00") refl hours-IsAscii (omega arith)

-- A digit of another script passes the pattern, and the parser refuses it.
abbrev with_arabic_digit : Text
with_arabic_digit = b'0' ∷ 1635 ∷ codes ":00-18:00"

with_arabic_digit-valid : valid_range with_arabic_digit ≡ ok with_arabic_digit
unfolding valid_range matches_time_range match_clock match_dash at_end is_hour is_digit is_decimal
    is_other_decimal text_eq
with_arabic_digit-valid = refl

with_arabic_digit-refused : parse_range with_arabic_digit ≡ err value_error
unfolding parse_range split_range cut_dash from_isoformat two_digits text_eq is_digit
with_arabic_digit-refused = refl

abbrev with_newline : Text
with_newline = codes "08:00-18:00\n"

should_escalate-Explains_example :
    Explains state client.escalation (should_escalate state client.escalation)
should_escalate-Explains_example = should_escalate-Explains state client.escalation

books_exactly_example :
    (q : Qualification) × (qualify zone client (aware (pos 0)) calm ≡ ok q)
    × (books q ≡ (
        not (is_some (should_escalate calm client.escalation))
        && (in_area calm.in_service_area
            && (true || calm.is_emergency && not (is_never client.hours.emergency_dispatch)))))
    × (is_routine q.action ≡ (books q && true))
unfolding is_open local_now window_for parse_range day_entry weekday in_window contains split_range
    cut_dash from_isoformat two_digits text_eq is_digit
books_exactly_example = books_exactly zone client (aware (pos 0)) calm refl

abbrev outcomes : List ToolOutcome
outcomes =
    record { name = "a"; status = ToolStatus.unavailable; latency_ms = 1; attempt = 1 }
    ∷ record { name = "a"; status = ToolStatus.ok; latency_ms = 1; attempt = 1 }
    ∷ record { name = "a"; status = ToolStatus.denied; latency_ms = 1; attempt = 1 }
    ∷ []

reload-IsRouted_example : IsRouted registry
unfolding reload load_all
reload-IsRouted_example = reload-IsRouted disk registry {fresh = registry} refl

abbrev renamed : ClientConfig F
renamed = record client { display_name = codes "Acme" }
