-- ===== src/Domain/Hours.antt =====
-- `apps/api/domain/hours.py`: opening windows, dispatch decisions and the next opening.
-- A wall-clock time of the business is a day of its calendar, counted from 1 January 1970, and
-- microseconds since midnight. The zone database is a parameter, from a zone's name and an
-- instant to the wall clock. Of `time.fromisoformat` only the form HH:MM is read; the other forms
-- raise here, and no validated configuration has them.
pub mod Parsing
pub mod First
pub mod Dispatch
use revenue_recovery_voice_a.Base.{
  ℕ, zero, suc, ◌+◌, ◌-◌, ◌*◌, ◌%◌, Bool, true, false, not, ◌&&◌, ◌||◌, List, [], ◌∷◌, Option, none,
  some, String, Text, ℤ, codes, text_eq, leb, ltb, ◌==◌, if◌then◌else◌, Result, ok, err,
  value_error, ◌>>=◌, FloatOps, is_digit,
}
use revenue_recovery_voice_a.Config.{
  EmergencyDispatch, always, never, after_hours_only, RegularHours, HoursConfig, ClientConfig,
}

pub data DispatchDecision : Type 0 where
  open_hours emergency_only closed : DispatchDecision

pub record LocalTime : Type 0 where
  pub day : ℕ
  pub time : ℕ

-- A `datetime` with no zone, or an instant in microseconds of the epoch.
pub data Moment : Type 0 where
  naive : LocalTime → Moment
  aware : ℤ → Moment

pub record OpenWindow : Type 0 where
  pub start : ℕ
  pub end_time : ℕ

-- `OpenWindow.contains`
unfoldable pub contains : OpenWindow → ℕ → Bool
contains w t = leb w.start t && ltb t w.end_time

-- The text up to the first dash, and what follows a dash if there is one.
unfoldable pub cut_dash : Text → Text × Option Text
cut_dash [] = ([], none)
cut_dash (c ∷ s) =
    let (part, rest) = cut_dash s in if c == b'-' then ([], some s) else (c ∷ part, rest)

-- `start_s, end_s = value.split("-")`, which raises unless there is exactly one dash
unfoldable pub split_range : Text → Result (Text × Text)
unfolding cut_dash
split_range v =
    let (a, rest) = cut_dash v in
    elim rest [
      | none ↦ err value_error
      | some s ↦
          let (b, more) = cut_dash s in elim more [ none ↦ ok (a, b) | some _ ↦ err value_error ]
    ]

-- Two decimal digits below `limit`.
unfoldable pub two_digits : ℕ → ℕ → ℕ → Option ℕ
unfolding is_digit
two_digits limit a b =
    let n = (a - b'0') * 10 + (b - b'0') in
    if is_digit a && is_digit b && ltb n limit then some n else none

abbrev pub minute_us : ℕ
minute_us = 60000000

abbrev pub day_us : ℕ
day_us = 86400000000

-- `time.fromisoformat` on HH:MM, in microseconds since midnight
unfoldable pub from_isoformat : Text → Result ℕ
unfolding two_digits
from_isoformat (a ∷ b ∷ c ∷ d ∷ e ∷ []) = elim (two_digits 24 a b) [
  | none ↦ err value_error
  | some hour ↦ elim (two_digits 60 d e) [
    | none ↦ err value_error
    | some minute ↦ if c == b':' then ok ((hour * 60 + minute) * minute_us) else err value_error
  ]
]
from_isoformat s = err value_error

-- `_parse_range`
unfoldable pub parse_range : Text → Result (Option OpenWindow)
unfolding split_range from_isoformat
parse_range value =
    if text_eq value (codes "closed")
    then ok none
    else (split_range value >>= λ parts. from_isoformat parts.0 >>= λ start.
        from_isoformat parts.1 >>= λ end_time.
        ok (some (record { start = start; end_time = end_time })))

-- `moment.weekday()`, Monday first; day 0 was a Thursday.
unfoldable pub weekday : LocalTime → ℕ
weekday t = (t.day + 3) % 7

-- `getattr(hours.regular, _DAY_FIELDS[…])`
unfoldable pub day_entry : RegularHours → ℕ → Text
day_entry r d = if ltb d 5 then r.mon_fri else if d == 5 then r.sat else r.sun

-- `window_for`
unfoldable pub window_for : HoursConfig → LocalTime → Result (Option OpenWindow)
unfolding parse_range weekday day_entry
window_for hours moment = parse_range (day_entry hours.regular (weekday moment))

-- `window is not None and window.contains(t)`
unfoldable pub in_window : Option OpenWindow → ℕ → Bool
unfolding contains
in_window none t = false
in_window (some w) t = contains w t

-- `candidate >= local` between two wall-clock times of one zone
unfoldable pub at_or_after : LocalTime → LocalTime → Bool
at_or_after a b = ltb b.day a.day || a.day == b.day && leb b.time a.time

-- `day.replace(hour=…, minute=…, second=0, microsecond=0)` of the day `offset` days on
unfoldable pub opening : LocalTime → ℕ → OpenWindow → LocalTime
opening local offset w = record { day = local.day + offset; time = w.start }

-- The body of the loop in `next_open`: a return, or `none` to go on with the next day.
unfoldable pub visit_day : LocalTime → ℕ → Option OpenWindow → Option LocalTime
unfolding contains at_or_after opening
visit_day local offset none = none
visit_day local offset (some w) =
    if offset == 0 && contains w local.time
    then some local
    else if at_or_after (opening local offset w) local
    then some (opening local offset w)
    else none

-- The loop of `next_open` with `rounds` days left, from the day `offset` days on.
unfoldable pub next_open_from : HoursConfig → LocalTime → ℕ → ℕ → Result (Option LocalTime)
next_open_from hours local zero offset = ok none
next_open_from hours local (suc rounds) offset =
    elim (window_for hours (record local { day = local.day + offset })) [
      | err e ↦ err e
      | ok w ↦ elim (visit_day local offset w) [
        | some t ↦ ok (some t)
        | none ↦ next_open_from hours local rounds (offset + 1)
      ]
    ]

-- What `dispatch_decision` answers outside opening hours.
unfoldable pub closed_decision : EmergencyDispatch → Bool → DispatchDecision
closed_decision never is_emergency = closed
closed_decision always is_emergency = if is_emergency then emergency_only else closed
closed_decision after_hours_only is_emergency = if is_emergency then emergency_only else closed

module _ (zone : String → ℤ → LocalTime) {F : Type 0} (cfg : ClientConfig F) where
  -- `local_now`
  unfoldable pub local_now : Moment → Result LocalTime
  local_now (naive t) = err value_error
  local_now (aware i) = ok (zone cfg.timezone i)

  -- `is_open`
  unfoldable pub is_open : Moment → Result Bool
  unfolding local_now in_window
  is_open now =
      local_now now >>= λ local. window_for cfg.hours local >>= λ w. ok (in_window w local.time)

  -- `dispatch_decision`
  unfoldable pub dispatch_decision : Moment → Bool → Result DispatchDecision
  unfolding closed_decision
  dispatch_decision now is_emergency = is_open now >>= λ o.
      ok (if o then open_hours else closed_decision cfg.hours.emergency_dispatch is_emergency)

  -- `next_open`
  unfoldable pub next_open : Moment → ℕ → Result (Option LocalTime)
  unfolding local_now
  next_open now horizon_days =
      local_now now >>= λ local. next_open_from cfg.hours local (horizon_days + 1) 0

  -- `applies_emergency_fee`
  unfoldable pub applies_emergency_fee : Moment → Bool → Result Bool
  applies_emergency_fee now is_emergency = elim cfg.booking.emergency_fee_usd [
    | none ↦ ok false
    | some _ ↦ if not is_emergency then ok false else (is_open now >>= λ o. ok (not o))
  ]
