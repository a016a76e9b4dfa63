-- ===== src/Config/Valid.antt =====
-- The validators of `apps/api/config/schema.py`. A validator returns the value or raises
-- `ValueError`. The patterns are matched on code points.
use revenue_recovery_voice_a.Base.{
  ℕ, ◌-◌, Bool, true, false, not, ◌&&◌, ◌||◌, List, [], ◌∷◌, map, Option, none, some, String, Text,
  codes, lower, strip, text_eq, leb, ltb, ◌==◌, if◌then◌else◌, Result, ok, err, value_error,
  is_empty, is_decimal,
}
use revenue_recovery_voice_a.Config.Schema.{RealtimeConfig}

-- The `$` of a pattern matches at the end and before one last line feed.
unfoldable pub at_end : Text → Bool
at_end [] = true
at_end (c ∷ []) = c == 10
at_end (c ∷ d ∷ s) = false

-- `\d{lo,hi}$`
unfoldable digits_to_end : ℕ → ℕ → Text → Bool
unfolding at_end is_decimal
digits_to_end lo hi [] = lo == 0
digits_to_end lo hi (c ∷ s) =
    (lo == 0 && at_end (c ∷ s)) || (ltb 0 hi && (is_decimal c && digits_to_end (lo - 1) (hi - 1) s))

-- `E164`, the pattern `^\+[1-9]\d{7,14}$`
unfoldable matches_e164 : Text → Bool
unfolding digits_to_end
matches_e164 (p ∷ d ∷ s) = p == b'+' && (leb b'1' d && leb d b'9' && digits_to_end 7 14 s)
matches_e164 s = false

-- `[01]\d|2[0-3]`
unfoldable pub is_hour : ℕ → ℕ → Bool
unfolding is_decimal
is_hour a b = (a == b'0' || a == b'1') && is_decimal b || a == b'2' && (leb b'0' b && leb b b'3')

-- `([01]\d|2[0-3]):[0-5]\d` at the head of a text; what follows it
unfoldable pub match_clock : Text → Option Text
unfolding is_hour is_decimal
match_clock (a ∷ b ∷ c ∷ d ∷ e ∷ s) =
    if is_hour a b && (c == b':' && (leb b'0' d && leb d b'5' && is_decimal e))
    then some s
    else none
match_clock s = none

unfoldable pub match_dash : Text → Option Text
match_dash [] = none
match_dash (c ∷ s) = if c == b'-' then some s else none

-- `_TIME_RANGE`
unfoldable pub matches_time_range : Text → Bool
unfolding match_clock match_dash at_end
matches_time_range v = elim (match_clock v) [
  | none ↦ false
  | some r ↦ elim (match_dash r) [
    | none ↦ false
    | some t ↦ elim (match_clock t) [ none ↦ false | some u ↦ at_end u ]
  ]
]

-- `RegularHours._valid_range`
unfoldable pub valid_range : Text → Result Text
unfolding matches_time_range
valid_range v =
    if not (text_eq v (codes "closed")) && not (matches_time_range v) then err value_error else ok v

-- `not v` of an optional text
unfoldable is_falsy : Option Text → Bool
is_falsy none = true
is_falsy (some s) = is_empty s

-- `RealtimeConfig._needs_a_persona`
unfoldable needs_a_persona : RealtimeConfig → Result RealtimeConfig
unfolding is_falsy
needs_a_persona c =
    if is_falsy c.prompt_id && is_falsy c.instructions then err value_error else ok c

-- `ServiceAreaConfig._stringify`, on postcodes that are texts already
unfoldable stringify : List Text → List Text
stringify = map strip

-- `EscalationConfig._e164`
unfoldable target_e164 : Option Text → Result (Option Text)
unfolding is_falsy matches_e164
target_e164 none = ok none
target_e164 (some v) =
    if not (is_falsy (some v)) && not (matches_e164 v) then err value_error else ok (some v)

-- `EscalationConfig._lower`
unfoldable lower_keywords : List Text → List Text
lower_keywords = map lower

-- `ClientConfig._e164`
unfoldable pub phone_e164 : String → Result String
unfolding matches_e164
phone_e164 v = if not (matches_e164 (codes v)) then err value_error else ok v
