-- ===== src/Tools/ServiceArea.antt =====
-- `apps/api/tools/service_area.py`: the postcode lookup. The letters of `\w` are
-- those of ASCII.
pub mod Postcodes
use revenue_recovery_voice_a.Base.{
  is_decimal, ℕ, Bool, true, false, not, ◌&&◌, ◌||◌, List, [], ◌∷◌, Option, none, some, Text, codes,
  text_in, Json, null, obj, str, bool, Fields, end, field, leb, ◌==◌, is_empty, is_some,
  if◌then◌else◌,
}
use revenue_recovery_voice_a.Config.{
  ServiceAreaConfig, OutOfAreaAction, capture_and_refer, decline, transfer,
}
use revenue_recovery_voice_a.Domain.State.{ToolStatus}
use revenue_recovery_voice_a.Tools.Registry.{ToolResult, ok_result}

-- `\w`
unfoldable pub is_word : ℕ → Bool
is_word c = is_decimal c || (leb b'a' c && leb c b'z' || (leb b'A' c && leb c b'Z' || c == b'_'))

-- `\b` after a digit
unfoldable word_ends : Text → Bool
unfolding is_word
word_ends [] = true
word_ends (c ∷ s) = not (is_word c)

-- `-\d{4}\b`
unfoldable is_plus_four : Text → Bool
unfolding word_ends
is_plus_four (a ∷ b ∷ c ∷ d ∷ e ∷ s) =
    a == b'-' && is_decimal b && is_decimal c && is_decimal d && is_decimal e && word_ends s
is_plus_four s = false

-- `(\d{5})(?:-\d{4})?\b` at the head of a text: group 1
unfoldable pub match_postcode : Text → Option Text
unfolding word_ends is_plus_four
match_postcode (a ∷ b ∷ c ∷ d ∷ e ∷ s) =
    if is_decimal a
      && is_decimal b
      && is_decimal c
      && is_decimal d
      && is_decimal e
      && (is_plus_four s || word_ends s)
    then some (a ∷ b ∷ c ∷ d ∷ e ∷ [])
    else none
match_postcode s = none

-- `_POSTCODE_IN_TEXT.search`; `inside` says that a word character stands before the text.
unfoldable pub search_postcode : Bool → Text → Option Text
unfolding match_postcode is_word
search_postcode inside [] = none
search_postcode inside (c ∷ s) =
    let rest = search_postcode (is_word c) s in
    if inside then rest else elim (match_postcode (c ∷ s)) [ none ↦ rest | some p ↦ some p ]

-- One of the two `if` statements of `extract_postcode`.
unfoldable pub postcode_in : Option Text → Option Text
unfolding search_postcode
postcode_in none = none
postcode_in (some s) = if is_empty s then none else search_postcode false s

-- `extract_postcode`
unfoldable pub extract_postcode : Option Text → Option Text → Option Text
unfolding postcode_in
extract_postcode postcode address = elim (postcode_in postcode) [
  | none ↦ postcode_in address
  | some p ↦ some p
]

abbrev action_name : OutOfAreaAction → Text
action_name capture_and_refer = codes "capture_and_refer"
action_name decline = codes "decline"
action_name transfer = codes "transfer"

-- `check_service_area`
unfoldable check_service_area : ServiceAreaConfig → Option Text → Option Text → ToolResult
unfolding extract_postcode
check_service_area area postcode address = elim (extract_postcode postcode address) [
  | none ↦ record {
    status = ToolStatus.not_found;
    payload = some (obj (field (codes "in_area") null end));
    speak_hint = some (codes "Ask the caller for their postcode or street address.");
  }
  | some resolved ↦ ok_result (
      some (
        obj (
          field (codes "in_area") (bool (text_in resolved area.postcodes)) (
            field (codes "postcode") (str resolved) (
              field (codes "out_of_area_action") (str (action_name area.out_of_area_action))
                end)))))
]
