-- ===== src/Tools/ServiceArea/Postcodes.antt =====
-- `apps/api/tools/service_area.py`: what a recovered postcode is.
use revenue_recovery_voice_a.Base.{
  is_decimal, Bool, true, false, ◌&&◌, ◌||◌, [], ◌∷◌, Option, none, some, Text, starts_with,
  is_infix, ◌≡◌, arith, Option-cases, inl, inr,
}
use revenue_recovery_voice_a.Tools.ServiceArea.{
  is_word, match_postcode, search_postcode, postcode_in, extract_postcode,
}

-- Five digits.
abbrev is_five : Text → Bool
is_five (a ∷ b ∷ c ∷ d ∷ e ∷ []) =
    is_decimal a && is_decimal b && is_decimal c && is_decimal d && is_decimal e
is_five _ = false

-- The text occurs in the argument.
abbrev occurs_in : Text → Option Text → Bool
occurs_in z none = false
occurs_in z (some s) = is_infix z s

match_sound : (s z : Text) → match_postcode s ≡ some z → (is_five z && starts_with z s) ≡ true
unfolding match_postcode starts_with
match_sound [] z h = cc
match_sound (a ∷ []) z h = cc
match_sound (a ∷ b ∷ []) z h = cc
match_sound (a ∷ b ∷ c ∷ []) z h = cc
match_sound (a ∷ b ∷ c ∷ d ∷ []) z h = cc
match_sound (a ∷ b ∷ c ∷ d ∷ e ∷ s) z h = ground arith

search_sound :
    (inside : Bool) (s z : Text)
    → search_postcode inside s ≡ some z
    → (is_five z && is_infix z s) ≡ true
unfolding search_postcode is_infix
search_sound inside [] z h = cc
search_sound true (c ∷ s) z h = ground (arith, search_sound (is_word c) s z)
search_sound false (c ∷ s) z h = elim (Option-cases (match_postcode (c ∷ s))) [
  | inl miss ↦ ground (arith, search_sound (is_word c) s z, miss, h)
  | inr (p, hit) ↦ ground (arith, match_sound (c ∷ s) p hit, hit, h)
]

postcode_sound :
    (o : Option Text) (z : Text) → postcode_in o ≡ some z → (is_five z && occurs_in z o) ≡ true
unfolding postcode_in
postcode_sound none z h = cc
postcode_sound (some s) z h = ground (arith, search_sound false s z)

-- A postcode that `extract_postcode` returns is five digits that occur in the postcode that the caller
-- stated or in the address.
extract_postcode-five :
    (postcode address : Option Text) (z : Text)
    → extract_postcode postcode address ≡ some z
    → (is_five z ≡ true) × ((occurs_in z postcode || occurs_in z address) ≡ true)
unfolding extract_postcode
extract_postcode-five postcode address z h = elim (Option-cases (postcode_in postcode)) [
  | inl miss ↦ (
    ground (arith, postcode_sound address z, miss, h),
    ground (arith, postcode_sound address z, miss, h),
  )
  | inr (p, hit) ↦ (
    ground (arith, postcode_sound postcode p hit, hit, h),
    ground (arith, postcode_sound postcode p hit, hit, h),
  )
]
