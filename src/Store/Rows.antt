-- ===== src/Store/Rows.antt =====
-- `apps/api/db/repository.py`: the primary key of the calls, and a call found by its SID after an
-- update of its row.
use revenue_recovery_voice_a.Base.{
  Bool, false, List, [], ◌∷◌, none, some, String, str_eq, eq_iff, ◌≡◌, arith, Bool-cases, inl, inr,
  ap,
}
use revenue_recovery_voice_a.Store.{Call, update_calls, find_call}

abbrev has_id : String → Call → Bool
has_id i c = str_eq c.id i

abbrev has_sid : String → Call → Bool
has_sid sid c = str_eq c.twilio_call_sid sid

-- The ids of the calls are all different.
abbrev pub UniqueIds : List Call → Type 0
UniqueIds [] = Unit
UniqueIds (c ∷ cs) = (find_call (has_id c.id) cs ≡ none) × UniqueIds cs

other_id :
    (i sid : String) (cs : List Call) {call : Call}
    → find_call (has_sid sid) cs ≡ some call
    → find_call (has_id i) cs ≡ none
    → str_eq i call.id ≡ false
other_id i sid [] found absent = cc (found)
other_id i sid (c ∷ cs) {call} found absent = elim (Bool-cases (has_sid sid c)) [
  | inl this ↦
      let same : c ≡ call = ground (arith, found, this) in
      ground (arith, absent, same, eq_iff i c.id, eq_iff c.id i, ap (λ d. d.id) same)
  | inr that ↦ other_id i sid cs {call = call} (rw that at found) (ground (arith, absent))
]

-- A call found by its id is found again, updated, after an update of its row.
pub find_id-update_calls :
    (i : String) (f : Call → Call) (cs : List Call) {call : Call}
    → ((c : Call) → (f c).id ≡ c.id)
    → find_call (has_id i) cs ≡ some call
    → find_call (has_id i) (update_calls i f cs) ≡ some (f call)
unfolding update_calls
find_id-update_calls i f [] keep found = cc (found)
find_id-update_calls i f (c ∷ cs) {call} keep found = elim (Bool-cases (has_id i c)) [
  | inl this ↦
      let same : c ≡ call = ground (arith, found, this) in
      ground (arith, this, keep c, ap (λ d. d.id) same, ap f same)
  | inr that ↦
      let rest : find_call (has_id i) cs ≡ some call = rw that at found in
      ground (arith, that, find_id-update_calls i f cs {call = call} keep rest)
]

-- A call found by its SID is found again, updated, after an update of the row with its id.
pub find_sid-update_calls :
    (sid : String) (f : Call → Call) (cs : List Call) {call : Call}
    → ((c : Call) → (f c).twilio_call_sid ≡ c.twilio_call_sid)
    → UniqueIds cs
    → find_call (has_sid sid) cs ≡ some call
    → find_call (has_sid sid) (update_calls call.id f cs) ≡ some (f call)
unfolding update_calls
find_sid-update_calls sid f [] keep unique found = cc (found)
find_sid-update_calls sid f (c ∷ cs) {call} keep unique found = elim (Bool-cases (has_sid sid c)) [
  | inl this ↦
      let same : c ≡ call = ground (arith, found, this) in
      ground (arith, this, keep c, eq_iff c.id call.id, ap (λ d. d.id) same, ap f same)
  | inr that ↦
      let rest : find_call (has_sid sid) cs ≡ some call = rw that at found in
      ground (
        arith,
        that,
        other_id c.id sid cs {call = call} rest unique.0,
        find_sid-update_calls sid f cs {call = call} keep unique.1 rest,
      )
]
