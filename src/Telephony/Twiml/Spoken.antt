-- ===== src/Telephony/Twiml/Spoken.antt =====
-- `_speakable` and the sentence of `build_whisper_twiml` in `apps/api/telephony/twiml.py`.
use revenue_recovery_voice_a.Base.{
  ℕ, zero, suc, ◌-◌, ◌&&◌, ◌==◌, Bool, true, false, [], ◌∷◌, ◌++◌, Text, codes, drop, length,
  filter, isdigit, is_empty, if◌then◌else◌, ◌≡◌, refl, ap, inl, inr, Bool-cases, arith,
}
use revenue_recovery_voice_a.Telephony.Xml.Data.{is_kept, all_kept}
use revenue_recovery_voice_a.Telephony.Twiml.{speakable, spaced}

-- The first character of a text, its third and so on.
abbrev every_other : Text → Text
every_other [] = []
every_other (c ∷ []) = c ∷ []
every_other (c ∷ (d ∷ s)) = let rest = every_other s in c ∷ rest

-- The characters between those are spaces.
abbrev has_gaps : Text → Bool
has_gaps [] = true
has_gaps (c ∷ []) = true
has_gaps (c ∷ (d ∷ s)) = let rest = has_gaps s in (d == b' ') && rest

abbrev IsCallerOf : Bool → Text → Text → Type 0
IsCallerOf true digits caller = caller ≡ codes "an unknown number"
IsCallerOf false digits caller =
    (every_other caller ≡ drop (length digits - 10) digits) × (has_gaps caller ≡ true)

-- How a number is said: its last ten digits with spaces between them, if it has any.
abbrev pub IsCaller : Text → Text → Type 0
IsCaller number caller =
    IsCallerOf (is_empty (filter isdigit number)) (filter isdigit number) caller

every_other-spaced : (s : Text) → (every_other (spaced s) ≡ s) × (has_gaps (spaced s) ≡ true)
every_other-spaced [] = (refl, refl)
every_other-spaced (c ∷ []) = (refl, refl)
every_other-spaced (c ∷ (d ∷ s)) =
    let (same, gaps) = every_other-spaced (d ∷ s) in (ap (λ l. c ∷ l) same, gaps)

pub speakable-IsCaller : (number : Text) → IsCaller number (speakable number)
unfolding speakable
speakable-IsCaller number = elim (Bool-cases (is_empty (filter isdigit number))) [
  | inl silent ↦ rw silent refl
  | inr some_digits ↦
      rw some_digits
        (every_other-spaced (drop (length (filter isdigit number) - 10) (filter isdigit number)))
]

-- The sentence on a call: the caller, the reason, and the summary where there is one.
abbrev pub sentence : Text → Text → Text → Text
sentence caller reason summary =
    codes "Call from "
    ++ (caller
        ++ (codes ". Reason: "
            ++ (reason ++ (b'.' ∷ (if is_empty summary then [] else b' ' ∷ summary)))))

all_kept-cons :
    (c : ℕ) (s : Text) → all_kept (c ∷ s) ≡ true → (is_kept c ≡ true) × (all_kept s ≡ true)
all_kept-cons c s h = (ground (arith, h), ground (arith, h))

all_kept-put : (c : ℕ) (s : Text) → is_kept c ≡ true → all_kept s ≡ true → all_kept (c ∷ s) ≡ true
all_kept-put c s k h = rw k h

all_kept-append : (s t : Text) → all_kept s ≡ true → all_kept t ≡ true → all_kept (s ++ t) ≡ true
all_kept-append [] t h k = k
all_kept-append (c ∷ s) t h k =
    let (head, rest) = all_kept-cons c s h in
    all_kept-put c (s ++ t) head (all_kept-append s t rest k)

all_kept-filter : (p : ℕ → Bool) (s : Text) → all_kept s ≡ true → all_kept (filter p s) ≡ true
all_kept-filter p [] h = refl
all_kept-filter p (c ∷ s) h =
    let (head, rest) = all_kept-cons c s h in
    elim (Bool-cases (p c)) [
      | inl taken ↦ rw (taken, filter) (all_kept-put c (filter p s) head (all_kept-filter p s rest))
      | inr left ↦ rw (left, filter) (all_kept-filter p s rest)
    ]

all_kept-drop : (n : ℕ) (s : Text) → all_kept s ≡ true → all_kept (drop n s) ≡ true
all_kept-drop zero s h = h
all_kept-drop (suc n) [] h = h
all_kept-drop (suc n) (c ∷ s) h = all_kept-drop n s (all_kept-cons c s h).1

all_kept-spaced : (s : Text) → all_kept s ≡ true → all_kept (spaced s) ≡ true
all_kept-spaced [] h = h
all_kept-spaced (c ∷ []) h = h
all_kept-spaced (c ∷ (d ∷ s)) h =
    let (head, rest) = all_kept-cons c (d ∷ s) h in
    all_kept-put c (b' ' ∷ spaced (d ∷ s)) head
      (all_kept-put b' ' (spaced (d ∷ s)) refl (all_kept-spaced (d ∷ s) rest))

pub all_kept-speakable : (s : Text) → all_kept s ≡ true → all_kept (speakable s) ≡ true
unfolding speakable
all_kept-speakable s h = elim (Bool-cases (is_empty (filter isdigit s))) [
  | inl silent ↦ rw silent refl
  | inr some_digits ↦ rw some_digits (
      all_kept-spaced (drop (length (filter isdigit s) - 10) (filter isdigit s)) (
        all_kept-drop (length (filter isdigit s) - 10) (filter isdigit s)
          (all_kept-filter isdigit s h)))
]

all_kept-said :
    (s : Text) → all_kept s ≡ true → all_kept (if is_empty s then [] else b' ' ∷ s) ≡ true
all_kept-said [] h = refl
all_kept-said (c ∷ s) h = all_kept-put b' ' (c ∷ s) refl h

pub all_kept-sentence :
    (caller reason summary : Text)
    → all_kept caller ≡ true
    → all_kept reason ≡ true
    → all_kept summary ≡ true
    → all_kept (sentence caller reason summary) ≡ true
all_kept-sentence caller reason summary c r s =
    let said = if is_empty summary then [] else b' ' ∷ summary in
    let ending = b'.' ∷ said in
    let given = codes ". Reason: " ++ (reason ++ ending) in
    all_kept-append (codes "Call from ") (caller ++ given) refl (
      all_kept-append caller given c (
        all_kept-append (codes ". Reason: ") (reason ++ ending) refl (
          all_kept-append reason ending r (all_kept-put b'.' said refl (all_kept-said summary s)))))
