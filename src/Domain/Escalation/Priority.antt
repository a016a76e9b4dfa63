-- ===== src/Domain/Escalation/Priority.antt =====
-- The order of `should_escalate`: what each answer says of the state.
use revenue_recovery_voice_a.Base.{
  ℕ, ◌≡◌, refl, ap, inl, inr, Bool, true, false, ◌||◌, List, [], ◌∷◌, ◌++◌, Option, none, some,
  Text, pos, leb_ℤ, lower, lower_code, is_infix, any, any, arith, Option-cases, Bool-cases,
}
use revenue_recovery_voice_a.Config.{EscalationConfig}
use revenue_recovery_voice_a.Domain.State.{CallState}
use revenue_recovery_voice_a.Domain.Escalation.{
  EscalationReason, safety, caller_request, tool_failure, frustration, EscalationDecision,
  human_request_phrases, first_keyword, matched_safety_keyword, requests_human, escalate_otherwise,
  should_escalate,
}

-- No keyword of the list stands in the text.
abbrev Absent : Text → List Text → Type 0
Absent haystack [] = Unit
Absent haystack (k ∷ ks) = (is_infix k haystack ≡ false) × Absent haystack ks

-- `k` is the first keyword of the list that stands in the text.
pub record FirstMatch (haystack k : Text) (keywords : List Text) : Type 0 where
  pub before : List Text
  pub after : List Text
  pub split : keywords ≡ before ++ (k ∷ after)
  pub earlier : Absent haystack before
  pub present : is_infix k haystack ≡ true

first_keyword-some :
    (haystack : Text) (keywords : List Text) {k : Text}
    → first_keyword haystack keywords ≡ some k
    → FirstMatch haystack k keywords
unfolding first_keyword
first_keyword-some haystack [] h = cc
first_keyword-some haystack (x ∷ xs) h = elim (Bool-cases (is_infix x haystack)) [
  | inl hit ↦ record {
    before = [];
    after = xs;
    split = ground arith;
    earlier = tt;
    present = ground arith;
  }
  | inr miss ↦
      let m = first_keyword-some haystack xs (ground arith) in
      record {
        before = x ∷ m.before;
        after = m.after;
        split = ap (λ (l : List Text). x ∷ l) m.split;
        earlier = (miss, m.earlier);
        present = m.present;
      }
]

first_keyword-none :
    (haystack : Text) (keywords : List Text)
    → first_keyword haystack keywords ≡ none
    → Absent haystack keywords
unfolding first_keyword
first_keyword-none haystack [] h = tt
first_keyword-none haystack (x ∷ xs) h = ground (arith, first_keyword-none haystack xs)

abbrev human : CallState → Bool
human s = s.human_requested || requests_human s.last_caller_text

abbrev failing : CallState → EscalationConfig → Bool
failing s esc = leb_ℤ esc.max_consecutive_tool_failures (pos s.consecutive_tool_failures)

abbrev pub frustrated : CallState → EscalationConfig → Bool
frustrated s esc = leb_ℤ esc.max_negative_sentiment_turns (pos s.negative_sentiment_turns)

-- What a reason says of the call: its own trigger, and that no trigger ranked above it fired.
abbrev Means : CallState → EscalationConfig → EscalationReason → Type 0
Means s esc safety = (k : Text) × FirstMatch (lower s.last_caller_text) k esc.safety_keywords
Means s esc caller_request =
    Absent (lower s.last_caller_text) esc.safety_keywords × (human s ≡ true)
Means s esc tool_failure =
    Absent (lower s.last_caller_text) esc.safety_keywords
    × (human s ≡ false)
    × (failing s esc ≡ true)
Means s esc frustration =
    Absent (lower s.last_caller_text) esc.safety_keywords
    × (human s ≡ false)
    × (failing s esc ≡ false)
    × (frustrated s esc ≡ true)

-- What an answer of the predicate says of the call.
abbrev pub Explains : CallState → EscalationConfig → Option EscalationDecision → Type 0
Explains s esc (some d) = Means s esc d.reason
Explains s esc none =
    Absent (lower s.last_caller_text) esc.safety_keywords
    × (human s ≡ false)
    × (failing s esc ≡ false)
    × (frustrated s esc ≡ false)

otherwise-Explains :
    (s : CallState) (esc : EscalationConfig)
    → Absent (lower s.last_caller_text) esc.safety_keywords
    → Explains s esc (escalate_otherwise s esc)
unfolding escalate_otherwise
otherwise-Explains s esc absent = elim (Bool-cases (human s)) [
  | inl h ↦ rw h (absent, h)
  | inr h ↦ rw h (elim (Bool-cases (failing s esc)) [
    | inl f ↦ rw f (absent, h, f)
    | inr f ↦ rw f (elim (Bool-cases (frustrated s esc)) [
      | inl g ↦ rw g (absent, h, f, g)
      | inr g ↦ rw g (absent, h, f, g)
    ])
  ])
]

-- Every answer of `should_escalate` is explained by the state. Safety means that a configured
-- keyword stands in the lower-cased text of the caller; each later reason means that its own trigger
-- fired and that none of those ranked above it did; no escalation means that none fired.
pub should_escalate-Explains :
    (s : CallState) (esc : EscalationConfig) → Explains s esc (should_escalate s esc)
unfolding should_escalate matched_safety_keyword
should_escalate-Explains s esc =
    elim (Option-cases (first_keyword (lower s.last_caller_text) esc.safety_keywords)) [
      | inl e ↦ rw (e, Explains) (otherwise-Explains s esc (first_keyword-none _ _ e))
      | inr (k, e) ↦ rw (e, Explains) (k, first_keyword-some _ _ e)
    ]

lower_code_idem : (c : ℕ) → lower_code (lower_code c) ≡ lower_code c
unfolding lower_code
lower_code_idem c = ground arith

lower_idem : (t : Text) → lower (lower t) ≡ lower t
unfolding lower
lower_idem [] = refl
lower_idem (c ∷ t) = cc (lower_code_idem c, lower_idem t)

requests_human-lower : (t : Text) → requests_human (lower t) ≡ requests_human t
unfolding requests_human
requests_human-lower t =
    ap (λ (u : Text). any (λ phrase. is_infix phrase u) human_request_phrases) (lower_idem t)

matched_safety_keyword-lower :
    (t : Text) (esc : EscalationConfig)
    → matched_safety_keyword (lower t) esc ≡ matched_safety_keyword t esc
unfolding matched_safety_keyword
matched_safety_keyword-lower t esc =
    ap (λ (u : Text). first_keyword u esc.safety_keywords) (lower_idem t)

-- Letter case does not matter: a caller's words and the same words in lower case give the same
-- decision, with the same detail.
should_escalate-lower :
    (s : CallState) (esc : EscalationConfig)
    → should_escalate (record s { last_caller_text = lower s.last_caller_text }) esc
      ≡ should_escalate s esc
unfolding should_escalate
should_escalate-lower s esc = ground (
  arith,
  matched_safety_keyword-lower s.last_caller_text esc,
  requests_human-lower s.last_caller_text,
)
