-- ===== src/Domain/Escalation.antt =====
-- `apps/api/domain/escalation.py`: the escalation predicate, its order included.
pub mod Priority
use mathlib.Core.List
use revenue_recovery_voice_a.Base.{
  Bool, true, false, ◌||◌, List, [], ◌∷◌, ◌++◌, map, Option, none, some, Text, ℤ, pos, leb_ℤ, codes,
  lower, is_infix, decimal, any, if◌then◌else◌,
}
use revenue_recovery_voice_a.Config.{EscalationConfig, ClientConfig}
use revenue_recovery_voice_a.Domain.State.{CallState}

-- `HUMAN_REQUEST_PHRASES`
abbrev pub human_request_phrases : List Text
human_request_phrases =
    codes "speak to a human"
    ∷ codes "speak to a person"
    ∷ codes "talk to a human"
    ∷ codes "talk to a person"
    ∷ codes "talk to someone"
    ∷ codes "speak to someone"
    ∷ codes "real person"
    ∷ codes "real human"
    ∷ codes "get me a person"
    ∷ codes "transfer me"
    ∷ codes "put me through"
    ∷ codes "operator"
    ∷ codes "representative"
    ∷ codes "manager"
    ∷ []

pub data EscalationReason : Type 0 where
  safety caller_request tool_failure frustration : EscalationReason

pub record EscalationDecision : Type 0 where
  pub reason : EscalationReason
  pub detail : Text

-- `EscalationDecision.is_immediate`
abbrev is_safety : EscalationReason → Bool
is_safety safety = true
is_safety _ = false

abbrev pub is_immediate : EscalationDecision → Bool
is_immediate d = is_safety d.reason

-- The loop of `matched_safety_keyword` over the keywords.
unfoldable pub first_keyword : Text → List Text → Option Text
first_keyword haystack [] = none
first_keyword haystack (k ∷ ks) = if is_infix k haystack then some k else first_keyword haystack ks

-- `matched_safety_keyword`
unfoldable pub matched_safety_keyword : Text → EscalationConfig → Option Text
unfolding first_keyword
matched_safety_keyword text esc = first_keyword (lower text) esc.safety_keywords

-- `requests_human`
unfoldable pub requests_human : Text → Bool
requests_human text = any (λ phrase. is_infix phrase (lower text)) human_request_phrases

-- What `should_escalate` goes on to test when no safety keyword matched.
unfoldable pub escalate_otherwise : CallState → EscalationConfig → Option EscalationDecision
escalate_otherwise state esc =
    if state.human_requested || requests_human state.last_caller_text
    then some (record { reason = caller_request; detail = codes "caller asked for a human" })
    else if leb_ℤ esc.max_consecutive_tool_failures (pos state.consecutive_tool_failures)
    then some (record {
      reason = tool_failure;
      detail = decimal state.consecutive_tool_failures ++ codes " consecutive tool failures";
    })
    else if leb_ℤ esc.max_negative_sentiment_turns (pos state.negative_sentiment_turns)
    then some (record {
      reason = frustration;
      detail = decimal state.negative_sentiment_turns ++ codes " negative turns";
    })
    else none

-- `should_escalate`, on the part of the configuration that it reads
unfoldable pub should_escalate : CallState → EscalationConfig → Option EscalationDecision
unfolding escalate_otherwise
should_escalate state esc = elim (matched_safety_keyword state.last_caller_text esc) [
  | some keyword ↦ some (record { reason = safety; detail = codes "safety keyword: " ++ keyword })
  | none ↦ escalate_otherwise state esc
]
