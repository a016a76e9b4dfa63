-- ===== src/Store/Consent.antt =====
-- `apps/api/db/repository.py`: the recording URL and the consent of the caller, over any sequence
-- of writes.
use revenue_recovery_voice_a.Base.{
  ℕ, Bool, true, not, ◌||◌, List, [], ◌∷◌, Option, some, String, str_eq, Text, Json, ◌≡◌, refl,
  arith, is_some, All, Bool-cases, Option-cases, inl, inr, ap, ◌∙◌, ok, err,
}
use revenue_recovery_voice_a.Store.{
  Store, Call, update_calls, find_call, get_call, set_recording_url, create_call, finish_call,
  insert_turn, set_turn_truncation, insert_tool_invocation, insert_call_event, upsert_contact,
  mark_opted_out, claim_sms_send, mark_sms_delivered, is_claimed, get_call_by_sid, Direction,
}
use revenue_recovery_voice_a.Store.Writes.{
  Write, write, write_all, created, finished, recorded, turn, truncated, invoked, noted, contacted,
  opted_out, claimed, delivered,
}

-- A call with a stored recording has its caller's consent.
abbrev has_consent : Call → Bool
has_consent c = not (is_some c.recording_url) || c.consent_captured

abbrev pub IsRespected : Store → Type 0
IsRespected s = All (λ c. has_consent c ≡ true) s.calls

update_calls-All :
    (i : String) (f : Call → Call) (cs : List Call)
    → ((c : Call) → has_consent c ≡ true → has_consent (f c) ≡ true)
    → All (λ c. has_consent c ≡ true) cs
    → All (λ c. has_consent c ≡ true) (update_calls i f cs)
unfolding update_calls
update_calls-All i f [] keep h = tt
update_calls-All i f (c ∷ cs) keep h = elim (Bool-cases (str_eq c.id i)) [
  | inl same ↦ rw same (keep c h.0, h.1)
  | inr other ↦ rw other (h.0, update_calls-All i f cs keep h.1)
]

update_calls-consented :
    (i : String) (url : Text) (cs : List Call) {call : Call}
    → find_call (λ c. str_eq c.id i) cs ≡ some call
    → call.consent_captured ≡ true
    → All (λ c. has_consent c ≡ true) cs
    → All
        (λ c. has_consent c ≡ true)
        (update_calls i (λ c. record c { recording_url = some url }) cs)
unfolding update_calls
update_calls-consented i url [] found consent h = tt
update_calls-consented i url (c ∷ cs) {call} found consent h = elim (Bool-cases (str_eq c.id i)) [
  | inl same ↦
      let this : c ≡ call = ground (arith, found, same) in
      rw same (ap (λ d. d.consent_captured) this ∙ consent, h.1)
  | inr other ↦
      rw other (h.0, update_calls-consented i url cs {call = call} (rw other at found) consent h.1)
]

pub update_calls-get :
    (i : String) (url : Text) (s : Store) {call : Call}
    → get_call i s ≡ some call
    → call.consent_captured ≡ true
    → IsRespected s
    → IsRespected
        (record s { calls = update_calls i (λ c. record c { recording_url = some url }) s.calls })
unfolding get_call
update_calls-get i url s {call} found agreed h =
    update_calls-consented i url s.calls {call = call} found agreed h

set_recording_url-IsRespected :
    (i : String) (url : Text) (s : Store)
    → IsRespected s
    → IsRespected (set_recording_url i url s).1
unfolding set_recording_url get_call
set_recording_url-IsRespected i url s h =
    elim (Option-cases (find_call (λ c. str_eq c.id i) s.calls)) [
      | inl absent ↦ rw (absent, set_recording_url) h
      | inr (call, found) ↦ elim (Bool-cases call.consent_captured) [
        | inl agreed ↦
            rw (found, set_recording_url)
              (rw agreed (update_calls-consented i url s.calls found agreed h))
        | inr refused ↦ rw (found, set_recording_url) (rw refused h)
      ]
    ]

create_call-IsRespected :
    (i client sid phone : String) (direction : Direction) (consent : Bool) (at : Option ℕ)
    (s : Store)
    → IsRespected s
    → IsRespected (elim (create_call i client sid phone direction consent at s) [
      | ok (_, s') ↦ s'
      | err _ ↦ s
    ])
unfolding create_call
create_call-IsRespected i client sid phone direction consent at s h =
    elim (Bool-cases (is_some (get_call i s) || is_some (get_call_by_sid sid s))) [
      | inl taken ↦ rw taken h
      | inr free ↦ rw free (refl, h)
    ]

claim_sms_send-IsRespected :
    (client to key : String) (s : Store)
    → IsRespected s
    → IsRespected (claim_sms_send client to key s).1
unfolding claim_sms_send
claim_sms_send-IsRespected client to key s h =
    elim (Bool-cases (is_claimed client key s.sms_sends)) [
      | inl b ↦ rw (b, claim_sms_send) h
      | inr b ↦ rw (b, claim_sms_send) h
    ]

module _ (redact_pan : Text → Text) (redact_structure : Json → Json) where
  write-IsRespected :
      (w : Write) (s : Store) → IsRespected s → IsRespected (write redact_pan redact_structure w s)
  unfolding write finish_call insert_turn set_turn_truncation insert_tool_invocation
      insert_call_event upsert_contact mark_opted_out mark_sms_delivered
  write-IsRespected (created i client sid phone direction consent at) s h =
      create_call-IsRespected i client sid phone direction consent at s h
  write-IsRespected (finished i outcome cents at) s h = update_calls-All i _ s.calls (λ c k. k) h
  write-IsRespected (recorded i url) s h = set_recording_url-IsRespected i url s h
  write-IsRespected (claimed client to key) s h = claim_sms_send-IsRespected client to key s h
  write-IsRespected (turn i role text at latency cut item) s h = h
  write-IsRespected (truncated i item at) s h = h
  write-IsRespected (invoked i name arguments status latency attempt) s h = h
  write-IsRespected (noted i at kind payload) s h = h
  write-IsRespected (contacted uuid client phone name crm) s h = h
  write-IsRespected (opted_out uuid client phone at) s h = h
  write-IsRespected (delivered i sid) s h = h

  -- No sequence of the repository's writes stores a recording URL on a call whose consent was not
  -- captured, when the store holds none at the start.
  pub write_all-IsRespected :
      (ws : List Write) (s : Store)
      → IsRespected s
      → IsRespected (write_all redact_pan redact_structure ws s)
  unfolding write_all
  write_all-IsRespected [] s h = h
  write_all-IsRespected (w ∷ ws) s h =
      write_all-IsRespected ws (write redact_pan redact_structure w s) (write-IsRespected w s h)
