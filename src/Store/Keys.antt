-- ===== src/Store/Keys.antt =====
-- `apps/api/db/repository.py`: the UNIQUE constraints over any sequence of writes, for claims of an
-- SMS and for opt-outs.
use revenue_recovery_voice_a.Base.{
  ℕ, Bool, true, ◌||◌, List, [], ◌∷◌, Option, none, String, eq_iff, Text, Json, ◌≡◌, refl, arith,
  is_some, ◌==◌, Bool-cases, Option-cases, inl, inr, ok, err,
}
use revenue_recovery_voice_a.Store.{
  Store, Contact, SmsSend, set_recording_url, create_call, finish_call, insert_turn,
  set_turn_truncation, get_call, get_call_by_sid, Direction, insert_tool_invocation,
  insert_call_event, upsert_contact, upsert_row, mark_opted_out, claim_sms_send, mark_sms_delivered,
  deliver_row, is_claimed, is_contact, opt_out_of, is_suppressed,
}
use revenue_recovery_voice_a.Store.Writes.{
  Write, write, write_all, created, finished, recorded, turn, truncated, invoked, noted, contacted,
  opted_out, claimed, delivered,
}

create_call-frame :
    (i client sid phone : String) (direction : Direction) (consent : Bool) (at : Option ℕ)
    (s : Store)
    → let s' : Store = elim (create_call i client sid phone direction consent at s) [
      | ok (_, s') ↦ s'
      | err _ ↦ s
    ] in
      (s'.sms_sends ≡ s.sms_sends) × (s'.contacts ≡ s.contacts)
unfolding create_call
create_call-frame i client sid phone direction consent at s =
    elim (Bool-cases (is_some (get_call i s) || is_some (get_call_by_sid sid s))) [
      | inl taken ↦ rw taken (refl, refl)
      | inr free ↦ rw free (refl, refl)
    ]

set_recording_url-frame :
    (i : String) (url : Text) (s : Store)
    → ((set_recording_url i url s).1.sms_sends ≡ s.sms_sends)
      × ((set_recording_url i url s).1.contacts ≡ s.contacts)
unfolding set_recording_url
set_recording_url-frame i url s = elim (Option-cases (get_call i s)) [
  | inl absent ↦ rw (absent, set_recording_url) (refl, refl)
  | inr (call, found) ↦ elim (Bool-cases call.consent_captured) [
    | inl agreed ↦ rw (found, set_recording_url) (rw agreed (refl, refl))
    | inr refused ↦ rw (found, set_recording_url) (rw refused (refl, refl))
  ]
]

pub is_claimed-deliver_row :
    (client key : String) (i : ℕ) (sid : Option Json) (sends : List SmsSend)
    → is_claimed client key (deliver_row i sid sends) ≡ is_claimed client key sends
unfolding is_claimed deliver_row
is_claimed-deliver_row client key i sid [] = refl
is_claimed-deliver_row client key i sid (r ∷ sends) = elim (Bool-cases (r.id == i)) [
  | inl same ↦ rw same (rw (is_claimed-deliver_row client key i sid sends) refl)
  | inr other ↦ rw other (rw (is_claimed-deliver_row client key i sid sends) refl)
]

opt_out_of-upsert :
    (client phone : String) (new : Contact) (f : Contact → Contact) (cs : List Contact)
    → ((c : Contact) → (f c).client_id ≡ c.client_id)
    → ((c : Contact) → (f c).phone_e164 ≡ c.phone_e164)
    → ((c : Contact) → is_some c.opted_out_at ≡ true → is_some (f c).opted_out_at ≡ true)
    → is_some (opt_out_of client phone cs) ≡ true
    → is_some (opt_out_of client phone (upsert_row new f cs).1) ≡ true
unfolding opt_out_of upsert_row
opt_out_of-upsert client phone new f [] same_client same_phone keep h = ground (arith, h)
opt_out_of-upsert client phone new f (c ∷ cs) same_client same_phone keep h =
    elim (Bool-cases (is_contact new.client_id new.phone_e164 c)) [
      | inl hit ↦ rw hit (
          rw (same_client c) (
            rw (same_phone c) (elim (Bool-cases (is_contact client phone c)) [
              | inl this ↦ rw this (keep c (rw this at h))
              | inr other ↦ rw other (rw other at h)
            ])))
      | inr miss ↦ rw miss (elim (Bool-cases (is_contact client phone c)) [
        | inl this ↦ rw this (rw this at h)
        | inr other ↦
            rw other
              (opt_out_of-upsert client phone new f cs same_client same_phone keep (rw other at h))
      ])
    ]

opt_out_of-new :
    (new : Contact) (f : Contact → Contact) (cs : List Contact)
    → ((c : Contact) → (f c).client_id ≡ c.client_id)
    → ((c : Contact) → (f c).phone_e164 ≡ c.phone_e164)
    → ((c : Contact) → is_some (f c).opted_out_at ≡ true)
    → is_some new.opted_out_at ≡ true
    → is_some (opt_out_of new.client_id new.phone_e164 (upsert_row new f cs).1) ≡ true
unfolding opt_out_of upsert_row
opt_out_of-new new f [] same_client same_phone stamped h =
    ground (arith, h, eq_iff new.client_id new.client_id, eq_iff new.phone_e164 new.phone_e164)
opt_out_of-new new f (c ∷ cs) same_client same_phone stamped h =
    elim (Bool-cases (is_contact new.client_id new.phone_e164 c)) [
      | inl hit ↦ rw hit (rw (same_client c) (rw (same_phone c) (rw hit (stamped c))))
      | inr miss ↦ rw miss (rw miss (opt_out_of-new new f cs same_client same_phone stamped h))
    ]

claimed_still :
    (client key client' to key' : String) (s : Store)
    → is_claimed client key s.sms_sends ≡ true
    → is_claimed client key (claim_sms_send client' to key' s).1.sms_sends ≡ true
unfolding claim_sms_send is_claimed
claimed_still client key client' to key' s h =
    elim (Bool-cases (is_claimed client' key' s.sms_sends)) [
      | inl b ↦ rw b h
      | inr b ↦ rw b (ground (arith, h))
    ]

claim_sms_send-frame :
    (client to key : String) (s : Store) → (claim_sms_send client to key s).1.contacts ≡ s.contacts
unfolding claim_sms_send
claim_sms_send-frame client to key s = elim (Bool-cases (is_claimed client key s.sms_sends)) [
  | inl b ↦ rw b refl
  | inr b ↦ rw b refl
]

pub claimed_after :
    (client to key : String) (s : Store)
    → is_claimed client key (claim_sms_send client to key s).1.sms_sends ≡ true
unfolding claim_sms_send is_claimed
claimed_after client to key s = elim (Bool-cases (is_claimed client key s.sms_sends)) [
  | inl b ↦ rw b b
  | inr b ↦ rw b (ground (arith, eq_iff client client, eq_iff key key))
]

module _ (redact_pan : Text → Text) (redact_structure : Json → Json) where
  write-is_claimed :
      (w : Write) (client key : String) (s : Store)
      → is_claimed client key s.sms_sends ≡ true
      → is_claimed client key (write redact_pan redact_structure w s).sms_sends ≡ true
  unfolding write finish_call insert_turn set_turn_truncation insert_tool_invocation
      insert_call_event upsert_contact mark_opted_out mark_sms_delivered
  write-is_claimed (created i client' sid phone direction consent at) client key s h =
      rw (create_call-frame i client' sid phone direction consent at s).0 h
  write-is_claimed (finished i outcome cents at) client key s h = h
  write-is_claimed (recorded i url) client key s h = rw (set_recording_url-frame i url s).0 h
  write-is_claimed (claimed client' to key') client key s h =
      claimed_still client key client' to key' s h
  write-is_claimed (turn i role text at latency cut item) client key s h = h
  write-is_claimed (truncated i item at) client key s h = h
  write-is_claimed (invoked i name arguments status latency attempt) client key s h = h
  write-is_claimed (noted i at kind payload) client key s h = h
  write-is_claimed (contacted uuid client' phone name crm) client key s h = h
  write-is_claimed (opted_out uuid client' phone at) client key s h = h
  write-is_claimed (delivered i sid) client key s h =
      rw (is_claimed-deliver_row client key i sid s.sms_sends) h

  pub write_all-is_claimed :
      (ws : List Write) (client key : String) (s : Store)
      → is_claimed client key s.sms_sends ≡ true
      → is_claimed client key (write_all redact_pan redact_structure ws s).sms_sends ≡ true
  unfolding write_all
  write_all-is_claimed [] client key s h = h
  write_all-is_claimed (w ∷ ws) client key s h =
      write_all-is_claimed ws client key (write redact_pan redact_structure w s)
        (write-is_claimed w client key s h)

  -- After `claim_sms_send`, whatever it returned and whatever is written later, the same client's
  -- claim of the same key is refused and changes nothing, to whichever number it is.
  pub claim_once :
      (ws : List Write) (client to to' key : String) (s : Store)
      → let later = write_all redact_pan redact_structure ws (claim_sms_send client to key s).1 in
        claim_sms_send client to' key later ≡ (none, later)
  unfolding claim_sms_send
  claim_once ws client to to' key s =
      rw
        (write_all-is_claimed ws client key (claim_sms_send client to key s).1
          (claimed_after client to key s))
        refl

  write-opt_out :
      (w : Write) (client phone : String) (s : Store)
      → is_some (opt_out_of client phone s.contacts) ≡ true
      → is_some (opt_out_of client phone (write redact_pan redact_structure w s).contacts) ≡ true
  unfolding write finish_call insert_turn set_turn_truncation insert_tool_invocation
      insert_call_event upsert_contact mark_opted_out mark_sms_delivered
  write-opt_out (created i client' sid phone' direction consent at) client phone s h =
      rw (create_call-frame i client' sid phone' direction consent at s).1 h
  write-opt_out (finished i outcome cents at) client phone s h = h
  write-opt_out (recorded i url) client phone s h = rw (set_recording_url-frame i url s).1 h
  write-opt_out (claimed client' to key') client phone s h =
      rw (claim_sms_send-frame client' to key' s) h
  write-opt_out (turn i role text at latency cut item) client phone s h = h
  write-opt_out (truncated i item at) client phone s h = h
  write-opt_out (invoked i name arguments status latency attempt) client phone s h = h
  write-opt_out (noted i at kind payload) client phone s h = h
  write-opt_out (contacted uuid client' phone' name crm) client phone s h =
      opt_out_of-upsert client phone _ _ s.contacts (λ c. refl) (λ c. refl) (λ c k. k) h
  write-opt_out (opted_out uuid client' phone' at) client phone s h =
      opt_out_of-upsert client phone _ _ s.contacts (λ c. refl) (λ c. refl) (λ c k. refl) h
  write-opt_out (delivered i sid) client phone s h = h

  write_all-opt_out :
      (ws : List Write) (client phone : String) (s : Store)
      → is_some (opt_out_of client phone s.contacts) ≡ true
      → is_some (opt_out_of client phone (write_all redact_pan redact_structure ws s).contacts)
        ≡ true
  unfolding write_all
  write_all-opt_out [] client phone s h = h
  write_all-opt_out (w ∷ ws) client phone s h =
      write_all-opt_out ws client phone (write redact_pan redact_structure w s)
        (write-opt_out w client phone s h)

  -- A number that `mark_opted_out` marked is suppressed for that client, and stays so whatever the
  -- repository writes later.
  pub opt_out_stays :
      (ws : List Write) (uuid client phone : String) (at : Option ℕ) (s : Store)
      → is_suppressed client phone
          (write_all redact_pan redact_structure ws (mark_opted_out uuid client phone at s))
        ≡ true
  unfolding is_suppressed mark_opted_out
  opt_out_stays ws uuid client phone at s = ground (
    arith,
    write_all-opt_out ws client phone (mark_opted_out uuid client phone at s)
        (opt_out_of-new _ _ s.contacts (λ c. refl) (λ c. refl) (λ c. refl) refl),
  )
