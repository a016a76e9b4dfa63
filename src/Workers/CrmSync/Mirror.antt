-- ===== src/Workers/CrmSync/Mirror.antt =====
-- `apps/api/workers/crm_sync.py` against the contacts: the remote id is mirrored, and a sync touches
-- nobody's name or opt-out.
use revenue_recovery_voice_a.Base.{
  List, [], ◌∷◌, Option, none, some, String, eq_iff, Text, is_empty, ◌≡◌, refl, inl, inr,
  Bool-cases, arith, if◌then◌else◌, codes,
}
use revenue_recovery_voice_a.Store.{
  Store, Call, Contact, get_call, is_contact, opt_out_of, upsert_row,
}
use revenue_recovery_voice_a.Tools.Crm.{CrmPort, CrmContact, Reply, got, Reply-cases, text_or}
use revenue_recovery_voice_a.Workers.CrmSync.{
  new_row, name_of, find_analysis, summary_of, outcome_text, duration_of, mirror, log_contact,
  sync_call,
}

-- The remote id of the contact with this key.
abbrev crm_of : String → String → List Contact → Option Text
crm_of client_id phone [] = none
crm_of client_id phone (c ∷ cs) =
    let rest = crm_of client_id phone cs in if is_contact client_id phone c then c.crm_id else rest

-- Names and opt-outs are those from before.
pub record Keeps (before after : Store) : Type 0 where
  pub opt_outs :
      (client phone : String)
      → opt_out_of client phone after.contacts ≡ opt_out_of client phone before.contacts
  pub names :
      (client phone : String)
      → name_of client phone after.contacts ≡ name_of client phone before.contacts

Keeps-refl : (s : Store) → Keeps s s
Keeps-refl s = record { opt_outs = λ client phone. refl; names = λ client phone. refl }

module _ (new : Contact) (crm_id : Text) (unnamed : new.full_name ≡ none)
    (unstamped : new.opted_out_at ≡ none) (mirrored : new.crm_id ≡ some crm_id) where
  opt_out_of-upsert_row :
      (client phone : String) (cs : List Contact)
      → opt_out_of client phone (upsert_row new (λ c. record c { crm_id = some crm_id }) cs).1
        ≡ opt_out_of client phone cs
  unfolding opt_out_of upsert_row
  opt_out_of-upsert_row client phone [] = ground (arith, unstamped)
  opt_out_of-upsert_row client phone (c ∷ cs) =
      ground (arith, opt_out_of-upsert_row client phone cs)

  name_of-upsert_row :
      (client phone : String) (cs : List Contact)
      → name_of client phone (upsert_row new (λ c. record c { crm_id = some crm_id }) cs).1
        ≡ name_of client phone cs
  unfolding name_of upsert_row
  name_of-upsert_row client phone [] = ground (arith, unnamed)
  name_of-upsert_row client phone (c ∷ cs) = ground (arith, name_of-upsert_row client phone cs)

  crm_of-upsert_row :
      (cs : List Contact)
      → crm_of new.client_id new.phone_e164
          (upsert_row new (λ c. record c { crm_id = some crm_id }) cs).1
        ≡ some crm_id
  unfolding upsert_row
  crm_of-upsert_row [] =
      ground
        (arith, mirrored, eq_iff new.client_id new.client_id, eq_iff new.phone_e164 new.phone_e164)
  crm_of-upsert_row (c ∷ cs) = ground (arith, crm_of-upsert_row cs)

mirror-Keeps :
    (uuid : String) (call : Call) (crm_id : Text) (s : Store) → Keeps s (mirror uuid call crm_id s)
unfolding mirror
mirror-Keeps uuid call crm_id s = elim (Bool-cases (is_empty crm_id)) [
  | inl blank ↦ rw (blank, mirror) (Keeps-refl s)
  | inr given ↦
      rw (given, mirror)
        (record {
          opt_outs = λ client phone.
              opt_out_of-upsert_row (new_row uuid call crm_id) crm_id refl refl refl client phone
                s.contacts;
          names = λ client phone.
              name_of-upsert_row (new_row uuid call crm_id) crm_id refl refl refl client phone
                s.contacts;
        })
]

-- The remote id that a contact has after a sync that ended so, from the one before.
abbrev id_after : Reply (Option Text) → Option Text → Option Text
id_after (got (some crm_id)) before = some crm_id
id_after _ before = before

mirror-id_after :
    (uuid : String) (call : Call) (crm_id : Text) (s : Store)
    → crm_of call.client_id call.from_e164 (mirror uuid call crm_id s).contacts
      ≡ id_after
          (got (text_or (some crm_id) none))
          (crm_of call.client_id call.from_e164 s.contacts)
unfolding mirror
mirror-id_after uuid call crm_id s = elim (Bool-cases (is_empty crm_id)) [
  | inl blank ↦ rw (blank, mirror) refl
  | inr given ↦
      rw (given, mirror)
        (crm_of-upsert_row (new_row uuid call crm_id) crm_id refl refl refl s.contacts)
]

-- What a sync of this call that ended so did to the store.
abbrev pub Mirrors : Call → Store → Reply (Option Text) × Store → Type 0
Mirrors call before (reply, after) =
    Keeps before after
    × (crm_of call.client_id call.from_e164 after.contacts
        ≡ id_after reply (crm_of call.client_id call.from_e164 before.contacts))

module _ {S : Type 0} (crm : CrmPort S) (uuid : String) where
  log_contact-Mirrors :
      (call : Call) (summary : Text) (contact : CrmContact) (s : Store) (w : S)
      → Mirrors call s (
        (log_contact crm uuid call summary contact (s, w)).0,
        (log_contact crm uuid call summary contact (s, w)).1.0,
      )
  unfolding log_contact
  log_contact-Mirrors call summary contact s w =
      elim (Reply-cases
        (crm.log_call contact.crm_id summary (outcome_text call.outcome) (duration_of call) w).0) [
          | inl (e, failed) ↦ rw (failed, log_contact) (Keeps-refl s, refl)
          | inr (inl (e, failed)) ↦ rw (failed, log_contact) (Keeps-refl s, refl)
          | inr (inr (engagement, done)) ↦
              rw (done, log_contact)
                (
                  mirror-Keeps uuid call contact.crm_id s,
                  mirror-id_after uuid call contact.crm_id s,
                )
        ]

  -- With any CRM: a sync of a call that is in the store changes nobody's name and nobody's opt-out,
  -- whether it returns or raises. The contact of the call's client and caller carries the remote id that
  -- it returns; where it raises or returns none, the contact's remote id is the one from before.
  pub sync_call-Mirrors :
      (call_id : String) (call : Call) (s : Store) (w : S)
      → get_call call_id s ≡ some call
      → Mirrors call s
          ((sync_call crm uuid call_id (s, w)).0, (sync_call crm uuid call_id (s, w)).1.0)
  unfolding sync_call
  sync_call-Mirrors call_id call s w found =
      let summary = summary_of (find_analysis call_id s.analyses) in
      let asked =
        crm.upsert_contact (codes call.from_e164) (name_of call.client_id call.from_e164 s.contacts)
          none w in
      elim (Reply-cases asked.0) [
        | inl (e, failed) ↦ rw (found, sync_call) (rw failed (Keeps-refl s, refl))
        | inr (inl (e, failed)) ↦ rw (found, sync_call) (rw failed (Keeps-refl s, refl))
        | inr (inr (contact, done)) ↦
            rw (found, sync_call) (rw done (log_contact-Mirrors call summary contact s asked.1))
      ]
