-- ===== src/Store/Messages.antt =====
-- `apps/api/db/repository.py`: contacts, opt-outs and the claims of outbound messages. `ON CONFLICT`
-- looks for the row that holds the key of the UNIQUE constraint; a new claim stands first.
use revenue_recovery_voice_a.Base.{
  ℕ, suc, Bool, true, false, ◌&&◌, List, [], ◌∷◌, Option, none, some, String, str_eq, Text, Json,
  ◌==◌, if◌then◌else◌,
}
use revenue_recovery_voice_a.Store.Tables.{Contact, SmsSend, Store, or_now, clock_after, coalesce}

-- The key of `uq_contacts_client_phone`
abbrev pub is_contact : String → String → Contact → Bool
is_contact client_id phone c = str_eq c.client_id client_id && str_eq c.phone_e164 phone

-- `INSERT ... ON CONFLICT DO UPDATE` on the contacts: the row it returns, and the table
unfoldable pub upsert_row : Contact → (Contact → Contact) → List Contact → Contact × List Contact
upsert_row new f [] = (new, new ∷ [])
upsert_row new f (c ∷ cs) =
    let (row, rest) = upsert_row new f cs in
    if is_contact new.client_id new.phone_e164 c then (f c, f c ∷ cs) else (row, c ∷ rest)

-- `upsert_contact`, `uuid` being the fresh id
unfoldable pub upsert_contact :
    String → String → String → Option Text → Option Text → Store → Contact × Store
unfolding upsert_row
upsert_contact uuid client_id phone full_name crm_id store =
    let new : Contact = record {
      id = uuid;
      client_id = client_id;
      phone_e164 = phone;
      full_name = full_name;
      crm_id = crm_id;
      opted_out_at = none;
    } in
    let (row, contacts) =
      upsert_row new
        (λ c. record c {
          full_name = coalesce full_name c.full_name;
          crm_id = coalesce crm_id c.crm_id;
        })
        store.contacts in
    (row, record store { contacts = contacts })

-- `mark_opted_out`
unfoldable pub mark_opted_out : String → String → String → Option ℕ → Store → Store
unfolding upsert_row
mark_opted_out uuid client_id phone at store =
    let stamp = some (or_now at store.now) in
    let new : Contact = record {
      id = uuid;
      client_id = client_id;
      phone_e164 = phone;
      full_name = none;
      crm_id = none;
      opted_out_at = stamp;
    } in
    record store {
      contacts = (upsert_row new (λ c. record c { opted_out_at = stamp }) store.contacts).1;
      now = clock_after at store.now;
    }

-- Whether a row holds the key of `uq_sms_sends_client_key`.
abbrev holds_key : String → String → SmsSend → Bool
holds_key client_id key s = str_eq s.client_id client_id && str_eq s.dedupe_key key

unfoldable pub is_claimed : String → String → List SmsSend → Bool
is_claimed client_id key [] = false
is_claimed client_id key (s ∷ sends) =
    if holds_key client_id key s then true else is_claimed client_id key sends

-- `claim_sms_send`
unfoldable pub claim_sms_send : String → String → String → Store → Option ℕ × Store
claim_sms_send client_id to_e164 key store =
    if is_claimed client_id key store.sms_sends then (none, store) else (
      some store.next_id,
      record store {
        sms_sends =
            record {
              id = store.next_id;
              client_id = client_id;
              to_e164 = to_e164;
              dedupe_key = key;
              provider_sid = none;
              delivered = false;
            }
            ∷ store.sms_sends;
        next_id = suc store.next_id;
      },
    )

unfoldable pub deliver_row : ℕ → Option Json → List SmsSend → List SmsSend
deliver_row send_id sid [] = []
deliver_row send_id sid (s ∷ sends) =
    (if s.id == send_id then record s { delivered = true; provider_sid = sid } else s)
    ∷ deliver_row send_id sid sends

-- `mark_sms_delivered`
unfoldable pub mark_sms_delivered : ℕ → Option Json → Store → Store
unfolding deliver_row
mark_sms_delivered send_id sid store = record store {
  sms_sends = deliver_row send_id sid store.sms_sends;
}

-- The `opted_out_at` of the contact with this key.
unfoldable pub opt_out_of : String → String → List Contact → Option ℕ
opt_out_of client_id phone [] = none
opt_out_of client_id phone (c ∷ cs) =
    if is_contact client_id phone c then c.opted_out_at else opt_out_of client_id phone cs

-- `is_suppressed`
unfoldable pub is_suppressed : String → String → Store → Bool
is_suppressed client_id phone store = elim (opt_out_of client_id phone store.contacts) [
  | none ↦ false
  | some at ↦ true
]
