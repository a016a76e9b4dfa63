-- ===== src/Workers/CrmSync.antt =====
-- `apps/api/workers/crm_sync.py`: the worker that mirrors a finished call into the CRM. The CRM is any
-- adapter of the port. Times in the store are microseconds.
pub mod Mirror
use revenue_recovery_voice_a.Base.{
  ℕ, zero, suc, ◌-◌, ◌/◌, Bool, true, false, List, [], ◌∷◌, Option, none, some, String, str_eq,
  Text, codes, is_empty, ℤ, pos, negsuc, Exc, lookup_error, leb, if◌then◌else◌,
}
use revenue_recovery_voice_a.Store.{
  Store, Call, CallOutcome, booked, qualified, escalated, abandoned, out_of_area, failed,
  CallAnalysis, Contact, get_call, is_contact, upsert_row,
}
use revenue_recovery_voice_a.Tools.Crm.{CrmPort, CrmContact, Reply, got, refused, threw, text_or}

-- `session.get(CallAnalysis, call_id)`
unfoldable pub find_analysis : String → List CallAnalysis → Option CallAnalysis
find_analysis call_id [] = none
find_analysis call_id (a ∷ rest) =
    if str_eq a.call_id call_id then some a else find_analysis call_id rest

-- The `full_name` of the contact with this key.
unfoldable pub name_of : String → String → List Contact → Option Text
name_of client_id phone [] = none
name_of client_id phone (c ∷ cs) =
    if is_contact client_id phone c then c.full_name else name_of client_id phone cs

abbrev pub outcome_text : Option CallOutcome → Text
outcome_text none = codes "unknown"
outcome_text (some booked) = codes "booked"
outcome_text (some qualified) = codes "qualified"
outcome_text (some escalated) = codes "escalated"
outcome_text (some abandoned) = codes "abandoned"
outcome_text (some out_of_area) = codes "out_of_area"
outcome_text (some failed) = codes "failed"

abbrev pub summary_of : Option CallAnalysis → Text
summary_of none = codes "Voice agent call — no analysis available."
summary_of (some a) = a.summary

abbrev pub minus : ℕ → ℤ
minus zero = pos 0
minus (suc n) = negsuc n

-- `int((b - a).total_seconds())`, towards zero
unfoldable seconds_between : ℕ → ℕ → ℤ
seconds_between a b = if leb a b then pos ((b - a) / 1000000) else minus ((a - b) / 1000000)

-- `duration`
unfoldable pub duration_of : Call → ℤ
unfolding seconds_between
duration_of call = elim call.ended_at [
  | none ↦ pos 0
  | some at ↦ seconds_between call.started_at at
]

-- The row of a contact that is not there yet, `uuid` being its id.
abbrev pub new_row : String → Call → Text → Contact
new_row uuid call crm_id = record {
  id = uuid;
  client_id = call.client_id;
  phone_e164 = call.from_e164;
  full_name = none;
  crm_id = some crm_id;
  opted_out_at = none;
}

-- The remote id on the local row.
unfoldable pub mirror : String → Call → Text → Store → Store
unfolding upsert_row
mirror uuid call crm_id store = if is_empty crm_id then store else record store {
  contacts =
      (upsert_row (new_row uuid call crm_id) (λ c. record c { crm_id = some crm_id })
        store.contacts).1;
}

module _ {S : Type 0} (crm : CrmPort S) (uuid : String) where
  -- `sync_call` from the log of the call on
  unfoldable pub log_contact :
      Call → Text → CrmContact → Store × S → Reply (Option Text) × (Store × S)
  unfolding duration_of mirror
  log_contact call summary contact (store, world) =
      let (logged, world') =
        crm.log_call contact.crm_id summary (outcome_text call.outcome) (duration_of call) world in
      elim logged [
        | refused e ↦ (refused e, (store, world'))
        | threw e ↦ (threw e, (store, world'))
        | got engagement ↦ (
          got (text_or (some contact.crm_id) none),
          (mirror uuid call contact.crm_id store, world'),
        )
      ]

  -- `sync_call`
  unfoldable pub sync_call : String → Store × S → Reply (Option Text) × (Store × S)
  unfolding find_analysis name_of log_contact
  sync_call call_id (store, world) = elim (get_call call_id store) [
    | none ↦ (threw lookup_error, (store, world))
    | some call ↦
        let summary = summary_of (find_analysis call_id store.analyses) in
        let name = name_of call.client_id call.from_e164 store.contacts in
        let (contact, world') = crm.upsert_contact (codes call.from_e164) name none world in
        elim contact [
          | refused e ↦ (refused e, (store, world'))
          | threw e ↦ (threw e, (store, world'))
          | got c ↦ log_contact call summary c (store, world')
        ]
  ]
