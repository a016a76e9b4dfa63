-- ===== src/Tools/Crm.antt =====
-- `apps/api/tools/crm.py`: the CRM port, its adapter for HubSpot and the one without a CRM. The HTTP
-- client acts on the outside `S`; `str` of a JSON value that is not a string is a parameter.
pub mod Once
use revenue_recovery_voice_a.Base.{
  ℕ, ◌≡◌, refl, ◌⊎◌, inl, inr, Bool, true, false, List, [], ◌∷◌, ◌++◌, Option, none, some, String,
  Text, codes, strip, is_space, is_empty, str_int, ℤ, pos, negsuc, ◌*◌, suc, Json, null, bool, num,
  str, arr, obj, Items, nil, cons, Fields, end, field, get_field, Exc, value_error, attribute_error,
  type_error, lookup_error, runtime_error, FloatOps, Result, ok, err, leb, if◌then◌else◌, ◌>>=◌,
}
use mathlib.Core.List.{reverse}
use Prim.Native.Nat.{◌-◌}
use revenue_recovery_voice_a.Media.Realtime.{get, or_dict, lit}
use revenue_recovery_voice_a.Tools.CrmRequests.{
  Method, Ask, search_path, contacts_path, calls_path, call_to_contact_association_type_id, one,
  only, words_from, words, join_spaced, name_parts, split_name, search_ask, set_text, or_text,
  contact_properties, create_ask, update_ask, thousandfold, call_ask, post, patch,
}
use revenue_recovery_voice_a.Tools.Dispatch.{is_falsy_json}
use revenue_recovery_voice_a.Resilience.{
  Exchange, HttpError, HttpResponse, Outside, RetryPolicy, Sent, sent_of, returned, raised, crashed,
  request_with_retry,
}
use revenue_recovery_voice_a.Telephony.Sms.{is_blank}

-- `CRMContact`; what HubSpot holds of the phone and the e-mail address is any JSON.
pub record CrmContact : Type 0 where
  pub crm_id : Text
  pub phone_e164 : Json
  pub full_name : Option Text
  pub email : Json
  pub created : Bool

-- What a call of an adapter returns or raises.
pub data Reply {ℓ} (A : Type ℓ) : Type ℓ where
  got : A → Reply A
  refused : HttpError → Reply A
  threw : Exc → Reply A

-- To split on a computed reply and keep the equation.
pub Reply-cases :
    {A : Type 0} (r : Reply A)
    → ((e : HttpError) × (r ≡ refused e)) ⊎ (((e : Exc) × (r ≡ threw e)) ⊎ ((a : A) × (r ≡ got a)))
Reply-cases (refused e) = inl (e, refl)
Reply-cases (threw e) = inr (inl (e, refl))
Reply-cases (got a) = inr (inr (a, refl))

abbrev pub reply_of {ℓ} : {A : Type ℓ} → Result A → Reply A
reply_of (ok a) = got a
reply_of (err e) = threw e

-- `CRMPort`
pub record CrmPort (S : Type 0) : Type 0 where
  pub find_by_phone : Text → S → Reply (Option CrmContact) × S
  pub upsert_contact : Text → Option Text → Option Text → S → Reply CrmContact × S
  pub log_call : Text → Text → Text → ℤ → S → Reply (Option Text) × S

-- `value or None` and `value or other`, on texts
abbrev pub text_or : Option Text → Option Text → Option Text
text_or none other = other
text_or (some s) other = if is_empty s then other else some s

-- An item of the joined names, where it is true.
unfoldable name_part : Json → Result (List Text)
name_part j = if is_falsy_json j then ok [] else elim j [ str s ↦ ok (s ∷ []) | _ ↦ err type_error ]

-- `response.json()`
abbrev pub body_of : HttpResponse → Result Json
body_of r = elim r.json [ none ↦ err value_error | some j ↦ ok j ]

-- `payload.get(key, default)`
unfoldable pub get_or : String → Json → Json → Result Json
unfolding get_field
get_or key default (obj fs) = elim (get_field (codes key) fs) [ none ↦ ok default | some j ↦ ok j ]
get_or key default _ = err attribute_error

-- `results[0] if results else ...`: a text or a dict has no item that is a contact.
unfoldable pub first_of : Json → Result (Option Json)
first_of results = if is_falsy_json results then ok none else elim results [
  | arr xs ↦ elim xs [ nil ↦ ok none | cons x rest ↦ ok (some x) ]
  | obj fs ↦ err lookup_error
  | str s ↦ elim s [ [] ↦ ok none | ◌∷◌ c rest ↦ ok (some (str (c ∷ []))) ]
  | _ ↦ err type_error
]

module _ (show : Json → Text) where
  -- `str(value)`
  abbrev text_of : Json → Text
  text_of (str s) = s
  text_of j = show j

  -- `_to_contact`
  unfoldable pub to_contact : Json → Text → Result CrmContact
  unfolding name_part join_spaced get get_or
  to_contact payload fallback_phone = do
    properties ← get "properties" payload
    firstname ← get "firstname" (or_dict properties)
    lastname ← get "lastname" (or_dict properties)
    first ← name_part firstname
    last ← name_part lastname
    id ← get_or "id" (str []) payload
    phone ← get "phone" (or_dict properties)
    email ← get "email" (or_dict properties)
    ok (record {
      crm_id = text_of id;
      phone_e164 = if is_falsy_json phone then str fallback_phone else phone;
      full_name = text_or (some (strip (join_spaced (first ++ last)))) none;
      email = email;
      created = false;
    })

  -- The contact that a search found.
  unfoldable pub first_contact : Text → HttpResponse → Result (Option CrmContact)
  unfolding get_or first_of to_contact
  first_contact phone r = do
    body ← body_of r
    results ← get_or "results" (arr nil) body
    first ← first_of results
    elim first [ none ↦ ok none | some payload ↦ to_contact payload phone >>= λ c. ok (some c) ]

  -- What `find_by_phone` makes of the answer.
  unfoldable pub found : Text → Sent → Reply (Option CrmContact)
  unfolding first_contact
  found phone (raised e) = refused e
  found phone (crashed e) = threw e
  found phone (returned r) =
      if leb 400 r.status_code then got none else reply_of (first_contact phone r)

  abbrev email_or : Option Text → Json → Json
  email_or email other = elim (text_or email none) [ none ↦ other | some s ↦ str s ]

  -- What `upsert_contact` makes of the answer to its write.
  unfoldable pub written :
      Text → Option Text → Option Text → Option CrmContact → Sent → Reply CrmContact
  unfolding to_contact
  written phone full_name email existing (raised e) = refused e
  written phone full_name email existing (crashed e) = threw e
  written phone full_name email existing (returned r) =
      if leb 400 r.status_code
      then elim existing [ none ↦ threw runtime_error | some c ↦ got c ]
      else reply_of (
          body_of r >>= λ body. to_contact body phone >>= λ c. ok (record {
            crm_id = c.crm_id;
            phone_e164 = str phone;
            full_name = text_or full_name c.full_name;
            email = email_or email c.email;
            created = elim existing [ none ↦ true | some _ ↦ false ];
          }))

  -- `str(response.json().get("id", "")) or None`
  unfoldable pub logged : Sent → Reply (Option Text)
  unfolding get_or
  logged (raised e) = refused e
  logged (crashed e) = threw e
  logged (returned r) =
      if leb 400 r.status_code
      then got none
      else reply_of (
          body_of r >>= λ body.
          get_or "id" (str []) body >>= λ id. ok (text_or (some (text_of id)) none))

  module _ (fl : FloatOps) {S : Type 0} (io : Outside fl.F S) (client : Ask → S → Exchange × S)
      (retry : RetryPolicy) where
    -- `HubSpotCRM._request`
    unfoldable pub request : Bool → Ask → S → Sent × S
    request true ask world = request_with_retry fl io (client ask) retry world
    request false ask world = let (x, world') = client ask world in (sent_of x, world')

    -- `HubSpotCRM.find_by_phone`
    unfoldable pub find_by_phone : Text → S → Reply (Option CrmContact) × S
    unfolding request search_ask found
    find_by_phone phone world =
        let (sent, world') = request true (search_ask phone) world in (found phone sent, world')

    -- The write of `upsert_contact`
    unfoldable pub write_contact : Option CrmContact → Json → S → Sent × S
    unfolding request create_ask update_ask
    write_contact none properties = request false (create_ask properties)
    write_contact (some existing) properties = request true (update_ask existing.crm_id properties)

    -- `HubSpotCRM.upsert_contact` after the search
    unfoldable pub upsert_found :
        Text → Option Text → Option Text → Option CrmContact → S → Reply CrmContact × S
    unfolding split_name contact_properties write_contact written
    upsert_found phone full_name email existing world = elim (split_name full_name) [
      | err e ↦ (threw e, world)
      | ok (first, last) ↦
          let (sent, world') =
            write_contact existing (contact_properties phone first last email) world in
          (written phone full_name email existing sent, world')
    ]

    -- `HubSpotCRM.upsert_contact`
    unfoldable pub upsert_contact : Text → Option Text → Option Text → S → Reply CrmContact × S
    unfolding find_by_phone upsert_found
    upsert_contact phone full_name email world =
        let (search, world') = find_by_phone phone world in
        elim search [
          | refused e ↦ (refused e, world')
          | threw e ↦ (threw e, world')
          | got existing ↦ upsert_found phone full_name email existing world'
        ]

    -- `HubSpotCRM.log_call`
    unfoldable pub log_call : Text → Text → Text → ℤ → S → Reply (Option Text) × S
    unfolding request call_ask logged
    log_call crm_id summary outcome duration_seconds world =
        let (sent, world') =
          request false (call_ask crm_id summary outcome duration_seconds) world in
        if is_empty crm_id then (got none, world) else (logged sent, world')

    -- `HubSpotCRM`
    unfoldable pub hubspot_crm : CrmPort S
    unfolding find_by_phone upsert_contact log_call
    hubspot_crm = record {
      find_by_phone = find_by_phone;
      upsert_contact = upsert_contact;
      log_call = log_call;
    }

-- `NullCRM`
unfoldable null_crm : {S : Type 0} → CrmPort S
null_crm = record {
  find_by_phone = λ phone world. (got none, world);
  upsert_contact = λ phone full_name email world. (
    got (record {
      crm_id = [];
      phone_e164 = str phone;
      full_name = full_name;
      email = elim email [ none ↦ null | some s ↦ str s ];
      created = false;
    }),
    world,
  );
  log_call = λ crm_id summary outcome duration_seconds world. (got none, world);
}

-- `build_crm`
unfoldable build_crm : {S : Type 0} → String → CrmPort S → CrmPort S
unfolding null_crm
build_crm hubspot_access_token hubspot = if is_blank hubspot_access_token then null_crm else hubspot
