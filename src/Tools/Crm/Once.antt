-- ===== src/Tools/Crm/Once.antt =====
-- `apps/api/tools/crm.py`: how many contacts one `upsert_contact` makes. HubSpot has no idempotency key
-- for a new contact.
use revenue_recovery_voice_a.Base.{
  codes, ◌>>=◌, Result, err, ◌⊎◌, null, bool, num, str, arr, nil, cons, obj, end, field, [], ◌∷◌,
  Exc, type_error, lookup_error, get_field, if◌then◌else◌, Bool-cases, Option-cases, leb, ℕ, ◌+◌,
  ◌≤◌, ◌≡◌, refl, ap, ◌∙◌, Bool, true, false, Option, none, some, Text, text_eq, Json, FloatOps,
  inl, inr, Result-cases, ok, arith,
}
use revenue_recovery_voice_a.Resilience.{
  Exchange, HttpResponse, Sent, returned, raised, crashed, Outside, RetryPolicy,
}
use revenue_recovery_voice_a.Resilience.Frame.{request_with_retry-keeps}
use revenue_recovery_voice_a.Tools.Crm.{
  CrmContact, Reply-cases, Reply, got, found, reply_of, first_of, to_contact, first_contact, get_or,
  request, find_by_phone, write_contact, upsert_found, upsert_contact,
}
use revenue_recovery_voice_a.Tools.Dispatch.{is_falsy_json}
use revenue_recovery_voice_a.Tools.CrmRequests.{
  post, patch, Ask, contacts_path, search_ask, create_ask, update_ask, split_name,
  contact_properties,
}

-- How many contacts there are to make after a search.
abbrev new_contacts : Option CrmContact → ℕ
new_contacts none = 1
new_contacts (some c) = 0

abbrev pub to_create : Reply (Option CrmContact) → ℕ
to_create (got existing) = new_contacts existing
to_create _ = 0

-- Whether the body of an answer is a dict that lists no contact.
abbrev pub lists_nobody : Json → Bool
lists_nobody (obj fs) = elim (get_field (codes "results") fs) [
  | none ↦ true
  | some results ↦ is_falsy_json results
]
lists_nobody _ = false

-- How many contacts the answer to a search leaves to be made: one where HubSpot refused the search, and
-- where it lists nobody.
abbrev pub left_to_create : Sent → ℕ
left_to_create (raised e) = 0
left_to_create (crashed e) = 0
left_to_create (returned r) =
    if leb 400 r.status_code
    then 1
    else elim r.json [ none ↦ 0 | some body ↦ if lists_nobody body then 1 else 0 ]

module _ (show : Json → Text) (phone : Text) where
  some-to_create : (r : Result CrmContact) → to_create (reply_of (r >>= λ c. ok (some c))) ≡ 0
  some-to_create (ok c) = refl
  some-to_create (err e) = refl

  -- The item of results that are true is one of them, or raises.
  first_of-listed :
      (results : Json)
      → is_falsy_json results ≡ false
      → ((x : Json) × (first_of results ≡ ok (some x))) ⊎ ((e : Exc) × (first_of results ≡ err e))
  unfolding first_of
  first_of-listed null h = absurd (cc (h))
  first_of-listed (bool b) h = rw h (inr (type_error, refl))
  first_of-listed (num n) h = rw h (inr (type_error, refl))
  first_of-listed (str []) h = absurd (cc (h))
  first_of-listed (str (c ∷ s)) h = inl (str (c ∷ []), refl)
  first_of-listed (arr nil) h = absurd (cc (h))
  first_of-listed (arr (cons x xs)) h = inl (x, refl)
  first_of-listed (obj end) h = absurd (cc (h))
  first_of-listed (obj (field k v fs)) h = inr (lookup_error, refl)

  first_of-empty : (results : Json) → is_falsy_json results ≡ true → first_of results ≡ ok none
  unfolding first_of
  first_of-empty results h = rw h refl

  -- What is made of the results of a search.
  abbrev contact_in : Json → Result (Option CrmContact)
  contact_in results = first_of results >>= λ first. elim first [
    | none ↦ ok none
    | some payload ↦ to_contact show payload phone >>= λ c. ok (some c)
  ]

  contact_in-to_create :
      (results : Json)
      → to_create (reply_of (contact_in results)) ≤ (if is_falsy_json results then 1 else 0)
  contact_in-to_create results = elim (Bool-cases (is_falsy_json results)) [
    | inl empty ↦ rw empty (rw (first_of-empty results empty) (omega arith))
    | inr listed ↦ rw listed (elim (first_of-listed results listed) [
      | inl (x, item) ↦ rw item (omega (arith, some-to_create (to_contact show x phone)))
      | inr (e, threw) ↦ rw threw (omega arith)
    ])
  ]

  body-to_create :
      (body : Json)
      → to_create (reply_of (get_or "results" (arr nil) body >>= contact_in))
        ≤ (if lists_nobody body then 1 else 0)
  unfolding get_or first_of
  body-to_create (obj fs) = elim (Option-cases (get_field (codes "results") fs)) [
    | inl absent ↦ rw (absent, lists_nobody, get_or) (omega arith)
    | inr (results, present) ↦ rw (present, lists_nobody, get_or) (contact_in-to_create results)
  ]
  body-to_create null = omega arith
  body-to_create (bool b) = omega arith
  body-to_create (num n) = omega arith
  body-to_create (str s) = omega arith
  body-to_create (arr xs) = omega arith

  found-to_create : (sent : Sent) → to_create (found show phone sent) ≤ left_to_create sent
  unfolding found first_contact
  found-to_create (raised e) = omega arith
  found-to_create (crashed e) = omega arith
  found-to_create (returned r) = elim (Bool-cases (leb 400 r.status_code)) [
    | inl bad ↦ rw bad (omega arith)
    | inr fine ↦ rw fine (elim (Option-cases r.json) [
      | inl absent ↦ rw absent (omega arith)
      | inr (body, present) ↦ rw present (body-to_create body)
    ])
  ]

-- Whether a request makes a new contact.
abbrev pub is_create : Ask → Bool
is_create ask = elim ask.method [ patch ↦ false | post ↦ text_eq ask.path contacts_path ]

module _ (show : Json → Text) (fl : FloatOps) {S : Type 0} (io : Outside fl.F S)
    (client : Ask → S → Exchange × S) (retry : RetryPolicy) (creates : S → ℕ)
    (drawn : (w : S) → creates (io.random w).1 ≡ creates w)
    (slept : (delay : fl.F) (w : S) → creates (io.sleep delay w) ≡ creates w)
    (other : (ask : Ask) (w : S) → is_create ask ≡ false → creates (client ask w).1 ≡ creates w)
    (creating : (ask : Ask) (w : S) → creates (client ask w).1 ≤ creates w + 1) where
  retried-creates :
      (ask : Ask) (w : S)
      → is_create ask ≡ false
      → creates (request show fl io client retry true ask w).1 ≡ creates w
  unfolding request
  retried-creates ask w h =
      request_with_retry-keeps fl io (λ v. creates v ≡ creates w) (λ v k. drawn v ∙ k)
        (λ delay v k. slept delay v ∙ k) (client ask) retry (λ v k. other ask v h ∙ k) w refl

  find_by_phone-creates :
      (phone : Text) (w : S) → creates (find_by_phone show fl io client retry phone w).1 ≡ creates w
  unfolding find_by_phone search_ask text_eq
  find_by_phone-creates phone w = retried-creates (search_ask phone) w refl

  write_contact-creates :
      (existing : Option CrmContact) (properties : Json) (w : S)
      → creates (write_contact show fl io client retry existing properties w).1
        ≤ creates w + new_contacts existing
  unfolding write_contact request create_ask update_ask
  write_contact-creates none properties w = creating (create_ask properties) w
  write_contact-creates (some c) properties w =
      omega (arith, retried-creates (update_ask c.crm_id properties) w refl)

  upsert_found-creates :
      (phone : Text) (full_name email : Option Text) (existing : Option CrmContact) (w : S)
      → creates (upsert_found show fl io client retry phone full_name email existing w).1
        ≤ creates w + new_contacts existing
  unfolding upsert_found
  upsert_found-creates phone full_name email existing w =
      elim (Result-cases (split_name full_name)) [
        | inl ((first, last), named) ↦
            rw (named, upsert_found)
              (write_contact-creates existing (contact_properties phone first last email) w)
        | inr (e, unnamed) ↦ rw (unnamed, upsert_found) (omega arith)
      ]

  -- Where a contact is made by at most one request for a new contact each, and by nothing else: one
  -- `upsert_contact` makes at most one, however often its search is retried, and it makes none unless
  -- HubSpot refused the search, with a status of 400 or more, or answered it with a dict that lists
  -- nobody.
  pub upsert_contact-creates_once :
      (phone : Text) (full_name email : Option Text) (w : S)
      → creates (upsert_contact show fl io client retry phone full_name email w).1
        ≤ creates w + left_to_create (request show fl io client retry true (search_ask phone) w).0
  unfolding upsert_contact find_by_phone
  upsert_contact-creates_once phone full_name email w =
      let same = find_by_phone-creates phone w in
      let least =
        found-to_create show phone (request show fl io client retry true (search_ask phone) w).0 in
      let w' = (find_by_phone show fl io client retry phone w).1 in
      elim (Reply-cases (find_by_phone show fl io client retry phone w).0) [
        | inl (e, failed) ↦ rw (failed, upsert_contact) (omega (arith, same))
        | inr (inl (e, failed)) ↦ rw (failed, upsert_contact) (omega (arith, same))
        | inr (inr (existing, search)) ↦
            rw (search, upsert_contact)
              (omega (
                arith,
                same,
                ap to_create search,
                least,
                upsert_found-creates phone full_name email existing w',
              ))
      ]

module _ (show : Json → Text) (fl : FloatOps) {S : Type 0} (io : Outside fl.F S)
    (client : Ask → S → Exchange × S) (retry : RetryPolicy) where
  -- A search that HubSpot refuses, with a status of 400 or more, counts as one that found nobody: the
  -- contact is created, whether or not there is one with this phone already.
  failed_search_creates :
      (phone : Text) (full_name email : Option Text) (first last : Text) (w w' : S)
      (r : HttpResponse)
      → request show fl io client retry true (search_ask phone) w ≡ (returned r, w')
      → leb 400 r.status_code ≡ true
      → split_name full_name ≡ ok (first, last)
      → (upsert_contact show fl io client retry phone full_name email w).1
        ≡ (client (create_ask (contact_properties phone first last email)) w').1
  unfolding upsert_contact find_by_phone found upsert_found write_contact request
  failed_search_creates phone full_name email first last w w' r answer bad named =
      rw (answer, upsert_contact)
        (rw (bad, upsert_contact)
          (rw (named, upsert_found)
            (ap
              (λ (v : Sent × S).
                (client (create_ask (contact_properties phone first last email)) v.1).1)
              answer)))
