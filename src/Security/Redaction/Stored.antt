-- ===== src/Security/Redaction/Stored.antt =====
-- `redact_structure` of `apps/api/security/redaction.py` behind the repository: what is stored of callers
-- and of the model's arguments went through the redaction.
use revenue_recovery_voice_a.Base.{
  ℕ, Bool, ◌&&◌, ◌||◌, List, [], ◌∷◌, ◌++◌, map, Option, some, String, str_eq, Text, text_eq, Json,
  null, bool, num, str, arr, obj, Items, nil, cons, Fields, end, field, ◌≡◌, refl, All, Bool-cases,
  Option-cases, inl, inr, is_some, if◌then◌else◌, ok, err,
}
use revenue_recovery_voice_a.Store.{
  Store, Turn, ToolInvocation, create_call, finish_call, set_recording_url, insert_turn,
  set_turn_truncation, insert_tool_invocation, insert_call_event, upsert_contact, mark_opted_out,
  claim_sms_send, mark_sms_delivered, get_call, get_call_by_sid, is_claimed, is_item, Direction,
}
use revenue_recovery_voice_a.Store.Writes.{
  Write, write, write_all, created, finished, recorded, turn, truncated, invoked, noted, contacted,
  opted_out, claimed, delivered,
}
use revenue_recovery_voice_a.Security.Redaction.{
  put_field, redact_structure, redact_items, redact_fields,
}

module _ (redact_pan : Text → Text) where
  -- A text that came out of the redaction.
  abbrev pub IsRedacted : Text → Type 0
  IsRedacted s = (t : Text) × (redact_pan t ≡ s)

  -- Every text in a value, the keys of its dicts among them.
  unfoldable mutual
    pub AllRedacted : Json → Type 0
    AllRedacted null = Unit
    AllRedacted (bool b) = Unit
    AllRedacted (num n) = Unit
    AllRedacted (str s) = IsRedacted s
    AllRedacted (arr xs) = ItemsRedacted xs
    AllRedacted (obj fs) = FieldsRedacted fs

    pub ItemsRedacted : Items → Type 0
    ItemsRedacted nil = Unit
    ItemsRedacted (cons x xs) = AllRedacted x × ItemsRedacted xs

    pub FieldsRedacted : Fields → Type 0
    FieldsRedacted end = Unit
    FieldsRedacted (field k v fs) = IsRedacted k × AllRedacted v × FieldsRedacted fs

  put_field-redacted :
      (k : Text) (v : Json) (fs : Fields)
      → IsRedacted k
      → AllRedacted v
      → FieldsRedacted fs
      → FieldsRedacted (put_field k v fs)
  unfolding put_field AllRedacted
  put_field-redacted k v end p q h = (p, q, tt)
  put_field-redacted k v (field j w fs) p q h = elim (Bool-cases (text_eq k j)) [
    | inl same ↦ rw same (h.0, q, h.2)
    | inr other ↦ rw other (h.0, h.1, put_field-redacted k v fs p q h.2)
  ]

  mutual
    unfolding redact_structure AllRedacted

    redact_structure-redacted : (j : Json) → AllRedacted (redact_structure redact_pan j)
    redact_structure-redacted null = tt
    redact_structure-redacted (bool b) = tt
    redact_structure-redacted (num n) = tt
    redact_structure-redacted (str s) = (s, refl)
    redact_structure-redacted (arr xs) = redact_items-redacted xs
    redact_structure-redacted (obj fs) = redact_fields-redacted fs end tt

    redact_items-redacted : (xs : Items) → ItemsRedacted (redact_items redact_pan xs)
    redact_items-redacted nil = tt
    redact_items-redacted (cons x xs) = (redact_structure-redacted x, redact_items-redacted xs)

    redact_fields-redacted :
        (fs made : Fields) → FieldsRedacted made → FieldsRedacted (redact_fields redact_pan fs made)
    redact_fields-redacted end made h = h
    redact_fields-redacted (field k v fs) made h =
        redact_fields-redacted fs (put_field (redact_pan k) (redact_structure redact_pan v) made) (
          put_field-redacted (redact_pan k) (redact_structure redact_pan v) made (k, refl)
            (redact_structure-redacted v) h)

  abbrev pub IsClean : Store → Type 0
  IsClean s =
      All (λ (t : Turn). IsRedacted t.text) s.turns
      × All (λ (i : ToolInvocation). AllRedacted i.arguments) s.tool_invocations

  truncated-All :
      (call_id item_id : String) (at_ms : ℕ) (ts : List Turn)
      → All (λ (t : Turn). IsRedacted t.text) ts
      → All
          (λ (t : Turn). IsRedacted t.text)
          (map
            (λ t.
              if str_eq t.call_id call_id && is_item item_id t.realtime_item_id
              then record t { truncated_at_ms = some at_ms }
              else t)
            ts)
  truncated-All call_id item_id at_ms [] h = tt
  truncated-All call_id item_id at_ms (t ∷ ts) h =
      elim (Bool-cases (str_eq t.call_id call_id && is_item item_id t.realtime_item_id)) [
        | inl hit ↦ rw hit (h.0, truncated-All call_id item_id at_ms ts h.1)
        | inr miss ↦ rw miss (h.0, truncated-All call_id item_id at_ms ts h.1)
      ]

  All-append {ℓ} :
      {A : Type ℓ} (P : A → Type 0) (xs : List A) (y : A) → All P xs → P y → All P (xs ++ (y ∷ []))
  All-append P [] y h p = (p, tt)
  All-append P (x ∷ xs) y h p = (h.0, All-append P xs y h.1 p)

  create_call-IsClean :
      (i client sid phone : String) (direction : Direction) (consent : Bool) (at : Option ℕ)
      (s : Store)
      → IsClean s
      → IsClean (elim (create_call i client sid phone direction consent at s) [
        | ok (_, s') ↦ s'
        | err _ ↦ s
      ])
  unfolding create_call
  create_call-IsClean i client sid phone direction consent at s h =
      elim (Bool-cases (is_some (get_call i s) || is_some (get_call_by_sid sid s))) [
        | inl taken ↦ rw taken h
        | inr free ↦ rw free h
      ]

  set_recording_url-IsClean :
      (i : String) (url : Text) (s : Store) → IsClean s → IsClean (set_recording_url i url s).1
  unfolding set_recording_url
  set_recording_url-IsClean i url s h = elim (Option-cases (get_call i s)) [
    | inl absent ↦ rw (absent, set_recording_url) h
    | inr (call, found) ↦ elim (Bool-cases call.consent_captured) [
      | inl agreed ↦ rw (found, set_recording_url) (rw agreed h)
      | inr refused ↦ rw (found, set_recording_url) (rw refused h)
    ]
  ]

  claim_sms_send-IsClean :
      (client to key : String) (s : Store) → IsClean s → IsClean (claim_sms_send client to key s).1
  unfolding claim_sms_send
  claim_sms_send-IsClean client to key s h = elim (Bool-cases (is_claimed client key s.sms_sends)) [
    | inl taken ↦ rw (taken, claim_sms_send) h
    | inr free ↦ rw (free, claim_sms_send) h
  ]

  write-IsClean :
      (w : Write) (s : Store)
      → IsClean s
      → IsClean (write redact_pan (redact_structure redact_pan) w s)
  unfolding write finish_call insert_turn set_turn_truncation insert_tool_invocation
      insert_call_event upsert_contact mark_opted_out mark_sms_delivered
  write-IsClean (created i client sid phone direction consent at) s h =
      create_call-IsClean i client sid phone direction consent at s h
  write-IsClean (recorded i url) s h = set_recording_url-IsClean i url s h
  write-IsClean (claimed client to key) s h = claim_sms_send-IsClean client to key s h
  write-IsClean (turn i role text at latency cut item) s h =
      (All-append (λ (t : Turn). IsRedacted t.text) s.turns _ h.0 (text, refl), h.1)
  write-IsClean (truncated i item at) s h = (truncated-All i item at s.turns h.0, h.1)
  write-IsClean (invoked i name arguments status latency attempt) s h = (
    h.0,
    All-append (λ (i : ToolInvocation). AllRedacted i.arguments) s.tool_invocations _ h.1
        (redact_structure-redacted arguments),
  )
  write-IsClean (finished i outcome cents at) s h = h
  write-IsClean (noted i at kind payload) s h = h
  write-IsClean (contacted uuid client phone name crm) s h = h
  write-IsClean (opted_out uuid client phone at) s h = h
  write-IsClean (delivered i sid) s h = h

  -- For any redaction of texts: no sequence of the repository's writes stores a turn, or an argument of a
  -- tool at any depth, keys of dicts included, whose text did not come out of the redaction, when the
  -- store holds none at the start.
  pub write_all-IsClean :
      (ws : List Write) (s : Store)
      → IsClean s
      → IsClean (write_all redact_pan (redact_structure redact_pan) ws s)
  unfolding write_all
  write_all-IsClean [] s h = h
  write_all-IsClean (w ∷ ws) s h =
      write_all-IsClean ws (write redact_pan (redact_structure redact_pan) w s)
        (write-IsClean w s h)
