-- ===== src/Telephony/Sms.antt =====
-- `apps/api/telephony/sms.py`: the outbound SMS. The world is the store and the outside `S`; a session
-- commits when its block is left.
pub mod Once
pub mod Frame
use revenue_recovery_voice_a.Base.{
  ℕ, Bool, true, false, not, ◌||◌, List, [], ◌∷◌, Option, none, some, String, Text, codes, lower,
  strip, strip_of, text_in, text_eq, Json, obj, Fields, end, field, get_field, FloatOps, Result, ok,
  err, value_error, attribute_error, leb, ◌==◌, if◌then◌else◌,
}
use revenue_recovery_voice_a.Resilience.{
  Exchange, HttpResponse, Outside, Sent, returned, raised, crashed, request_with_retry,
  unsafe_write,
}
use revenue_recovery_voice_a.Store.{Store, claim_sms_send, is_suppressed, mark_sms_delivered}

-- The settings that the telephony reads.
pub record Settings : Type 0 where
  pub twilio_account_sid : String
  pub twilio_messaging_from : String
  pub twilio_recording_enabled : Bool

-- `not s`
abbrev pub is_blank : String → Bool
is_blank String.[] = true
is_blank (String.◌∷◌ c s) = false

-- An optional string that is true in a test.
abbrev pub truthy : Option String → Option String
truthy none = none
truthy (some s) = if is_blank s then none else some s

-- `OPT_OUT_KEYWORDS`
abbrev opt_out_keywords : List Text
opt_out_keywords =
    codes "stop"
    ∷ codes "stopall"
    ∷ codes "unsubscribe"
    ∷ codes "cancel"
    ∷ codes "end"
    ∷ codes "quit"
    ∷ codes "revoke"
    ∷ codes "optout"
    ∷ codes "opt-out"
    ∷ []

-- `is_opt_out`
unfoldable pub is_opt_out : Text → Bool
unfolding strip strip_of lower text_in text_eq
is_opt_out body =
    text_in (strip_of (λ c. (c == b'.') || (c == b'!')) (lower (strip body))) opt_out_keywords

-- `response.json().get("sid")`
unfoldable pub response_sid : HttpResponse → Result (Option Json)
unfolding get_field
response_sid r = elim r.json [
  | none ↦ err value_error
  | some (obj fs) ↦ ok (get_field (codes "sid") fs)
  | some _ ↦ err attribute_error
]

-- `sid = ...` and the mark on the claim of an accepted message.
unfoldable pub receipt : Option ℕ → Result (Option Json) → Store → Result Bool × Store
receipt send_id (err e) store = (err e, store)
receipt none (ok sid) store = (ok true, store)
receipt (some i) (ok sid) store = (ok true, mark_sms_delivered i sid store)

-- What the end of `send_sms` makes of the reply.
unfoldable pub conclude : Option ℕ → Sent → Store → Result Bool × Store
conclude send_id (raised e) store = (ok false, store)
conclude send_id (crashed e) store = (err e, store)
conclude send_id (returned r) store =
    if leb 400 r.status_code then (ok false, store) else receipt send_id (response_sid r) store

module _ (fl : FloatOps) {S : Type 0} (io : Outside fl.F S)
    (post : String → Text → S → Exchange × S) where
  -- The send under a claim, from `url = ...` to the end.
  unfoldable pub deliver : String → Text → Option ℕ → Store × S → Result Bool × (Store × S)
  deliver to body send_id (store, world) =
      let (sent, world') = request_with_retry fl io (post to body) unsafe_write world in
      let (result, store') = conclude send_id sent store in (result, (store', world'))

  -- `send_sms`
  unfoldable pub send_sms :
      Settings
      → String
      → Text
      → Option String
      → Option String
      → Store × S
      → Result Bool × (Store × S)
  send_sms settings to body client_id dedupe_key (store, world) =
      if is_blank settings.twilio_account_sid || is_blank settings.twilio_messaging_from
      then (ok false, (store, world))
      else elim (truthy client_id) [
        | none ↦ deliver to body none (store, world)
        | some client ↦
            if is_suppressed client to store
            then (ok false, (store, world))
            else elim (truthy dedupe_key) [
              | none ↦ deliver to body none (store, world)
              | some key ↦
                  let (claim, store') = claim_sms_send client to key store in
                  elim claim [
                    | none ↦ (ok false, (store', world))
                    | some send_id ↦ deliver to body (some send_id) (store', world)
                  ]
            ]
      ]

  -- `sms_sender_for`
  unfoldable pub sms_sender_for :
      Settings → String → String → Text → Option String → Store × S → Result Bool × (Store × S)
  sms_sender_for settings client_id to body dedupe_key w =
      send_sms settings to body (some client_id) dedupe_key w
