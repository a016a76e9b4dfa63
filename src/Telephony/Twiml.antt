-- ===== src/Telephony/Twiml.antt =====
-- `apps/api/telephony/twiml.py`: the entry point of an inbound call and the whisper of a warm transfer.
-- The base64 of the HMAC is a parameter, and so is what `request` holds. A form field that is missing is
-- the empty string.
pub mod Spoken
pub mod Safe
use Prim.Native.Nat.{◌+◌, ◌-◌, ◌*◌, ◌/◌, ◌%◌}
use revenue_recovery_voice_a.Base.{
  is_digit, isdigit, ℕ, Bool, true, false, not, ◌&&◌, ◌||◌, List, [], ◌∷◌, ◌++◌, Option, none, some,
  String, Dict, lookup, Text, codes, drop, length, filter, is_empty, starts_with, text_eq, sort_by,
  ltb, leb, ◌==◌, ◌<>◌, FloatOps, Result, ok, err, Exc, lookup_error, if◌then◌else◌,
}
use revenue_recovery_voice_a.Config.{ClientConfig}
use revenue_recovery_voice_a.Config.Loader.{ClientConfigRegistry, Disk, resolve_by_number}
use revenue_recovery_voice_a.Metrics.{text_le}
use revenue_recovery_voice_a.Store.{Store, Call, inbound, create_call}
use revenue_recovery_voice_a.Telephony.Sms.{Settings, is_blank}
use revenue_recovery_voice_a.Telephony.Xml.{escape, escape_quotes, quoteattr}

-- `CONSENT_LINE`
abbrev pub consent_line : Text
consent_line = codes "This call may be recorded for quality and training."

abbrev pub declaration : Text
declaration = codes "<?xml version=\"1.0\" encoding=\"UTF-8\"?>"

-- `REJECT_TWIML`
abbrev reject_twiml : Text
reject_twiml =
    declaration
    ++ codes
        "<Response><Say>Sorry, this number is not currently in service. Goodbye.</Say><Hangup/></Response>"

-- The items of a form, each key before its value.
unfoldable join_items : List (String × String) → Text
join_items [] = []
join_items ((k, v) ∷ items) = codes k ++ (codes v ++ join_items items)

unfoldable pub item_le : (String × String) → (String × String) → Bool
item_le (a, v) (b, w) = text_le (codes a) (codes b)

-- `s.replace(p, new, 1)`
unfoldable replace_once : Text → Text → Text → Text
replace_once p new [] = []
replace_once p new (c ∷ s) =
    let rest = replace_once p new s in
    if starts_with p (c ∷ s) then new ++ drop (length p) (c ∷ s) else c ∷ rest

-- `form.get(name, "")`
unfoldable pub form_get : String → Dict String → String
form_get name form = elim (lookup name form) [ none ↦ "" | some s ↦ s ]

module _ (hmac : Text → Text → Text) where
  -- `compute_signature`
  unfoldable compute_signature : Text → Text → Dict String → Text
  unfolding join_items item_le sort_by
  compute_signature auth_token url params =
      hmac auth_token (url ++ join_items (sort_by item_le params))

  -- `validate_twilio_request`, `signature` being the header
  unfoldable validate_twilio_request : Bool → Text → Text → Text → Dict String → Bool
  unfolding compute_signature replace_once
  validate_twilio_request validate_signatures auth_token signature url form =
      if not validate_signatures
      then true
      else if is_empty signature
      then false
      else text_eq
          (compute_signature auth_token (replace_once (codes "http://") (codes "https://") url)
            form)
          signature

-- `build_connect_twiml`
unfoldable pub build_connect_twiml : Text → Text → Text
unfolding quoteattr
build_connect_twiml ws_url line =
    declaration
    ++ (codes "<Response>"
        ++ ((if is_empty line then [] else codes "<Say>" ++ (escape line ++ codes "</Say>"))
            ++ (codes "<Connect><Stream url="
                ++ (quoteattr ws_url ++ codes "/></Connect></Response>"))))

abbrev pub spaced : Text → Text
spaced [] = []
spaced (c ∷ []) = c ∷ []
spaced (c ∷ (d ∷ s)) = let rest = spaced (d ∷ s) in c ∷ (b' ' ∷ rest)

-- `_speakable`
unfoldable pub speakable : Text → Text
speakable e164 =
    let digits = filter isdigit e164 in
    if is_empty digits then codes "an unknown number" else spaced (drop (length digits - 10) digits)

-- `spoken`
unfoldable pub spoken : Text → Text → Text → Text
unfolding speakable
spoken from_e164 reason summary =
    codes "Call from "
    ++ (speakable from_e164
        ++ (codes ". Reason: "
            ++ (reason ++ (b'.' ∷ (if is_empty summary then [] else b' ' ∷ summary)))))

-- `build_whisper_twiml`
unfoldable pub build_whisper_twiml : Text → Text → Text → Text
unfolding spoken escape_quotes
build_whisper_twiml from_e164 reason summary =
    declaration
    ++ (codes "<Response><Say>"
        ++ (escape_quotes (spoken from_e164 reason summary) ++ codes "</Say></Response>"))

-- The UTF-8 bytes of a code point.
unfoldable utf8 : ℕ → List ℕ
utf8 c =
    if ltb c 128
    then c ∷ []
    else if ltb c 2048
    then (192 + c / 64) ∷ (128 + c % 64) ∷ []
    else if ltb c 65536
    then (224 + c / 4096) ∷ (128 + c / 64 % 64) ∷ (128 + c % 64) ∷ []
    else (240 + c / 262144) ∷ (128 + c / 4096 % 64) ∷ (128 + c / 64 % 64) ∷ (128 + c % 64) ∷ []

abbrev hex : ℕ → ℕ
hex n = if ltb n 10 then n + b'0' else n - 10 + b'A'

unfoldable is_unreserved : ℕ → Bool
is_unreserved c =
    is_digit c
    || (leb b'a' c && leb c b'z'
        || (leb b'A' c && leb c b'Z' || (c == b'_' || (c == b'.' || (c == b'-' || c == b'~')))))

unfoldable quote_byte : ℕ → Text
unfolding is_unreserved
quote_byte c =
    if is_unreserved c
    then c ∷ []
    else if c == b' '
    then b'+' ∷ []
    else b'%' ∷ hex (c / 16) ∷ hex (c % 16) ∷ []

unfoldable quote_bytes : List ℕ → Text
unfolding quote_byte
quote_bytes [] = []
quote_bytes (c ∷ s) = quote_byte c ++ quote_bytes s

-- `quote_plus`
unfoldable quote_plus : Text → Text
unfolding utf8 quote_bytes
quote_plus [] = []
quote_plus (c ∷ s) = quote_bytes (utf8 c) ++ quote_plus s

-- `urlencode`
unfoldable pub urlencode : List (Text × Text) → Text
unfolding quote_plus
urlencode [] = []
urlencode ((k, v) ∷ []) = quote_plus k ++ (b'=' ∷ quote_plus v)
urlencode ((k, v) ∷ (item ∷ items)) =
    quote_plus k ++ (b'=' ∷ (quote_plus v ++ (b'&' ∷ urlencode (item ∷ items))))

-- `media_url`
unfoldable pub media_url : Text → String → String → String → String → Bool → Text
unfolding urlencode
media_url websocket_base_url call_id client_id call_sid from_e164 consent =
    websocket_base_url
    ++ (codes "/media/"
        ++ (codes call_id
            ++ (b'?'
                ∷ urlencode (
                    (codes "client_id", codes client_id)
                    ∷ (codes "call_sid", codes call_sid)
                    ∷ (codes "from", codes from_e164)
                    ∷ (codes "consent", if consent then codes "1" else codes "0")
                    ∷ []))))

-- The response of `inbound_voice`.
pub data Voice : Type 0 where
  forbidden reject : Voice
  connect : (twiml : Text) → Voice

-- `except ClientConfigNotFound`, the one `LookupError` of the registry.
unfoldable pub unrouted : Exc → Result (Voice × Option String)
unrouted lookup_error = ok (reject, none)
unrouted e = err e

module _ {F : Type 0} (disk : Disk F) (settings : Settings) (websocket_base_url : Text) where
  -- The call SID that the row of a call gets.
  abbrev pub row_sid : String → String → String
  row_sid uuid call_sid = if is_blank call_sid then "unidentified-" <> uuid else call_sid

  -- The background task that starts the recording
  unfoldable pub recording_task : String → Option String
  recording_task call_sid =
      if not (is_blank call_sid) && settings.twilio_recording_enabled then some call_sid else none

  -- `inbound_voice` after the client is found
  unfoldable pub connect_call :
      String → ClientConfig F → String → String → Store → Result (Voice × Option String) × Store
  unfolding build_connect_twiml media_url recording_task ◌<>◌
  connect_call uuid config call_sid from_number store =
      elim (create_call uuid config.client_id (row_sid uuid call_sid) from_number inbound true none
        store) [
          | err e ↦ (err e, store)
          | ok (call, store') ↦ (
            ok (
              connect (
                  build_connect_twiml
                    (media_url websocket_base_url uuid config.client_id call_sid from_number true)
                    consent_line),
              recording_task call_sid,
            ),
            store',
          )
        ]

  -- `inbound_voice`, `valid` being what `validate_twilio_request` returns
  unfoldable pub inbound_voice :
      Bool
      → String
      → Dict String
      → ClientConfigRegistry F × Store
      → Result (Voice × Option String) × (ClientConfigRegistry F × Store)
  unfolding connect_call form_get unrouted
  inbound_voice valid uuid form (reg, store) =
      if not valid
      then (ok (forbidden, none), (reg, store))
      else (let (found, reg') = resolve_by_number disk (form_get "To" form) reg in
          elim found [
            | err e ↦ (unrouted e, (reg', store))
            | ok config ↦
                let (answer, store') =
                  connect_call uuid config (form_get "CallSid" form) (form_get "From" form) store in
                (answer, (reg', store'))
          ])

abbrev pub param_or : String → Text → Dict Text → Text
param_or name default params = elim (lookup name params) [ none ↦ default | some s ↦ s ]

-- `whisper`, with the query parameters of the request
unfoldable pub whisper : Dict Text → Text
unfolding build_whisper_twiml
whisper params =
    build_whisper_twiml (param_or "from" [] params)
      (param_or "reason" (codes "no reason given") params) (param_or "summary" [] params)
