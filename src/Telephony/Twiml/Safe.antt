-- ===== src/Telephony/Twiml/Safe.antt =====
-- What the documents of `apps/api/telephony/twiml.py` say to an XML reader, and which calls an inbound
-- request leaves in the store.
use revenue_recovery_voice_a.Base.{
  if◌then◌else◌, ◌<>◌, Bool, true, false, ◌||◌, [], ◌∷◌, ◌++◌, Option, none, some, String, str_eq,
  eq_iff, Dict, Text, codes, is_some, Result, ok, Exc, lookup_error, value_error, type_error,
  runtime_error, assertion_error, attribute_error, integrity_error, ◌≡◌, refl, inl, inr, Bool-cases,
  Result-cases, arith,
}
use revenue_recovery_voice_a.Config.{ClientConfig}
use revenue_recovery_voice_a.Config.Loader.{ClientConfigRegistry, Disk, resolve_by_number}
use revenue_recovery_voice_a.Store.{
  Store, Call, inbound, find_call, create_call, get_call, get_call_by_sid,
}
use revenue_recovery_voice_a.Telephony.Sms.{Settings, is_blank}
use revenue_recovery_voice_a.Telephony.Xml.{escape, escape_quotes, quoteattr}
use revenue_recovery_voice_a.Telephony.Xml.Read.{
  has_markup, has_markup-escape_quotes, IsQuoted, quoteattr-IsQuoted,
}
use revenue_recovery_voice_a.Telephony.Xml.Data.{read, all_kept, read-escape_quotes}
use revenue_recovery_voice_a.Telephony.Twiml.Spoken.{
  IsCaller, sentence, speakable-IsCaller, all_kept-speakable, all_kept-sentence,
}
use revenue_recovery_voice_a.Telephony.Twiml.{
  speakable, urlencode, declaration, consent_line, build_connect_twiml, build_whisper_twiml, spoken,
  param_or, whisper, media_url, form_get, Voice, connect, unrouted, row_sid, recording_task,
  connect_call, inbound_voice,
}

-- A document that says these words and nothing else.
pub record IsSpoken (words twiml : Text) : Type 0 where
  pub body : Text
  pub same : twiml ≡ declaration ++ (codes "<Response><Say>" ++ (body ++ codes "</Say></Response>"))
  pub reads : read body ≡ some words
  pub plain : has_markup body ≡ false

-- Where the caller, the reason and the summary of the query have no character that XML forbids and no
-- carriage return, the whisper is one `Say` without markup in it. An XML reader gets from it, character
-- by character: who calls, by the last ten digits of the number with spaces between them, or as an unknown
-- number where it has no digit, the reason, and the summary where it is not empty.
pub whisper-IsSpoken :
    (params : Dict Text)
    → let number = param_or "from" [] params in
      let reason = param_or "reason" (codes "no reason given") params in
      let summary = param_or "summary" [] params in
      all_kept number ≡ true
      → all_kept reason ≡ true
      → all_kept summary ≡ true
      → (caller : Text) × IsCaller number caller
        × IsSpoken (sentence caller reason summary) (whisper params)
unfolding whisper build_whisper_twiml spoken
whisper-IsSpoken params n r s =
    let number = param_or "from" [] params in
    let words =
      sentence (speakable number) (param_or "reason" (codes "no reason given") params)
        (param_or "summary" [] params) in
    (
      speakable number,
      speakable-IsCaller number,
      record {
        body = escape_quotes words;
        same = refl;
        reads = read-escape_quotes words (
            all_kept-sentence (speakable number)
              (param_or "reason" (codes "no reason given") params) (param_or "summary" [] params)
              (all_kept-speakable number n) r s);
        plain = has_markup-escape_quotes words;
      },
    )

-- A document that says the consent line and streams to this address.
pub record StreamsTo (url twiml : Text) : Type 0 where
  pub value : Text
  pub same :
      twiml
      ≡ declaration
        ++ (codes "<Response>"
            ++ ((codes "<Say>" ++ (escape consent_line ++ codes "</Say>"))
                ++ (codes "<Connect><Stream url=" ++ (value ++ codes "/></Connect></Response>"))))
  pub quoted : IsQuoted url value

build_connect_twiml-StreamsTo : (url : Text) → StreamsTo url (build_connect_twiml url consent_line)
unfolding build_connect_twiml
build_connect_twiml-StreamsTo url = record {
  value = quoteattr url;
  same = refl;
  quoted = quoteattr-IsQuoted url;
}

module _ {F : Type 0} (disk : Disk F) (settings : Settings) (websocket_base_url : Text) where
  -- What an answer to an inbound call means for the store.
  abbrev pub Answers :
      String
      → Dict String
      → ClientConfigRegistry F
      → Store
      → Result (Voice × Option String)
      → Store
      → Type 0
  Answers uuid form reg before (ok (connect twiml, task)) after =
      (config : ClientConfig F) × (call : Call) × ((resolve_by_number disk (form_get "To" form)
          reg).0
        ≡ ok config)
      × (get_call uuid after ≡ some call)
      × (after.calls ≡ call ∷ before.calls)
      × (call.client_id ≡ config.client_id)
      × (call.from_e164 ≡ form_get "From" form)
      × (call.consent_captured ≡ true)
      × (call.twilio_call_sid ≡ (
          if is_blank (form_get "CallSid" form)
          then "unidentified-" <> uuid
          else form_get "CallSid" form))
      × StreamsTo
          (websocket_base_url
            ++ (codes "/media/"
                ++ (codes uuid
                    ++ (b'?'
                        ∷ urlencode (
                            (codes "client_id", codes config.client_id)
                            ∷ (codes "call_sid", codes (form_get "CallSid" form))
                            ∷ (codes "from", codes (form_get "From" form))
                            ∷ (codes "consent", codes "1")
                            ∷ [])))))
          twiml
      × (task ≡ (
          if is_blank (form_get "CallSid" form)
          then none
          else if settings.twilio_recording_enabled
          then some (form_get "CallSid" form)
          else none))
  Answers uuid form reg before _ after = after ≡ before

  recording_task-prescribed :
      (sid : String)
      → recording_task disk settings websocket_base_url sid ≡ (
          if is_blank sid
          then none
          else if settings.twilio_recording_enabled
          then some sid
          else none)
  unfolding recording_task
  recording_task-prescribed sid = elim (Bool-cases (is_blank sid)) [
    | inl absent ↦ rw absent refl
    | inr present ↦ rw present refl
  ]

  connect_call-Answers :
      (uuid : String) (form : Dict String) (reg : ClientConfigRegistry F) (config : ClientConfig F)
      (s : Store)
      → (resolve_by_number disk (form_get "To" form) reg).0 ≡ ok config
      → let answer =
          connect_call disk settings websocket_base_url uuid config
            (form_get "CallSid" form)
            (form_get "From" form)
            s in
        Answers uuid form reg s answer.0 answer.1
  unfolding connect_call create_call get_call media_url
  connect_call-Answers uuid form reg config s found =
      elim (Bool-cases (
        is_some (get_call uuid s)
        || is_some (
            get_call_by_sid
              (row_sid disk settings websocket_base_url uuid (form_get "CallSid" form)) s))) [
                | inl taken ↦ rw (taken, connect_call) refl
                | inr free ↦
                    let call : Call = record {
                      id = uuid;
                      client_id = config.client_id;
                      twilio_call_sid =
                          row_sid disk settings websocket_base_url uuid (form_get "CallSid" form);
                      from_e164 = form_get "From" form;
                      direction = inbound;
                      started_at = s.now 0;
                      ended_at = none;
                      outcome = none;
                      cost_cents = 0;
                      recording_url = none;
                      consent_captured = true;
                    } in
                    let stored : find_call (λ c. str_eq c.id uuid) (call ∷ s.calls) ≡ some call =
                      ground (arith, eq_iff uuid uuid) in
                    rw (free, connect_call)
                      (
                        config,
                        call,
                        found,
                        stored,
                        refl,
                        refl,
                        refl,
                        refl,
                        refl,
                        build_connect_twiml-StreamsTo (
                            media_url websocket_base_url uuid config.client_id
                              (form_get "CallSid" form) (form_get "From" form) true),
                        recording_task-prescribed (form_get "CallSid" form),
                      )
              ]

  unrouted-Answers :
      (uuid : String) (form : Dict String) (reg : ClientConfigRegistry F) (s : Store) (e : Exc)
      → Answers uuid form reg s (unrouted e) s
  unfolding unrouted
  unrouted-Answers uuid form reg s lookup_error = refl
  unrouted-Answers uuid form reg s value_error = refl
  unrouted-Answers uuid form reg s type_error = refl
  unrouted-Answers uuid form reg s runtime_error = refl
  unrouted-Answers uuid form reg s assertion_error = refl
  unrouted-Answers uuid form reg s attribute_error = refl
  unrouted-Answers uuid form reg s integrity_error = refl

  -- An inbound call that is connected has exactly one new row in the store: it belongs to the client of the
  -- number called, carries the caller's number, the call SID or else an id made up for it, and the consent
  -- that is announced. The document says the consent line and streams to the address with the row's id,
  -- whose query gives the client, the call SID, the caller and the consent. The recording of that call SID
  -- starts exactly if there is one and recording is enabled. A request that is forbidden, rejected or that raises leaves the store as it was.
  pub inbound_voice-Answers :
      (valid : Bool) (uuid : String) (form : Dict String) (reg : ClientConfigRegistry F) (s : Store)
      → let run = inbound_voice disk settings websocket_base_url valid uuid form (reg, s) in
        Answers uuid form reg s run.0 run.1.1
  unfolding inbound_voice
  inbound_voice-Answers false uuid form reg s = refl
  inbound_voice-Answers true uuid form reg s =
      elim (Result-cases (resolve_by_number disk (form_get "To" form) reg).0) [
        | inr (e, absent) ↦ rw (absent, inbound_voice) (unrouted-Answers uuid form reg s e)
        | inl (config, found) ↦
            rw (found, inbound_voice) (connect_call-Answers uuid form reg config s found)
      ]
