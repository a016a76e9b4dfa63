-- ===== src/Tools/Transfer/Warm.antt =====
-- `apps/api/tools/transfer.py`: what a transfer posts, and how it ends.
use revenue_recovery_voice_a.Base.{
  [], ◌∷◌, ◌++◌, ◌||◌, Bool, true, false, Option, none, some, String, Text, codes, is_empty,
  FloatOps, Result, ok, err, ◌≡◌, refl, ◌∙◌, ltb, arith, inl, inr, Bool-cases, Option-cases,
  if◌then◌else◌,
}
use revenue_recovery_voice_a.Config.{ClientConfig}
use revenue_recovery_voice_a.Domain.State.{is_ok}
use revenue_recovery_voice_a.Resilience.{
  Exchange, Outside, Sent, returned, raised, crashed, unsafe_write, request_with_retry,
}
use revenue_recovery_voice_a.Telephony.Sms.{is_blank}
use revenue_recovery_voice_a.Telephony.Twiml.{declaration, urlencode}
use revenue_recovery_voice_a.Telephony.Xml.{escape, escape_quotes}
use revenue_recovery_voice_a.Telephony.Xml.Read.{
  IsQuoted, IsEscaped, escape_quotes-IsQuoted, escape-IsEscaped,
}
use revenue_recovery_voice_a.Tools.Registry.{ToolResult, ok_result, failure}
use revenue_recovery_voice_a.Tools.Transfer.{
  is_accepted, redirect_call, transferred, redirect, transfer_to_human, build_transfer_twiml,
  whisper_url, dial_attrs, strip_slashes,
}

-- The attribute with the caller's id, where there is one.
abbrev IsCallerId : Bool → Text → Text → Type 0
IsCallerId true caller_id written = written ≡ []
IsCallerId false caller_id written =
    (value : Text) × (written ≡ codes " callerId=" ++ value) × IsQuoted caller_id value

-- A document that dials this number with this address for the whisper.
pub record Transfers (target url caller_id twiml : Text) : Type 0 where
  pub written : Text
  pub value : Text
  pub number : Text
  pub same :
      twiml
      ≡ declaration
        ++ (codes "<Response><Dial timeout=\"25\""
            ++ (written
                ++ (codes "><Number url="
                    ++ (value ++ (b'>' ∷ (number ++ codes "</Number></Dial></Response>"))))))
  pub caller : IsCallerId (is_empty caller_id) caller_id written
  pub whispers : IsQuoted url value
  pub dials : IsEscaped target number

build_transfer_twiml-Transfers :
    (target url caller_id : Text)
    → Transfers target url caller_id (build_transfer_twiml target url (some caller_id))
unfolding build_transfer_twiml dial_attrs
build_transfer_twiml-Transfers target url [] = record {
  written = [];
  value = b'"' ∷ (escape_quotes url ++ (b'"' ∷ []));
  number = escape target;
  same = refl;
  caller = refl;
  whispers = escape_quotes-IsQuoted url;
  dials = escape-IsEscaped target;
}
build_transfer_twiml-Transfers target url (c ∷ s) = record {
  written = codes " callerId=" ++ (b'"' ∷ (escape_quotes (c ∷ s) ++ (b'"' ∷ [])));
  value = b'"' ∷ (escape_quotes url ++ (b'"' ∷ []));
  number = escape target;
  same = refl;
  caller = (b'"' ∷ (escape_quotes (c ∷ s) ++ (b'"' ∷ [])), refl, escape_quotes-IsQuoted (c ∷ s));
  whispers = escape_quotes-IsQuoted url;
  dials = escape-IsEscaped target;
}

module _ (fl : FloatOps) {S : Type 0} (io : Outside fl.F S)
    (client : String → Text → S → Exchange × S) (public_base_url : Text) where
  -- The redirect that a transfer posts: none without a target number or a call SID.
  abbrev IsPosted : Bool → ClientConfig fl.F → Text → Text → Text → Text → Option Text → Type 0
  IsPosted true config target from_e164 reason summary posted = posted ≡ none
  IsPosted false config target from_e164 reason summary posted =
      (twiml : Text) × (posted ≡ some twiml)
      × Transfers target
          (strip_slashes public_base_url
            ++ (codes "/telephony/whisper?"
                ++ urlencode (
                    (codes "from", from_e164)
                    ∷ (codes "reason", reason)
                    ∷ (codes "summary", summary)
                    ∷ [])))
          (codes config.phone_number) twiml

  abbrev pub IsRedirection :
      Option Text → ClientConfig fl.F → String → Text → Text → Text → Option Text → Type 0
  IsRedirection none config call_sid from_e164 reason summary posted = posted ≡ none
  IsRedirection (some target) config call_sid from_e164 reason summary posted =
      IsPosted (is_empty target || is_blank call_sid) config target from_e164 reason summary posted

  -- The redirect that a transfer makes, if it makes one.
  abbrev pub redirection : ClientConfig fl.F → String → Text → Text → Text → Option Text
  redirection config call_sid from_e164 reason summary = elim config.escalation.target_number [
    | none ↦ none
    | some target ↦
        if is_empty target
        then none
        else if is_blank call_sid
        then none
        else some (
            build_transfer_twiml target (whisper_url public_base_url from_e164 reason summary)
              (some (codes config.phone_number)))
  ]

  -- Whether a tool's answer is a success.
  abbrev pub succeeded : Result ToolResult → Result Bool
  succeeded (err e) = err e
  succeeded (ok r) = ok (is_ok r.status)

  -- A transfer that Twilio answers with a status below 400 is one that it accepted; an error of HTTP is a
  -- refusal, and another exception goes on.
  abbrev pub accepted : Sent → Result Bool
  accepted (returned r) = ok (ltb r.status_code 400)
  accepted (raised e) = ok false
  accepted (crashed e) = err e

  -- How a transfer ends, from the one POST that it makes.
  abbrev pub outcome : String → Option Text → S → Result Bool × S
  outcome call_sid none world = (ok false, world)
  outcome call_sid (some twiml) world =
      let (sent, world') = request_with_retry fl io (client call_sid twiml) unsafe_write world in
      (accepted sent, world')

  is_accepted-accepted : (sent : Sent) → is_accepted sent ≡ accepted sent
  unfolding is_accepted
  is_accepted-accepted (returned r) = ground arith
  is_accepted-accepted (raised e) = refl
  is_accepted-accepted (crashed e) = refl

  transferred-succeeded :
      (target reason : Text) (r : Result Bool)
      → succeeded (transferred fl io client public_base_url target reason r) ≡ r
  unfolding transferred failure ok_result
  transferred-succeeded target reason (err e) = refl
  transferred-succeeded target reason (ok true) = refl
  transferred-succeeded target reason (ok false) = refl

  redirection-IsRedirection :
      (config : ClientConfig fl.F) (call_sid : String) (from_e164 reason summary : Text)
      → IsRedirection config.escalation.target_number config call_sid from_e164 reason summary
          (redirection config call_sid from_e164 reason summary)
  unfolding whisper_url
  redirection-IsRedirection config call_sid from_e164 reason summary =
      elim (Option-cases config.escalation.target_number) [
        | inl absent ↦ rw absent refl
        | inr (target, given) ↦ rw given (elim (Bool-cases (is_empty target)) [
          | inl empty ↦ rw empty refl
          | inr number ↦ rw number (elim (Bool-cases (is_blank call_sid)) [
            | inl blank ↦ rw blank refl
            | inr sid ↦
                rw sid
                  (_, refl, build_transfer_twiml-Transfers target _ (codes config.phone_number))
          ])
        ])
      ]

  transfer_to_human-ends :
      (config : ClientConfig fl.F) (call_sid : String) (from_e164 reason summary : Text) (w : S)
      → let run =
          transfer_to_human fl io client public_base_url config call_sid from_e164 reason summary
            w in
        let expected = outcome call_sid (redirection config call_sid from_e164 reason summary) w in
        (succeeded run.0 ≡ expected.0) × (run.1 ≡ expected.1)
  unfolding transfer_to_human redirect redirect_call failure
  transfer_to_human-ends config call_sid from_e164 reason summary w =
      elim (Option-cases config.escalation.target_number) [
        | inl absent ↦ rw (absent, transfer_to_human) (refl, refl)
        | inr (target, given) ↦
            rw (given, transfer_to_human)
              (elim (Bool-cases (is_empty target)) [
                | inl empty ↦ rw empty (refl, refl)
                | inr number ↦ rw number (elim (Bool-cases (is_blank call_sid)) [
                  | inl blank ↦ rw blank (refl, refl)
                  | inr sid ↦
                      rw sid (transferred-succeeded target reason _ ∙ is_accepted-accepted _, refl)
                ])
              ])
      ]

  -- `transfer_to_human` posts at most one document, and nothing without a target number or a call SID. The
  -- document dials the target number with the client's number as the caller, and its whisper has the
  -- caller, the reason and the summary in its query. The tool succeeds exactly if Twilio answers the post,
  -- after the retries of an unsafe write, with a status below 400: where nothing is posted, where an error
  -- of HTTP is raised and on another status it fails, and any other exception it raises.
  pub transfer_to_human-succeeded :
      (config : ClientConfig fl.F) (call_sid : String) (from_e164 reason summary : Text) (w : S)
      → let run =
          transfer_to_human fl io client public_base_url config call_sid from_e164 reason summary
            w in
        (posted : Option Text) × IsRedirection config.escalation.target_number config call_sid
          from_e164 reason summary posted
        × (succeeded run.0 ≡ (outcome call_sid posted w).0)
        × (run.1 ≡ (outcome call_sid posted w).1)
  transfer_to_human-succeeded config call_sid from_e164 reason summary w =
      let (ended, left) = transfer_to_human-ends config call_sid from_e164 reason summary w in
      (
        redirection config call_sid from_e164 reason summary,
        redirection-IsRedirection config call_sid from_e164 reason summary,
        ended,
        left,
      )
