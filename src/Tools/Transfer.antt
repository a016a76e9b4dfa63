-- ===== src/Tools/Transfer.antt =====
-- `apps/api/tools/transfer.py`: the warm transfer to a person. The client that posts the new TwiML onto
-- a call acts on the outside `S`.
pub mod Warm
use revenue_recovery_voice_a.Base.{
  ℕ, Bool, true, false, List, [], ◌∷◌, ◌++◌, Option, none, some, String, Text, codes, is_empty,
  drop_while, ◌==◌, FloatOps, Result, ok, err, Json, str, bool, obj, end, field, leb, if◌then◌else◌,
}
use mathlib.Core.List.{reverse}
use revenue_recovery_voice_a.Config.{ClientConfig}
use revenue_recovery_voice_a.Domain.State.{ToolStatus}
use revenue_recovery_voice_a.Media.Realtime.{lit}
use revenue_recovery_voice_a.Resilience.{
  Exchange, Outside, Sent, returned, raised, crashed, unsafe_write, request_with_retry,
}
use revenue_recovery_voice_a.Telephony.Sms.{is_blank}
use revenue_recovery_voice_a.Telephony.Twiml.{declaration, urlencode}
use revenue_recovery_voice_a.Telephony.Xml.{escape, escape_quotes}
use revenue_recovery_voice_a.Tools.PaymentTexts.{mask_e164}
use revenue_recovery_voice_a.Tools.Registry.{ToolResult, ok_result, failure}

-- `NO_TARGET_HINT`
abbrev no_target_hint : Text
no_target_hint =
    codes
      "There is no transfer number configured for this business. Apologise, take the caller's name and number, and promise a callback within fifteen minutes."

-- `FAILED_HINT`
abbrev failed_hint : Text
failed_hint =
    codes
      "The transfer did not connect. Apologise, take the caller's name and number, and promise a callback within fifteen minutes. Do not say they are being transferred."

-- `s.rstrip("/")`
unfoldable pub strip_slashes : Text → Text
strip_slashes s = reverse (drop_while (λ c. c == b'/') (reverse s))

-- `whisper_url`
unfoldable pub whisper_url : Text → Text → Text → Text → Text
unfolding strip_slashes
whisper_url base_url from_e164 reason summary =
    strip_slashes base_url
    ++ (codes "/telephony/whisper?"
        ++ urlencode (
            (codes "from", from_e164) ∷ (codes "reason", reason) ∷ (codes "summary", summary) ∷ []))

-- `dial_attrs`
unfoldable pub dial_attrs : Option Text → Text
unfolding escape_quotes
dial_attrs none = codes "timeout=\"25\""
dial_attrs (some caller_id) =
    if is_empty caller_id
    then codes "timeout=\"25\""
    else codes "timeout=\"25\" callerId=" ++ (b'"' ∷ (escape_quotes caller_id ++ (b'"' ∷ [])))

-- `build_transfer_twiml`
unfoldable pub build_transfer_twiml : Text → Text → Option Text → Text
unfolding dial_attrs escape escape_quotes
build_transfer_twiml target whisper caller_id =
    declaration
    ++ (codes "<Response><Dial "
        ++ (dial_attrs caller_id
            ++ (codes "><Number url="
                ++ ((b'"' ∷ (escape_quotes whisper ++ (b'"' ∷ [])))
                    ++ (b'>' ∷ (escape target ++ codes "</Number></Dial></Response>"))))))

-- `{"reason": …}`
abbrev reason_of : String → Option Json
reason_of s = some (obj (field (codes "reason") (lit s) end))

-- What `redirect_call` makes of the answer.
unfoldable pub is_accepted : Sent → Result Bool
is_accepted (raised e) = ok false
is_accepted (crashed e) = err e
is_accepted (returned r) = ok (if leb 400 r.status_code then false else true)

module _ (fl : FloatOps) {S : Type 0} (io : Outside fl.F S)
    (client : String → Text → S → Exchange × S) (public_base_url : Text) where
  -- `redirect_call`
  unfoldable pub redirect_call : String → Text → S → Result Bool × S
  unfolding is_accepted
  redirect_call call_sid twiml world =
      let (sent, world') = request_with_retry fl io (client call_sid twiml) unsafe_write world in
      (is_accepted sent, world')

  -- `transfer_to_human` after the redirect
  unfoldable pub transferred : Text → Text → Result Bool → Result ToolResult
  unfolding failure ok_result
  transferred target reason (err e) = err e
  transferred target reason (ok false) =
      failure ToolStatus.unavailable failed_hint (reason_of "twilio rejected the redirect")
  transferred target reason (ok true) = ok (
      ok_result (
        some (
          obj (
            field (codes "target") (str (mask_e164 target))
              (field (codes "reason") (str reason) (field (codes "warm") (bool true) end))))))

  -- The redirect of `transfer_to_human`
  unfoldable pub redirect :
      ClientConfig fl.F → Text → String → Text → Text → Text → S → Result ToolResult × S
  unfolding redirect_call transferred build_transfer_twiml whisper_url
  redirect config target call_sid from_e164 reason summary world =
      let twiml =
        build_transfer_twiml target (whisper_url public_base_url from_e164 reason summary)
          (some (codes config.phone_number)) in
      let (accepted, world') = redirect_call call_sid twiml world in
      (transferred target reason accepted, world')

  -- `transfer_to_human`
  unfoldable pub transfer_to_human :
      ClientConfig fl.F → String → Text → Text → Text → S → Result ToolResult × S
  unfolding redirect failure
  transfer_to_human config call_sid from_e164 reason summary world =
      elim config.escalation.target_number [
        | none ↦ (
          failure ToolStatus.unavailable no_target_hint (reason_of "no target_number configured"),
          world,
        )
        | some target ↦
            let redirected = redirect config target call_sid from_e164 reason summary world in
            if is_empty target
            then (
              failure ToolStatus.unavailable no_target_hint
                  (reason_of "no target_number configured"),
              world,
            )
            else if is_blank call_sid
            then (
              failure ToolStatus.unavailable failed_hint (reason_of "no call_sid in context"),
              world,
            )
            else redirected
      ]
