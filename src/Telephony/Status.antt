-- ===== src/Telephony/Status.antt =====
-- `apps/api/telephony/status_webhook.py`: the callbacks for call status, recordings and inbound SMS.
-- `valid` is what `validate_twilio_request` returns; a form field that is missing is the default.
pub mod Replay
use Prim.Native.String.{◌++◌}
use revenue_recovery_voice_a.Base.{
  ℕ, Bool, true, false, not, ◌&&◌, ◌||◌, List, [], ◌∷◌, Option, none, some, String, str_eq, any,
  Text, codes, FloatOps, is_empty, is_some, Result, ok, err, lookup_error, if◌then◌else◌,
}
use revenue_recovery_voice_a.Resilience.{Exchange, Outside}
use revenue_recovery_voice_a.Store.{
  Store, Call, CallOutcome, abandoned, failed, get_call_by_sid, finish_call, set_recording_url,
  mark_opted_out,
}
use revenue_recovery_voice_a.Config.{ClientConfig}
use revenue_recovery_voice_a.Config.Loader.{ClientConfigRegistry, Disk, resolve_by_number}
use revenue_recovery_voice_a.Telephony.Sms.{Settings, is_blank, is_opt_out, send_sms}

-- The response of a webhook.
pub data Answer : Type 0 where
  invalid_signature empty_twiml : Answer

abbrev pub str_in : String → List String → Bool
str_in s xs = any (str_eq s) xs

-- `TERMINAL_STATUSES`
abbrev pub terminal_statuses : List String
terminal_statuses = "completed" ∷ "busy" ∷ "no-answer" ∷ "canceled" ∷ "failed" ∷ []

-- `missed`
unfoldable pub is_missed : String → Bool
is_missed status = str_in status ("no-answer" ∷ "busy" ∷ "failed" ∷ [])

-- `outcome`
unfoldable pub outcome_of : String → CallOutcome
outcome_of status =
    if str_in status ("no-answer" ∷ "canceled" ∷ "busy" ∷ []) then abandoned else failed

abbrev pub missed_call_body : Text
missed_call_body =
    codes "We missed your call. Reply to this message and our team will call you back."

-- `if call.outcome is None: ...`
unfoldable pub finalise : Call → String → Store → Store
finalise call status store =
    if is_some call.outcome
    then store
    else finish_call call.id (some (outcome_of status)) none none store

module _ (fl : FloatOps) {S : Type 0} (io : Outside fl.F S)
    (post : String → Text → S → Exchange × S) (settings : Settings) where
  -- `call_status`
  unfoldable pub call_status : Bool → String → String → Store × S → Result Answer × (Store × S)
  call_status valid call_sid status (store, world) =
      if not valid
      then (ok invalid_signature, (store, world))
      else if not (str_in status terminal_statuses)
      then (ok empty_twiml, (store, world))
      else elim (get_call_by_sid call_sid store) [
        | none ↦ (ok empty_twiml, (store, world))
        | some call ↦
            let store' = finalise call status store in
            if is_missed status && not (is_blank call.from_e164)
            then (let (sent, after) =
                  send_sms fl io post settings call.from_e164 missed_call_body (some call.client_id)
                    (some ("missed_call:" ++ call_sid)) (store', world) in
                (elim sent [ ok _ ↦ ok empty_twiml | err e ↦ err e ], after))
            else (ok empty_twiml, (store', world))
      ]

-- `recording_status`
unfoldable recording_status : Bool → String → Option String → Text → Store → Answer × Store
recording_status valid call_sid status url store =
    if not valid
    then (invalid_signature, store)
    else if not (elim status [ none ↦ true | some s ↦ str_eq s "completed" ])
    then (empty_twiml, store)
    else if is_empty url
    then (empty_twiml, store)
    else elim (get_call_by_sid call_sid store) [
      | none ↦ (empty_twiml, store)
      | some call ↦ (empty_twiml, (set_recording_url call.id url store).1)
    ]

-- `inbound_sms`; `uuid` is the id of a contact that is new. `LookupError` is `ClientConfigNotFound`.
unfoldable inbound_sms :
    {F : Type 0}
    → Disk F
    → Bool
    → String
    → String
    → Text
    → String
    → ClientConfigRegistry F
    → Store
    → Result Answer × ClientConfigRegistry F × Store
inbound_sms disk valid from_number to_number body uuid registry store =
    if not valid
    then (ok invalid_signature, registry, store)
    else if not (is_opt_out body)
    then (ok empty_twiml, registry, store)
    else let (resolved, fresh) = resolve_by_number disk to_number registry in
      elim resolved [
        | err lookup_error ↦ (ok empty_twiml, fresh, store)
        | err e ↦ (err e, fresh, store)
        | ok config ↦
            (ok empty_twiml, fresh, mark_opted_out uuid config.client_id from_number none store)
      ]
