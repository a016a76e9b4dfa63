-- ===== src/Workers/Recording/Consent.antt =====
-- `apps/api/workers/recording.py`: what the worker keeps and what it has deleted.
use revenue_recovery_voice_a.Base.{
  Bool, true, false, ◌||◌, some, String, Text, FloatOps, Result, ok, err, ◌≡◌, refl, ap, ◌∙◌,
  if◌then◌else◌, Bool-cases, inl, inr,
}
use revenue_recovery_voice_a.Resilience.{Exchange, Outside, background, request_with_retry_sync}
use revenue_recovery_voice_a.Store.{Store, Call, get_call}
use revenue_recovery_voice_a.Store.Rows.{find_id-update_calls}
use revenue_recovery_voice_a.Store.Consent.{IsRespected, update_calls-get}
use revenue_recovery_voice_a.Telephony.Sms.{is_blank}
use revenue_recovery_voice_a.Workers.Recording.{delete_remote_recording, store_recording}

abbrev pub is_stored : Result Bool → Bool
is_stored (ok b) = b
is_stored (err e) = false

is_stored-deletion :
    (r : Result Bool)
    → is_stored (elim r as (λ x. Result Bool) [ ok _ ↦ ok false | err e ↦ err e ]) ≡ false
is_stored-deletion (ok b) = refl
is_stored-deletion (err e) = refl

-- The row of a call whose URL is stored, or not.
abbrev pub with_url : Bool → Text → Call → Call
with_url b url call = if b then record call { recording_url = some url } else call

-- Nothing is stored without consent.
abbrev pub IsStoreAfter : Bool → Store → Store → Type 0
IsStoreAfter true before after = Unit
IsStoreAfter false before after = after ≡ before

module _ (fl : FloatOps) {S : Type 0} (io : Outside fl.F S)
    (delete : String → S → Exchange × S) where
  -- For a call that exists, the worker stores the URL in its row exactly if consent was captured, and else
  -- leaves the store as it was; it returns whether it stored the URL, or raises; it asks Twilio to
  -- delete the recording, with the retries of the background policy, exactly if consent is absent and
  -- the recording has an id; and it leaves no recording URL on a call without consent.
  pub store_recording-IsRespected :
      (call_id : String) (url : Text) (recording_sid : String) (store : Store) (world : S)
      {call : Call}
      → IsRespected store
      → get_call call_id store ≡ some call
      → let after = store_recording fl io delete call_id url recording_sid (store, world) in
        (is_stored after.0 ≡ call.consent_captured)
        × (get_call call_id after.1.0 ≡ some (with_url call.consent_captured url call))
        × IsStoreAfter call.consent_captured store after.1.0
        × (after.1.1 ≡ (
            if call.consent_captured || is_blank recording_sid
            then world
            else (request_with_retry_sync fl io (delete recording_sid) background world).1))
        × IsRespected after.1.0
  unfolding store_recording delete_remote_recording get_call
  store_recording-IsRespected call_id url recording_sid store world {call} respected found =
      elim (Bool-cases call.consent_captured) [
        | inl agreed ↦
            rw (found, store_recording)
              (simp (agreed) (
                refl,
                find_id-update_calls call_id (λ c. record c { recording_url = some url })
                      store.calls {call = call} (λ c. refl) found
                    ∙ ap
                        (λ b. some (record call { recording_url = some url; consent_captured = b }))
                        agreed,
                tt,
                refl,
                update_calls-get call_id url store {call = call} found agreed respected,
              ))
        | inr refused ↦ elim (Bool-cases (is_blank recording_sid)) [
          | inl unnamed ↦
              rw (found, store_recording)
                (simp (refused)
                  (rw (unnamed, store_recording) (refl, found, refl, refl, respected)))
          | inr named ↦
              rw (found, store_recording)
                (simp (refused) (
                  rw (named, store_recording) (is_stored-deletion _, found, refl, refl, respected)))
        ]
      ]
