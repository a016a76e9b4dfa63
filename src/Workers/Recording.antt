-- ===== src/Workers/Recording.antt =====
-- `apps/api/workers/recording.py`: the worker that stores a recording, or has it deleted at Twilio when
-- consent is absent. The DELETE is a parameter.
pub mod Consent
use revenue_recovery_voice_a.Base.{
  ℕ, Bool, true, false, not, ◌||◌, Option, none, some, String, Text, FloatOps, Result, ok, err,
  lookup_error, ◌==◌, if◌then◌else◌,
}
use revenue_recovery_voice_a.Resilience.{
  Exchange, Outside, Sent, returned, raised, crashed, background, request_with_retry_sync,
}
use revenue_recovery_voice_a.Store.{Store, Call, get_call, update_calls}
use revenue_recovery_voice_a.Telephony.Sms.{is_blank}

-- The result of the delete: 404 means that the recording is gone already.
unfoldable pub deletion : Sent → Result Bool
deletion (raised e) = ok false
deletion (crashed e) = err e
deletion (returned r) = ok ((r.status_code == 204) || (r.status_code == 404))

module _ (fl : FloatOps) {S : Type 0} (io : Outside fl.F S)
    (delete : String → S → Exchange × S) where
  -- `delete_remote_recording`
  unfoldable pub delete_remote_recording : String → S → Result Bool × S
  delete_remote_recording recording_sid world =
      let (sent, world') = request_with_retry_sync fl io (delete recording_sid) background world in
      (deletion sent, world')

  -- `store_recording`
  unfoldable pub store_recording : String → Text → String → Store × S → Result Bool × (Store × S)
  store_recording call_id url recording_sid (store, world) = elim (get_call call_id store) [
    | none ↦ (err lookup_error, (store, world))
    | some call ↦ elim call.consent_captured [
      | true ↦ (
        ok true,
        (
          record store {
            calls = update_calls call_id (λ c. record c { recording_url = some url }) store.calls;
          },
          world,
        ),
      )
      | false ↦ elim (is_blank recording_sid) [
        | true ↦ (ok false, (store, world))
        | false ↦
            let (deleted, world') = delete_remote_recording recording_sid world in
            (elim deleted [ ok _ ↦ ok false | err e ↦ err e ], (store, world'))
      ]
    ]
  ]
