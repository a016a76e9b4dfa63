-- ===== src/Examples/Messages.antt =====
-- Runs about messages: the store, the SMS, the status callback and the retries.
use revenue_recovery_voice_a.Base.{
  ℕ, ◌+◌, ◌||◌, if◌then◌else◌, String, ◌≤◌, ◌≡◌, refl, sym, ap, Bool, true, false, List, [], ◌∷◌,
  Option, none, some, codes, pos, ok, length, All, negsuc,
}
use revenue_recovery_voice_a.Base.Fixed.{fixed, scale}
use revenue_recovery_voice_a.Resilience.{
  Exchange, response, sent_of, min_float, request_with_retry, request_with_retry_sync, in_call,
  background,
}
use revenue_recovery_voice_a.Resilience.Traces.{request_with_retry-answers, is_retried, Sends}
use revenue_recovery_voice_a.Resilience.Bounds.{UnitDraws}
use revenue_recovery_voice_a.Store.{
  get_call, Store, Call, claim_sms_send, is_suppressed, opt_out_of, mark_opted_out, booked,
  get_call_by_sid,
}
use revenue_recovery_voice_a.Store.Writes.{
  Write, write_all, finished, recorded, claimed, delivered, contacted,
}
use revenue_recovery_voice_a.Store.Keys.{claim_once, opt_out_stays}
use revenue_recovery_voice_a.Store.Consent.{IsRespected, write_all-IsRespected}
use revenue_recovery_voice_a.Telephony.Sms.{send_sms, is_blank}
use revenue_recovery_voice_a.Telephony.Sms.Once.{send_sms_once}
use revenue_recovery_voice_a.Telephony.Status.{call_status}
use revenue_recovery_voice_a.Telephony.Status.Replay.{call_status_replay}
use revenue_recovery_voice_a.Workers.Recording.{store_recording}
use revenue_recovery_voice_a.Workers.Recording.Consent.{
  with_url, IsStoreAfter, is_stored, store_recording-IsRespected,
}
use revenue_recovery_voice_a.Examples.Data.{call_row, F, outside, post, send_busy, store, settings}

abbrev blank_client : Option Call → Bool
blank_client none = false
blank_client (some c) = is_blank c.client_id

call_status_replay_example :
    let once = (call_status fixed outside post settings true "CA1" "no-answer" (store, 0)).1 in
    (call_status fixed outside post settings true "CA1" "no-answer" once).1 ≡ once
unfolding get_call_by_sid
call_status_replay_example =
    call_status_replay fixed outside post settings true "CA1" "no-answer" store 0 (refl, tt)
      (λ call found. sym (ap blank_client found))

abbrev writes : List Write
writes =
    finished "c1" (some booked) none none
    ∷ claimed "acme" "+15550198" "other"
    ∷ delivered 1 none
    ∷ recorded "c1" (codes "https://r")
    ∷ []

send_sms_once_example :
    let sent =
      send_sms fixed outside post settings "+15550199"
        (codes "hello")
        (some "acme")
        (some "k")
        (store, 0) in
    let later = write_all (λ t. t) (λ j. j) writes sent.1.0 in
    send_sms fixed outside post settings "+15550198"
      (codes "again")
      (some "acme")
      (some "k")
      (later, 5)
    ≡ (ok false, (later, 5))
unfolding is_suppressed opt_out_of
send_sms_once_example =
    send_sms_once fixed outside post (λ t. t) (λ j. j) writes settings settings "+15550199"
      "+15550198" "acme" "k" (codes "hello") (codes "again") store 0 5 refl refl refl refl

claim_once_example :
    let later =
      write_all (λ t. t) (λ j. j) writes (claim_sms_send "acme" "+15550199" "k" store).1 in
    claim_sms_send "acme" "+15550198" "k" later ≡ (none, later)
claim_once_example = claim_once (λ t. t) (λ j. j) writes "acme" "+15550199" "+15550198" "k" store

abbrev stopped : Store
stopped = mark_opted_out "u1" "acme" "+15550199" none store

opt_out_stays_example :
    is_suppressed "acme" "+15550199" (
      write_all
        (λ t. t)
        (λ j. j)
        (contacted "u2" "acme" "+15550199" (some (codes "Ann")) none ∷ [])
        (mark_opted_out "u1" "acme" "+15550199" none store))
    ≡ true
opt_out_stays_example =
    opt_out_stays (λ t. t) (λ j. j)
      (contacted "u2" "acme" "+15550199" (some (codes "Ann")) none ∷ []) "u1" "acme" "+15550199"
      none store

write_all-IsRespected_example : IsRespected (write_all (λ t. t) (λ j. j) writes store)
write_all-IsRespected_example = write_all-IsRespected (λ t. t) (λ j. j) writes store (refl, tt)

request_with_retry-answers_example :
    (resent : List Exchange) × (last : Exchange) × ((request_with_retry fixed outside send_busy
        in_call 0).0
      ≡ sent_of last)
    × (length resent ≤ 1)
    × All (λ y. is_retried in_call y ≡ true) resent
    × Sends fixed outside send_busy in_call 1 0 resent last
        (request_with_retry fixed outside send_busy in_call 0).1
request_with_retry-answers_example =
    request_with_retry-answers fixed outside send_busy in_call 1 0 refl

abbrev wait : F
wait =
    min_float fixed outside (fixed.mul (fixed.of_int (negsuc 4)) (fixed.of_int (pos 1000)))
      (fixed.of_int (pos 4000))

draws : UnitDraws fixed outside
unfolding scale
draws = record { low = λ w. refl; high = λ w. refl }

abbrev delete : String → ℕ → Exchange × ℕ
delete recording_sid w =
    (response (record { status_code = 404; retry_after = none; json = none }), w + 1)

store_recording-IsRespected_example :
    let after = store_recording fixed outside delete "c1" (codes "https://r") "RE1" (store, 0) in
    (is_stored after.0 ≡ false)
    × (get_call "c1" after.1.0 ≡ some (with_url false (codes "https://r") call_row))
    × IsStoreAfter false store after.1.0
    × (after.1.1 ≡ (
        if false || is_blank "RE1"
        then 0
        else (request_with_retry_sync fixed outside (delete "RE1") background 0).1))
    × IsRespected after.1.0
unfolding get_call
store_recording-IsRespected_example =
    store_recording-IsRespected fixed outside delete "c1" (codes "https://r") "RE1" store 0
      {call = call_row} (refl, tt) refl
