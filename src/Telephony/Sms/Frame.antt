-- ===== src/Telephony/Sms/Frame.antt =====
-- `apps/api/telephony/sms.py`: what a send leaves as it is.
use revenue_recovery_voice_a.Base.{
  ℕ, true, false, ◌||◌, [], Option, none, some, String, Text, FloatOps, Result, ok, err, ◌≡◌, refl,
  Bool-cases, Option-cases, inl, inr, ◌∙◌, Json, leb,
}
use revenue_recovery_voice_a.Resilience.{Exchange, Outside, Sent, returned, raised, crashed}
use revenue_recovery_voice_a.Store.{
  Store, claim_sms_send, is_suppressed, is_claimed, mark_sms_delivered,
}
use revenue_recovery_voice_a.Store.Writes.{write_all}
use revenue_recovery_voice_a.Telephony.Sms.{
  Settings, is_blank, truthy, send_sms, deliver, conclude, receipt, response_sid,
}
use revenue_recovery_voice_a.Telephony.Sms.Once.{suppressed_unsent, send_sms_once}

receipt-calls :
    (send_id : Option ℕ) (sid : Result (Option Json)) (store : Store)
    → (receipt send_id sid store).1.calls ≡ store.calls
unfolding receipt mark_sms_delivered
receipt-calls send_id (err e) store = refl
receipt-calls none (ok sid) store = refl
receipt-calls (some i) (ok sid) store = refl

conclude-calls :
    (send_id : Option ℕ) (sent : Sent) (store : Store)
    → (conclude send_id sent store).1.calls ≡ store.calls
unfolding conclude
conclude-calls send_id (raised e) store = refl
conclude-calls send_id (crashed e) store = refl
conclude-calls send_id (returned r) store = elim (Bool-cases (leb 400 r.status_code)) [
  | inl bad ↦ rw (bad, conclude) refl
  | inr good ↦ rw (good, conclude) (receipt-calls send_id (response_sid r) store)
]

claim_sms_send-calls :
    (client to key : String) (store : Store)
    → (claim_sms_send client to key store).1.calls ≡ store.calls
unfolding claim_sms_send
claim_sms_send-calls client to key store =
    elim (Bool-cases (is_claimed client key store.sms_sends)) [
      | inl b ↦ rw b refl
      | inr b ↦ rw b refl
    ]

module _ (fl : FloatOps) {S : Type 0} (io : Outside fl.F S)
    (post : String → Text → S → Exchange × S) (settings : Settings) where
  deliver-calls :
      (to : String) (body : Text) (send_id : Option ℕ) (store : Store) (world : S)
      → (deliver fl io post to body send_id (store, world)).1.0.calls ≡ store.calls
  unfolding deliver
  deliver-calls to body send_id store world = conclude-calls send_id _ store

  pub send_sms-calls :
      (to : String) (body : Text) (client_id key : Option String) (store : Store) (world : S)
      → (send_sms fl io post settings to body client_id key (store, world)).1.0.calls ≡ store.calls
  unfolding send_sms
  send_sms-calls to body client_id key store world =
      elim (Bool-cases
        (is_blank settings.twilio_account_sid || is_blank settings.twilio_messaging_from)) [
          | inl off ↦ rw (off, send_sms) refl
          | inr on ↦ elim (Option-cases (truthy client_id)) [
            | inl anonymous ↦
                rw (on, send_sms) (rw anonymous (deliver-calls to body none store world))
            | inr (client, named) ↦ elim (Bool-cases (is_suppressed client to store)) [
              | inl barred ↦ rw (on, send_sms) (rw named (rw barred refl))
              | inr free ↦ elim (Option-cases (truthy key)) [
                | inl keyless ↦
                    rw (on, send_sms)
                      (rw named (rw free (rw keyless (deliver-calls to body none store world))))
                | inr (k, keyed) ↦ elim (Option-cases (claim_sms_send client to k store).0) [
                  | inl taken ↦
                      rw (on, send_sms)
                        (rw named
                          (rw free (rw keyed (rw taken (claim_sms_send-calls client to k store)))))
                  | inr (send_id, granted) ↦
                      rw (on, send_sms)
                        (rw named (
                          rw free (
                            rw keyed (
                              rw granted (
                                deliver-calls to body (some send_id)
                                  (claim_sms_send client to k store).1 world
                                ∙ claim_sms_send-calls client to k store)))))
                ]
              ]
            ]
          ]
        ]

  unconfigured :
      (to : String) (body : Text) (client_id key : Option String) (store : Store) (world : S)
      → (is_blank settings.twilio_account_sid || is_blank settings.twilio_messaging_from) ≡ true
      → send_sms fl io post settings to body client_id key (store, world)
        ≡ (ok false, (store, world))
  unfolding send_sms
  unconfigured to body client_id key store world off = rw (off, send_sms) refl

  pub send_twice :
      (to client key : String) (body : Text) (store : Store) (world : S)
      → is_blank client ≡ false
      → is_blank key ≡ false
      → let after =
          (send_sms fl io post settings to body (some client) (some key) (store, world)).1 in
        send_sms fl io post settings to body (some client) (some key) after ≡ (ok false, after)
  unfolding write_all
  send_twice to client key body store world named keyed =
      elim (Bool-cases
        (is_blank settings.twilio_account_sid || is_blank settings.twilio_messaging_from)) [
          | inl off ↦
              rw (unconfigured to body (some client) (some key) store world off)
                (unconfigured to body (some client) (some key) store world off)
          | inr on ↦ elim (Bool-cases (is_suppressed client to store)) [
            | inl barred ↦
                rw
                  (suppressed_unsent fl io post settings to client body (some key) store world named
                    barred)
                  (suppressed_unsent fl io post settings to client body (some key) store world named
                    barred)
            | inr free ↦
                send_sms_once fl io post (λ t. t) (λ j. j) [] settings settings to to client key
                  body body store world
                  (send_sms fl io post settings to body (some client) (some key) (store, world)).1.1
                  on named keyed free
          ]
        ]
