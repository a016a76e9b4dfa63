-- ===== src/Telephony/Sms/Once.antt =====
-- `apps/api/telephony/sms.py`: who is texted, and how often.
use revenue_recovery_voice_a.Base.{
  ℕ, true, false, ◌||◌, List, Option, none, some, String, Text, Json, FloatOps, Result, ok, err,
  ◌≡◌, refl, arith, leb, Bool-cases, Option-cases, inl, inr,
}
use revenue_recovery_voice_a.Resilience.{
  Exchange, HttpResponse, Outside, Sent, returned, raised, crashed, request_with_retry,
  unsafe_write,
}
use revenue_recovery_voice_a.Store.{
  Store, claim_sms_send, is_suppressed, is_claimed, mark_sms_delivered,
}
use revenue_recovery_voice_a.Store.Writes.{Write, write_all}
use revenue_recovery_voice_a.Store.Keys.{
  claimed_after, is_claimed-deliver_row, write_all-is_claimed,
}
use revenue_recovery_voice_a.Telephony.Sms.{
  Settings, is_blank, truthy, response_sid, receipt, conclude, deliver, send_sms,
}

receipt-is_claimed :
    (client key : String) (send_id : Option ℕ) (sid : Result (Option Json)) (store : Store)
    → is_claimed client key store.sms_sends ≡ true
    → is_claimed client key (receipt send_id sid store).1.sms_sends ≡ true
unfolding receipt mark_sms_delivered
receipt-is_claimed client key send_id (err e) store h = h
receipt-is_claimed client key none (ok sid) store h = h
receipt-is_claimed client key (some i) (ok sid) store h =
    rw (is_claimed-deliver_row client key i sid store.sms_sends) h

conclude-is_claimed :
    (client key : String) (send_id : Option ℕ) (sent : Sent) (store : Store)
    → is_claimed client key store.sms_sends ≡ true
    → is_claimed client key (conclude send_id sent store).1.sms_sends ≡ true
unfolding conclude
conclude-is_claimed client key send_id (raised e) store h = h
conclude-is_claimed client key send_id (crashed e) store h = h
conclude-is_claimed client key send_id (returned r) store h =
    elim (Bool-cases (leb 400 r.status_code)) [
      | inl bad ↦ rw (bad, conclude) h
      | inr good ↦
          rw (good, conclude) (receipt-is_claimed client key send_id (response_sid r) store h)
    ]

conclude-accepted :
    (send_id : Option ℕ) (sent : Sent) (store : Store)
    → (conclude send_id sent store).0 ≡ ok true
    → (r : HttpResponse) × (sent ≡ returned r) × (leb 400 r.status_code ≡ false)
unfolding conclude
conclude-accepted send_id (raised e) store h = ground (arith, h)
conclude-accepted send_id (crashed e) store h = cc (h)
conclude-accepted send_id (returned r) store h = (r, refl, ground (arith, h))

module _ (fl : FloatOps) {S : Type 0} (io : Outside fl.F S)
    (post : String → Text → S → Exchange × S) where
  -- A number that is suppressed for the client is never texted on that client's behalf: `send_sms`
  -- returns False, sends nothing and writes nothing.
  pub suppressed_unsent :
      (settings : Settings) (to client : String) (body : Text) (key : Option String) (store : Store)
      (world : S)
      → is_blank client ≡ false
      → is_suppressed client to store ≡ true
      → send_sms fl io post settings to body (some client) key (store, world)
        ≡ (ok false, (store, world))
  unfolding send_sms
  suppressed_unsent settings to client body key store world named opted_out =
      rw named (rw opted_out (ground arith))

  -- A send that found its key claimed already.
  pub claimed_unsent :
      (settings : Settings) (to client key : String) (body : Text) (store : Store) (world : S)
      → is_blank client ≡ false
      → is_blank key ≡ false
      → is_claimed client key store.sms_sends ≡ true
      → send_sms fl io post settings to body (some client) (some key) (store, world)
        ≡ (ok false, (store, world))
  unfolding send_sms claim_sms_send
  claimed_unsent settings to client key body store world named keyed claimed =
      rw named (rw keyed (rw claimed (ground arith)))

  -- A send that gets as far as the claim.
  first_send :
      (settings : Settings) (to client key : String) (body : Text) (store : Store) (world : S)
      → (is_blank settings.twilio_account_sid || is_blank settings.twilio_messaging_from) ≡ false
      → is_blank client ≡ false
      → is_blank key ≡ false
      → is_suppressed client to store ≡ false
      → is_claimed client key
          (send_sms fl io post settings to body
            (some client)
            (some key)
            (store, world)).1.0.sms_sends
        ≡ true
  unfolding send_sms deliver
  first_send settings to client key body store world configured named keyed reachable =
      rw (configured, send_sms)
        (rw (named, send_sms)
          (rw (reachable, send_sms)
            (rw (keyed, send_sms)
              (elim (Option-cases (claim_sms_send client to key store).0) [
                | inl taken ↦ rw taken (claimed_after client to key store)
                | inr (send_id, granted) ↦ rw granted (
                    conclude-is_claimed client key (some send_id) _
                      (claim_sms_send client to key store).1 (claimed_after client to key store))
              ]))))

  -- The key of a send that was accepted is claimed.
  pub accepted_claims :
      (settings : Settings) (to client key : String) (body : Text) (store : Store) (world : S)
      → is_blank client ≡ false
      → is_blank key ≡ false
      → (send_sms fl io post settings to body (some client) (some key) (store, world)).0 ≡ ok true
      → is_claimed client key
          (send_sms fl io post settings to body
            (some client)
            (some key)
            (store, world)).1.0.sms_sends
        ≡ true
  unfolding send_sms
  accepted_claims settings to client key body store world named keyed h =
      elim (Bool-cases
        (is_blank settings.twilio_account_sid || is_blank settings.twilio_messaging_from)) [
          | inl off ↦ ground (arith, off, h)
          | inr on ↦ elim (Bool-cases (is_suppressed client to store)) [
            | inl barred ↦ ground (arith, on, named, barred, h)
            | inr free ↦ first_send settings to client key body store world on named keyed free
          ]
        ]

  -- Once a configured send of a client to a number that is not suppressed has run with a key, whatever
  -- came of it, every later send of that client with that key returns False, sends nothing and writes
  -- nothing, with whichever settings, number and body, after whatever writes and other traffic.
  pub send_sms_once :
      (redact_pan : Text → Text) (redact_structure : Json → Json) (ws : List Write)
      (settings settings' : Settings) (to to' client key : String) (body body' : Text)
      (store : Store) (world world' : S)
      → (is_blank settings.twilio_account_sid || is_blank settings.twilio_messaging_from) ≡ false
      → is_blank client ≡ false
      → is_blank key ≡ false
      → is_suppressed client to store ≡ false
      → let sent = send_sms fl io post settings to body (some client) (some key) (store, world) in
        let later = write_all redact_pan redact_structure ws sent.1.0 in
        send_sms fl io post settings' to' body' (some client) (some key) (later, world')
        ≡ (ok false, (later, world'))
  send_sms_once pan structure ws settings settings' to to' client key body body' store world world'
        configured named keyed reachable =
      claimed_unsent settings' to' client key body' _ world' named keyed (
        write_all-is_claimed pan structure ws client key _
          (first_send settings to client key body store world configured named keyed reachable))

  deliver-accepted :
      (to : String) (body : Text) (send_id : Option ℕ) (store : Store) (world : S)
      → (deliver fl io post to body send_id (store, world)).0 ≡ ok true
      → (r : HttpResponse) × ((request_with_retry fl io (post to body) unsafe_write world).0
          ≡ returned r)
        × (leb 400 r.status_code ≡ false)
  unfolding deliver
  deliver-accepted to body send_id store world h = conclude-accepted send_id _ store h

  -- `send_sms` returns True only if the provider accepted the message: the request came to a response
  -- with a status below 400.
  send_sms-accepted :
      (settings : Settings) (to : String) (body : Text) (client_id key : Option String)
      (store : Store) (world : S)
      → (send_sms fl io post settings to body client_id key (store, world)).0 ≡ ok true
      → (r : HttpResponse) × ((request_with_retry fl io (post to body) unsafe_write world).0
          ≡ returned r)
        × (leb 400 r.status_code ≡ false)
  unfolding send_sms
  send_sms-accepted settings to body client_id key store world h =
      elim (Bool-cases
        (is_blank settings.twilio_account_sid || is_blank settings.twilio_messaging_from)) [
          | inl off ↦ ground (arith, off, h)
          | inr on ↦ elim (Option-cases (truthy client_id)) [
            | inl anonymous ↦
                deliver-accepted to body none store world (rw anonymous at (rw (on, send_sms) at h))
            | inr (client, named) ↦ elim (Bool-cases (is_suppressed client to store)) [
              | inl barred ↦ ground (arith, on, named, barred, h)
              | inr free ↦ elim (Option-cases (truthy key)) [
                | inl keyless ↦
                    deliver-accepted to body none store world
                      (rw keyless at (rw free at (rw named at (rw (on, send_sms) at h))))
                | inr (k, keyed) ↦ elim (Option-cases (claim_sms_send client to k store).0) [
                  | inl taken ↦ ground (
                    arith,
                    rw taken at (rw keyed at (rw free at (rw named at (rw (on, send_sms) at h)))),
                  )
                  | inr (send_id, granted) ↦
                      deliver-accepted to body (some send_id) (claim_sms_send client to k store).1
                        world
                        (rw granted at
                          (rw keyed at (rw free at (rw named at (rw (on, send_sms) at h)))))
                ]
              ]
            ]
          ]
        ]
