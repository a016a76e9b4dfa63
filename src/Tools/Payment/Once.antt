-- ===== src/Tools/Payment/Once.antt =====
-- `apps/api/tools/payment.py`: how often a payment link is texted.
use revenue_recovery_voice_a.Base.{
  str_int, ◌<>◌, Bool, true, false, ◌&&◌, List, Option, none, some, String, Text, Json, ℤ, pos,
  leb_ℤ, FloatOps, Result, ok, err, ◌≡◌, ◌≢◌, refl, Bool-cases, inl, inr, ◌⊎◌,
}
use revenue_recovery_voice_a.Config.{ClientConfig}
use revenue_recovery_voice_a.Resilience.{Exchange, Outside}
use revenue_recovery_voice_a.Store.{Store}
use revenue_recovery_voice_a.Store.Writes.{Write, write_all}
use revenue_recovery_voice_a.Store.Keys.{write_all-is_claimed}
use revenue_recovery_voice_a.Telephony.Sms.{Settings, is_blank, sms_sender_for}
use revenue_recovery_voice_a.Telephony.Sms.Once.{claimed_unsent, accepted_claims}
use revenue_recovery_voice_a.Tools.Payment.{
  StripeSettings, LinkForm, LinkReply, link, link_error, link_crash, Receipt, paid, PaymentCall,
  payment_body, payment_result, cents, create_payment_link, text_link, send_payment_link,
}
use revenue_recovery_voice_a.Tools.PaymentTexts.{payment_key}

-- A call with an id has a key for its payment.
payment_key-some :
    (call_id : String) (amount_cents : ℤ)
    → is_blank call_id ≡ false
    → (key : String) × (payment_key call_id amount_cents ≡ some key) × (is_blank key ≡ false)
unfolding payment_key ◌<>◌
payment_key-some call_id amount_cents named =
    ("payment_link:" <> (call_id <> (":" <> str_int amount_cents)), rw named refl, refl)

module _ (fl : FloatOps) {S : Type 0} (io : Outside fl.F S) (to_str : Json → Text)
    (post_link : String → LinkForm → String → S → Exchange × S) (uuid : S → String) where
  open fl use {F}

  module _ (sender : String → Text → Option String → Store × S → Result Bool × (Store × S)) where
    result-paid :
        (call : PaymentCall F) (amount_cents : ℤ) (delivered : Result Bool) {receipt : Receipt F}
        → payment_result fl io to_str post_link uuid sender call amount_cents delivered
          ≡ paid receipt
        → delivered ≡ ok true
    unfolding payment_result
    result-paid call amount_cents (err e) h = cc (h)
    result-paid call amount_cents (ok false) h = cc (h)
    result-paid call amount_cents (ok true) h = refl

    -- A link that was paid for was texted.
    text_link-paid :
        (config : ClientConfig F) (call : PaymentCall F) (amount_cents : ℤ) (reply : LinkReply)
        (w : Store × S) {receipt : Receipt F}
        → (text_link fl io to_str post_link uuid sender config call amount_cents reply w).0
          ≡ paid receipt
        → (body : Text) × ((sender call.from_e164 body (payment_key call.call_id amount_cents) w).0
            ≡ ok true)
          × ((text_link fl io to_str post_link uuid sender config call amount_cents reply w).1
              ≡ (sender call.from_e164 body (payment_key call.call_id amount_cents) w).1)
    unfolding text_link
    text_link-paid config call amount_cents (link_error e) w h = cc (h)
    text_link-paid config call amount_cents (link_crash e) w h = cc (h)
    text_link-paid config call amount_cents (link none) w h = cc (h)
    text_link-paid config call amount_cents (link (some url)) w h = (
      payment_body fl io to_str post_link uuid config call.description url,
      result-paid call amount_cents _ h,
      refl,
    )

    -- A sender that refuses the key.
    text_link-unsent :
        (config : ClientConfig F) (call : PaymentCall F) (amount_cents : ℤ) (reply : LinkReply)
        (w : Store × S)
        → ((to : String) (body : Text)
            → sender to body (payment_key call.call_id amount_cents) w ≡ (ok false, w))
        → ((receipt : Receipt F)
            → (text_link fl io to_str post_link uuid sender config call amount_cents reply w).0
              ≢ paid receipt)
          × ((text_link fl io to_str post_link uuid sender config call amount_cents reply w).1 ≡ w)
    unfolding text_link payment_result
    text_link-unsent config call amount_cents (link_error e) w refuses = (λ receipt h. cc (h), refl)
    text_link-unsent config call amount_cents (link_crash e) w refuses = (λ receipt h. cc (h), refl)
    text_link-unsent config call amount_cents (link none) w refuses = (λ receipt h. cc (h), refl)
    text_link-unsent config call amount_cents (link (some url)) w refuses =
        let refused_now =
          refuses call.from_e164
            (payment_body fl io to_str post_link uuid config call.description url) in
        (λ receipt h. cc (rw refused_now at h), rw refused_now refl)

    -- The link was texted from the state that the request for it left.
    send_payment_link-paid :
        (stripe : StripeSettings) (config : ClientConfig F) (call : PaymentCall F) (store : Store)
        (world : S) {receipt : Receipt F}
        → (send_payment_link fl io to_str post_link uuid sender stripe config call (store, world)).0
          ≡ paid receipt
        → let amount = cents fl io to_str post_link uuid config call.amount_usd in
          (world1 : S) × (body : Text) × ((sender call.from_e164 body
              (payment_key call.call_id amount)
              (store, world1)).0
            ≡ ok true)
          × ((send_payment_link fl io to_str post_link uuid sender stripe config call
                (store, world)).1
              ≡ (sender call.from_e164 body (payment_key call.call_id amount) (store, world1)).1)
    unfolding send_payment_link
    send_payment_link-paid stripe config call store world h =
        elim (Bool-cases (is_blank call.from_e164)) [
          | inl blank ↦ cc (rw (blank, send_payment_link) at h)
          | inr numbered ↦
              let amount = cents fl io to_str post_link uuid config call.amount_usd in
              elim (Bool-cases (leb_ℤ amount (pos 0) && is_blank stripe.stripe_price_id)) [
                | inl free ↦ cc (rw free at (rw (numbered, send_payment_link) at h))
                | inr priced ↦
                    let texted =
                      text_link-paid config call amount _ _
                        (rw priced at (rw (numbered, send_payment_link) at h)) in
                    (_, texted.0, texted.1, rw numbered (rw priced texted.2))
              ]
        ]

    send_payment_link-unsent :
        (stripe : StripeSettings) (config : ClientConfig F) (call : PaymentCall F) (store : Store)
        (world : S)
        → let amount = cents fl io to_str post_link uuid config call.amount_usd in
          ((to : String) (body : Text) (world1 : S)
            → sender to body (payment_key call.call_id amount) (store, world1)
              ≡ (ok false, (store, world1)))
          → let again =
              send_payment_link fl io to_str post_link uuid sender stripe config call
                (store, world) in
            let requested =
              create_payment_link fl io to_str post_link uuid stripe amount call.description
                (payment_key call.call_id amount)
                world in
            ((receipt : Receipt F) → again.0 ≢ paid receipt)
            × ((again.1 ≡ (store, world)) ⊎ (again.1 ≡ (store, requested.1)))
    unfolding send_payment_link
    send_payment_link-unsent stripe config call store world refuses =
        elim (Bool-cases (is_blank call.from_e164)) [
          | inl blank ↦ rw (blank, send_payment_link) (λ receipt h. cc (h), inl refl)
          | inr numbered ↦
              let amount = cents fl io to_str post_link uuid config call.amount_usd in
              elim (Bool-cases (leb_ℤ amount (pos 0) && is_blank stripe.stripe_price_id)) [
                | inl free ↦
                    rw (numbered, send_payment_link) (rw free (λ receipt h. cc (h), inl refl))
                | inr priced ↦
                    let unsent =
                      text_link-unsent config call amount
                        (create_payment_link fl io to_str post_link uuid stripe amount
                          call.description (payment_key call.call_id amount) world).0
                        (
                          store,
                          (create_payment_link fl io to_str post_link uuid stripe amount
                              call.description (payment_key call.call_id amount) world).1,
                        )
                        (λ to body. refuses to body _) in
                    rw (numbered, send_payment_link) (rw priced (unsent.0, inr unsent.1))
              ]
        ]

  module _ (io_post : String → Text → S → Exchange × S) where
    -- Once a payment link was sent in a call that has an id, for a client that has one, no later try
    -- in that call with the same amount texts anything or reports a link as sent, with whichever
    -- settings, number and description, after whatever writes and other traffic: it writes nothing
    -- and at most requests the link again, under the same idempotency key.
    pub send_payment_link_once :
        (redact_pan : Text → Text) (redact_structure : Json → Json) (ws : List Write)
        (stripe stripe' : StripeSettings) (settings settings' : Settings) (config : ClientConfig F)
        (call : PaymentCall F) (to : String) (description : Text) (receipt : Receipt F)
        (store : Store) (world world' : S)
        → is_blank config.client_id ≡ false
        → is_blank call.call_id ≡ false
        → let first =
            send_payment_link fl io to_str post_link uuid
              (sms_sender_for fl io io_post settings config.client_id)
              stripe
              config
              call
              (store, world) in
          first.0 ≡ paid receipt
          → let later = write_all redact_pan redact_structure ws first.1.0 in
            let again =
              send_payment_link fl io to_str post_link uuid
                (sms_sender_for fl io io_post settings' config.client_id)
                stripe'
                config
                (record call { from_e164 = to; description = description })
                (later, world') in
            let amount = cents fl io to_str post_link uuid config call.amount_usd in
            let requested =
              create_payment_link fl io to_str post_link uuid stripe' amount description
                (payment_key call.call_id amount)
                world' in
            ((receipt' : Receipt F) → again.0 ≢ paid receipt')
            × ((again.1 ≡ (later, world')) ⊎ (again.1 ≡ (later, requested.1)))
    unfolding sms_sender_for
    send_payment_link_once pan structure ws stripe stripe' settings settings' config call to
          description receipt store world world' named in_call delivered =
        let amount = cents fl io to_str post_link uuid config call.amount_usd in
        let (key, keyed, full) = payment_key-some call.call_id amount in_call in
        let (world1, body, accepted, same) =
          send_payment_link-paid (sms_sender_for fl io io_post settings config.client_id) stripe
            config call store world delivered in
        let claimed =
          accepted_claims fl io io_post settings call.from_e164 config.client_id key body store
            world1 named full (rw keyed at accepted) in
        send_payment_link-unsent (sms_sender_for fl io io_post settings' config.client_id) stripe'
          config (record call { from_e164 = to; description = description }) _ world'
          (λ to' body' world2. rw keyed (
            claimed_unsent fl io io_post settings' to' config.client_id key body' _ world2 named
              full
              (write_all-is_claimed pan structure ws config.client_id key _
                (rw same (rw keyed claimed)))))
