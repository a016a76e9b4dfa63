-- ===== src/Examples/Payments.antt =====
-- A run of the payment link.
use revenue_recovery_voice_a.Base.{
  get_field, ◌<>◌, ℕ, ◌+◌, ◌≡◌, ◌≢◌, refl, ◌⊎◌, [], none, some, String, codes, obj, str, end, field,
  pos, text_eq,
}
use revenue_recovery_voice_a.Base.Fixed.{fixed, scale, times, towards_zero}
use revenue_recovery_voice_a.Resilience.{
  Exchange, HttpResponse, response, request_with_retry, retry_loop, next_delay, should_retry,
  retryable_statuses,
}
use revenue_recovery_voice_a.Store.{is_suppressed, opt_out_of, claim_sms_send, is_claimed}
use revenue_recovery_voice_a.Store.Writes.{write_all}
use revenue_recovery_voice_a.Telephony.Sms.{
  send_sms, sms_sender_for, deliver, conclude, receipt, response_sid,
}
use revenue_recovery_voice_a.Tools.Payment.{
  StripeSettings, LinkForm, Receipt, paid, PaymentCall, cents, create_payment_link,
  send_payment_link, text_link, link_reply, response_link, payment_result,
}
use revenue_recovery_voice_a.Tools.Payment.Once.{send_payment_link_once}
use revenue_recovery_voice_a.Examples.Data.{F, client, store, settings, outside, post}
use revenue_recovery_voice_a.Tools.PaymentTexts.{payment_key, mask_e164}

abbrev stripe : StripeSettings
stripe = record { stripe_api_key = "sk"; stripe_price_id = "" }

abbrev made : HttpResponse
made = record {
  status_code = 200;
  retry_after = none;
  json = some (obj (field (codes "url") (str (codes "https://p")) end));
}

abbrev post_link : String → LinkForm → String → ℕ → Exchange × ℕ
post_link api_key form key w = (response made, w + 1)

abbrev payment_call : PaymentCall F
payment_call = record {
  from_e164 = "+15550199";
  call_id = "call1";
  amount_usd = none;
  description = codes "call-out";
}

abbrev first_payment : Receipt F
first_payment = record {
  sent_to = codes "+1555****";
  amount_usd = fixed.round (fixed.div (fixed.of_int (pos 8900)) (fixed.of_int (pos 100))) 2;
  description = codes "call-out";
}

send_payment_link_once_example :
    let first =
      send_payment_link fixed outside
        (λ j. [])
        post_link
        (λ w. "u")
        (sms_sender_for fixed outside post settings client.client_id)
        stripe
        client
        payment_call
        (store, 0) in
    let later = write_all (λ t. t) (λ j. j) [] first.1.0 in
    let again =
      send_payment_link fixed outside
        (λ j. [])
        post_link
        (λ w. "u")
        (sms_sender_for fixed outside post settings client.client_id)
        stripe
        client
        (record payment_call { from_e164 = "+15550198"; description = codes "again" })
        (later, 5) in
    let amount = cents fixed outside (λ j. []) post_link (λ w. "u") client none in
    let requested =
      create_payment_link fixed outside
        (λ j. [])
        post_link
        (λ w. "u")
        stripe
        amount
        (codes "again")
        (payment_key "call1" amount)
        5 in
    ((receipt' : Receipt F) → again.0 ≢ paid receipt')
    × ((again.1 ≡ (later, 5)) ⊎ (again.1 ≡ (later, requested.1)))
unfolding send_payment_link text_link create_payment_link link_reply response_link payment_result
    mask_e164 cents payment_key send_sms sms_sender_for deliver conclude receipt response_sid
    get_field request_with_retry retry_loop next_delay should_retry retryable_statuses is_suppressed
    opt_out_of text_eq claim_sms_send is_claimed ◌<>◌ towards_zero times scale
send_payment_link_once_example =
    send_payment_link_once fixed outside (λ j. []) post_link (λ w. "u") post (λ t. t) (λ j. j) []
      stripe stripe settings settings client payment_call "+15550198" (codes "again") first_payment
      store 0 5 refl refl refl
