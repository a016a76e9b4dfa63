-- ===== src/Tools/Payment.antt =====
-- `apps/api/tools/payment.py`: the payment link, sent as a text. The requests to the payment provider
-- and the text sender's posts act on the outside `S`. An amount in JSON is a float, so the payload is
-- a record. `str` of a JSON value that is not a string is a parameter.
pub mod Once
use revenue_recovery_voice_a.Base.{
  ℕ, ◌-◌, Bool, true, false, not, ◌&&◌, List, [], ◌∷◌, ◌++◌, Option, none, some, String, Text,
  codes, decimal, take, length, leb, leb_ℤ, ◌==◌, ℤ, pos, negsuc, Json, null, bool, num, str, arr,
  nil, cons, obj, end, field, Exc, FloatOps, get_field, Result, ok, err, value_error,
  attribute_error, if◌then◌else◌,
}
use revenue_recovery_voice_a.Config.{ClientConfig}
use revenue_recovery_voice_a.Tools.PaymentTexts.{payment_key, header_key, mask_e164}
use revenue_recovery_voice_a.Domain.State.{ToolStatus}
use revenue_recovery_voice_a.Resilience.{
  Exchange, HttpError, HttpResponse, Outside, Sent, returned, raised, crashed, request_with_retry,
  in_call,
}
use revenue_recovery_voice_a.Store.{Store}
use revenue_recovery_voice_a.Telephony.Sms.{is_blank}

-- The settings that the payment reads.
pub record StripeSettings : Type 0 where
  pub stripe_api_key : String
  pub stripe_price_id : String

-- `DEGRADE_HINT`
abbrev pub degrade_hint : Text
degrade_hint =
    codes
      "The payment link did not send. Tell the caller you will text it over shortly — do not ask for card details and do not read any numbers out loud."

-- `NO_NUMBER_HINT`
abbrev no_number_hint : Text
no_number_hint =
    codes
      "There is no mobile number for this caller. Ask them to confirm the best number for a text message, then try again. Never take card details over the phone."

-- The form of the request: one inline price, or the configured price.
pub data LinkForm : Type 0 where
  inline_price : (unit_amount : ℤ) (name : Text) → LinkForm
  configured_price : (price : String) → LinkForm

-- What `create_payment_link` returns or raises.
pub data LinkReply : Type 0 where
  link : Option Text → LinkReply
  link_error : HttpError → LinkReply
  link_crash : Exc → LinkReply

-- The payload of a link that was sent.
pub record Receipt (F : Type 0) : Type 0 where
  pub sent_to : Text
  pub amount_usd : F
  pub description : Text

-- What `send_payment_link` returns or raises: `ok` with its payload, `failure` with its hint and its
-- reason, or an exception.
pub data Payment (F : Type 0) : Type 0 where
  paid : Receipt F → Payment F
  refused : (status : ToolStatus) (speak_hint reason : Text) → Payment F
  http_error : HttpError → Payment F
  exception : Exc → Payment F

-- The keyword arguments of a payment.
pub record PaymentCall (F : Type 0) : Type 0 where
  pub from_e164 : String
  pub call_id : String
  pub amount_usd : Option F
  pub description : Text

-- `bool(value)` of a JSON value
abbrev is_truthy : Json → Bool
is_truthy null = false
is_truthy (bool b) = b
is_truthy (num (pos ℕ.zero)) = false
is_truthy (num n) = true
is_truthy (str []) = false
is_truthy (str (c ∷ s)) = true
is_truthy (arr nil) = false
is_truthy (arr (cons j js)) = true
is_truthy (obj end) = false
is_truthy (obj (field k v fs)) = true

module _ (fl : FloatOps) {S : Type 0} (io : Outside fl.F S) (to_str : Json → Text) where
  open fl use {F, of_int, mul, div, trunc, round}

  abbrev str_of : Json → Text
  str_of (str s) = s
  str_of j = to_str j

  -- `link = response.json().get("url")` and the return
  unfoldable pub response_link : HttpResponse → LinkReply
  unfolding get_field
  response_link r = elim r.json [
    | none ↦ link_crash value_error
    | some (obj fs) ↦ elim (get_field (codes "url") fs) [
      | none ↦ link none
      | some j ↦ if is_truthy j then link (some (str_of j)) else link none
    ]
    | some _ ↦ link_crash attribute_error
  ]

  -- The end of `create_payment_link`, on how the request ended.
  unfoldable pub link_reply : Sent → LinkReply
  link_reply (raised e) = link_error e
  link_reply (crashed e) = link_crash e
  link_reply (returned r) = if leb 400 r.status_code then link none else response_link r

  module _ (post_link : String → LinkForm → String → S → Exchange × S) (uuid : S → String) where
    -- `create_payment_link`
    unfoldable pub create_payment_link :
        StripeSettings → ℤ → Text → Option String → S → LinkReply × S
    unfolding link_reply
    create_payment_link settings amount_cents description idempotency_key world =
        if is_blank settings.stripe_api_key
        then (link none, world)
        else let form =
            if is_blank settings.stripe_price_id
            then inline_price amount_cents (take 250 description)
            else configured_price settings.stripe_price_id in
          let (sent, world') =
            request_with_retry fl io
              (post_link settings.stripe_api_key form (header_key idempotency_key (uuid world)))
              in_call world in
          (link_reply sent, world')

    -- `amount_cents`; the number is rounded to an integer, with ties to even.
    unfoldable pub cents : ClientConfig F → Option F → ℤ
    cents config amount_usd = elim amount_usd [
      | some amount ↦ trunc (round (mul amount (of_int (pos 100))) 0)
      | none ↦ elim config.booking.emergency_fee_usd [
        | none ↦ pos 0
        | some fee ↦ trunc (round (mul fee (of_int (pos 100))) 0)
      ]
    ]

    abbrev pub payment_body : ClientConfig F → Text → Text → Text
    payment_body config description url =
        config.display_name
        ++ (codes ": secure payment link for " ++ (description ++ (codes " — " ++ url)))

    module _
        (send_sms : String → Text → Option String → Store × S → Result Bool × (Store × S)) where
      -- What `send_payment_link` makes of the sender's answer.
      unfoldable pub payment_result : PaymentCall F → ℤ → Result Bool → Payment F
      unfolding mask_e164
      payment_result call amount_cents (err e) = exception e
      payment_result call amount_cents (ok false) =
          refused ToolStatus.unavailable degrade_hint (codes "sms delivery failed")
      payment_result call amount_cents (ok true) = paid (record {
        sent_to = mask_e164 (codes call.from_e164);
        amount_usd = round (div (of_int amount_cents) (of_int (pos 100))) 2;
        description = call.description;
      })

      -- The end of `send_payment_link`, from `if link is None`.
      unfoldable pub text_link :
          ClientConfig F → PaymentCall F → ℤ → LinkReply → Store × S → Payment F × (Store × S)
      unfolding payment_result
      text_link config call amount_cents (link_error e) w = (http_error e, w)
      text_link config call amount_cents (link_crash e) w = (exception e, w)
      text_link config call amount_cents (link none) w =
          (refused ToolStatus.unavailable degrade_hint (codes "stripe link creation failed"), w)
      text_link config call amount_cents (link (some url)) w =
          let (delivered, w') =
            send_sms call.from_e164 (payment_body config call.description url)
              (payment_key call.call_id amount_cents) w in
          (payment_result call amount_cents delivered, w')

      -- `send_payment_link`
      unfoldable pub send_payment_link :
          StripeSettings → ClientConfig F → PaymentCall F → Store × S → Payment F × (Store × S)
      unfolding create_payment_link text_link
      send_payment_link settings config call (store, world) =
          if is_blank call.from_e164
          then (
            refused ToolStatus.not_found no_number_hint (codes "no caller number"),
            (store, world),
          )
          else if leb_ℤ (cents config call.amount_usd) (pos 0) && is_blank settings.stripe_price_id
          then (
            refused ToolStatus.unavailable degrade_hint (codes "no amount and no configured price"),
            (store, world),
          )
          else let (reply, world') =
              create_payment_link settings (cents config call.amount_usd) call.description
                (payment_key call.call_id (cents config call.amount_usd)) world in
            text_link config call (cents config call.amount_usd) reply (store, world')
