-- ===== src/Tools/PaymentTexts.antt =====
-- The key of a payment in `apps/api/tools/payment.py`, and `mask_e164` of
-- `apps/api/security/redaction.py`.
use revenue_recovery_voice_a.Base.{
  str_int, ◌<>◌, ◌-◌, [], ◌++◌, Option, none, some, String, Text, codes, take, length, leb, ℤ,
  if◌then◌else◌,
}
use revenue_recovery_voice_a.Telephony.Sms.{is_blank}

-- `f"payment_link:{call_id}:{amount_cents}" if call_id else None`
unfoldable pub payment_key : String → ℤ → Option String
unfolding str_int ◌<>◌
payment_key call_id amount_cents =
    if is_blank call_id
    then none
    else some ("payment_link:" <> (call_id <> (":" <> str_int amount_cents)))

-- `idempotency_key or str(uuid.uuid4())`
abbrev pub header_key : Option String → String → String
header_key none uuid = uuid
header_key (some key) uuid = if is_blank key then uuid else key

-- `mask_e164` of `apps/api/security/redaction.py`, on a number that is there
unfoldable pub mask_e164 : Text → Text
mask_e164 [] = []
mask_e164 number =
    if leb (length number) 4 then codes "****" else take (length number - 4) number ++ codes "****"
