-- ===== src/Examples/Telephony.antt =====
-- Runs about inbound calls, whispers and transfers.
use revenue_recovery_voice_a.Base.{
  ◌≡◌, refl, true, [], ◌∷◌, some, Option, String, Dict, Text, codes,
}
use revenue_recovery_voice_a.Base.Fixed.{fixed}
use revenue_recovery_voice_a.Config.{ClientConfig}
use revenue_recovery_voice_a.Telephony.Twiml.{whisper, inbound_voice}
use revenue_recovery_voice_a.Telephony.Twiml.Spoken.{IsCaller, sentence}
use revenue_recovery_voice_a.Telephony.Twiml.Safe.{
  IsSpoken, whisper-IsSpoken, Answers, inbound_voice-Answers,
}
use revenue_recovery_voice_a.Tools.Transfer.{transfer_to_human}
use revenue_recovery_voice_a.Tools.Transfer.Warm.{
  IsRedirection, succeeded, outcome, transfer_to_human-succeeded,
}
use revenue_recovery_voice_a.Examples.Data.{
  F, client, store, settings, outside, post, disk, registry,
}

abbrev query : Dict Text
query = ("from", codes "+15550199") ∷ ("reason", codes "pipe > 2\" & <burst>") ∷ []

whisper-IsSpoken_example :
    (caller : Text) × IsCaller (codes "+15550199") caller
    × IsSpoken (sentence caller (codes "pipe > 2\" & <burst>") []) (whisper query)
whisper-IsSpoken_example = whisper-IsSpoken query refl refl refl

abbrev form : Dict String
form = ("To", "+15550100") ∷ ("From", "+15550142") ∷ ("CallSid", "CA2") ∷ []

inbound_voice-Answers_example :
    let run = inbound_voice disk settings (codes "wss://acme") true "c2" form (registry, store) in
    Answers disk settings (codes "wss://acme") "c2" form registry store run.0 run.1.1
inbound_voice-Answers_example =
    inbound_voice-Answers disk settings (codes "wss://acme") true "c2" form registry store

abbrev staffed : ClientConfig F
staffed = record client {
  escalation = record client.escalation { target_number = some (codes "+15550177") };
}

transfer_to_human-succeeded_example :
    let run =
      transfer_to_human fixed outside post
        (codes "https://acme/")
        staffed
        "CA1"
        (codes "+15550199")
        (codes "gas")
        []
        0 in
    (posted : Option Text) × IsRedirection fixed outside post
      (codes "https://acme/")
      (some (codes "+15550177"))
      staffed
      "CA1"
      (codes "+15550199")
      (codes "gas")
      []
      posted
    × (succeeded fixed outside post (codes "https://acme/") run.0
        ≡ (outcome fixed outside post (codes "https://acme/") "CA1" posted 0).0)
    × (run.1 ≡ (outcome fixed outside post (codes "https://acme/") "CA1" posted 0).1)
transfer_to_human-succeeded_example =
    transfer_to_human-succeeded fixed outside post (codes "https://acme/") staffed "CA1"
      (codes "+15550199") (codes "gas") [] 0
