-- ===== src/Examples/Security.antt =====
-- Runs of the redaction behind the store: a card number in a turn and in a tool's arguments.
use revenue_recovery_voice_a.Base.{
  ◌≡◌, refl, [], ◌∷◌, none, Text, codes, text_eq, if◌then◌else◌, Json, str, arr, obj, nil, cons,
  end, field, List,
}
use revenue_recovery_voice_a.Store.{caller}
use revenue_recovery_voice_a.Store.Writes.{Write, write_all, turn, invoked}
use revenue_recovery_voice_a.Security.Redaction.{redact_structure}
use revenue_recovery_voice_a.Security.Redaction.Stored.{IsClean, write_all-IsClean}
use revenue_recovery_voice_a.Examples.Data.{store}

-- A redaction of one text
abbrev redact_card : Text → Text
redact_card t = if text_eq t (codes "4111111111111111") then codes "[REDACTED_PAN]" else t

abbrev card : Json
card = str (codes "4111111111111111")

abbrev card_writes : List Write
card_writes =
    turn "u1" caller (codes "4111111111111111") 10 none none none
    ∷ invoked "u1" "answer_from_kb"
        (obj (field (codes "4111111111111111") (arr (cons card nil)) end)) "ok" 20 1
    ∷ []

write_all-IsClean_example :
    IsClean redact_card (write_all redact_card (redact_structure redact_card) card_writes store)
write_all-IsClean_example = write_all-IsClean redact_card card_writes store (tt, tt)

-- Keys that become equal are one field, with the value of the last.
redact_structure_twice :
    redact_structure redact_card (
      obj (
        field
          (codes "4111111111111111")
          (str (codes "a"))
          (field (codes "[REDACTED_PAN]") card end)))
    ≡ obj (field (codes "[REDACTED_PAN]") (str (codes "[REDACTED_PAN]")) end)
unfolding redact_structure text_eq
redact_structure_twice = refl
