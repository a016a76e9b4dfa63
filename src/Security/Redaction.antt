-- ===== src/Security/Redaction.antt =====
-- `apps/api/security/redaction.py`: `redact_structure`, over any redaction of texts. A dict whose keys
-- become equal keeps the place of the first and the value of the last, as a dict comprehension does.
pub mod Stored
use revenue_recovery_voice_a.Base.{
  Bool, true, false, Text, text_eq, Json, null, bool, num, str, arr, obj, Items, nil, cons, Fields,
  end, field, if◌then◌else◌,
}

-- `d[k] = v`
unfoldable pub put_field : Text → Json → Fields → Fields
put_field k v end = field k v end
put_field k v (field j w fs) =
    let rest = put_field k v fs in if text_eq k j then field j v fs else field j w rest

module _ (redact_pan : Text → Text) where
  unfoldable mutual
    unfolding put_field

    -- `redact_structure`
    pub redact_structure : Json → Json
    redact_structure null = null
    redact_structure (bool b) = bool b
    redact_structure (num n) = num n
    redact_structure (str s) = str (redact_pan s)
    redact_structure (arr xs) = arr (redact_items xs)
    redact_structure (obj fs) = obj (redact_fields fs end)

    -- The list comprehension
    pub redact_items : Items → Items
    redact_items nil = nil
    redact_items (cons x xs) = cons (redact_structure x) (redact_items xs)

    -- The dict comprehension, on the dict made so far
    pub redact_fields : Fields → Fields → Fields
    redact_fields end made = made
    redact_fields (field k v fs) made =
        redact_fields fs (put_field (redact_pan k) (redact_structure v) made)
