-- ===== src/Tools/CrmRequests.antt =====
-- The requests of `apps/api/tools/crm.py` to HubSpot, and the parts of a name.
use revenue_recovery_voice_a.Base.{
  ℕ, suc, ◌*◌, ◌-◌, true, false, List, [], ◌∷◌, ◌++◌, Option, none, some, String, Text, codes,
  strip, is_space, is_empty, str_int, ℤ, pos, negsuc, Json, num, str, arr, obj, nil, cons, Fields,
  end, field, lookup_error, Result, ok, err, if◌then◌else◌,
}
use mathlib.Core.List.{reverse}
use revenue_recovery_voice_a.Media.Realtime.{lit}

pub data Method : Type 0 where
  post patch : Method

-- One request, below the base address
pub record Ask : Type 0 where
  pub method : Method
  pub path : Text
  pub json : Json

abbrev pub search_path : Text
search_path = codes "/crm/v3/objects/contacts/search"

abbrev pub contacts_path : Text
contacts_path = codes "/crm/v3/objects/contacts"

abbrev pub calls_path : Text
calls_path = codes "/crm/v3/objects/calls"

-- `CALL_TO_CONTACT_ASSOCIATION_TYPE_ID`
abbrev pub call_to_contact_association_type_id : ℕ
call_to_contact_association_type_id = 194

abbrev pub one : Json → Json
one j = arr (cons j nil)

abbrev pub only : String → Json → Json
only k v = obj (field (codes k) v end)

-- The words of a text, `word` being the one begun, in reverse order of its characters.
unfoldable pub words_from : Text → Text → List Text
words_from [] [] = []
words_from (x ∷ word) [] = reverse (x ∷ word) ∷ []
words_from word (c ∷ s) =
    let skipped = words_from [] s in
    let joined = words_from (c ∷ word) s in
    elim (is_space c) [
      | true ↦ if is_empty word then skipped else reverse word ∷ skipped
      | false ↦ joined
    ]

-- `s.split()`
unfoldable pub words : Text → List Text
unfolding words_from
words s = words_from [] s

-- `" ".join(…)`
unfoldable pub join_spaced : List Text → Text
join_spaced [] = []
join_spaced (w ∷ []) = w
join_spaced (w ∷ (v ∷ rest)) = w ++ (b' ' ∷ join_spaced (v ∷ rest))

-- The parts of a name that is not empty; a name of spaces alone has no first part.
unfoldable pub name_parts : List Text → Result (Text × Text)
unfolding join_spaced
name_parts [] = err lookup_error
name_parts (first ∷ rest) = ok (first, join_spaced rest)

-- `_split_name`
unfoldable pub split_name : Option Text → Result (Text × Text)
unfolding words name_parts
split_name none = ok ([], [])
split_name (some name) = if is_empty name then ok ([], []) else name_parts (words (strip name))

-- The search of `find_by_phone`
unfoldable pub search_ask : Text → Ask
search_ask phone = record {
  method = post;
  path = search_path;
  json = obj (
      field (codes "filterGroups")
        (one (
          only "filters" (
            one (
              obj (
                field (codes "propertyName") (lit "phone")
                  (field (codes "operator") (lit "EQ") (field (codes "value") (str phone) end)))))))
        (field (codes "properties")
          (arr (
            cons (lit "phone")
              (cons (lit "firstname") (cons (lit "lastname") (cons (lit "email") nil)))))
          (field (codes "limit") (num (pos 1)) end)));
}

-- A field of `properties` that is set where the text is not empty.
abbrev pub set_text : String → Text → Fields → Fields
set_text k s rest = if is_empty s then rest else field (codes k) (str s) rest

abbrev pub or_text : Option Text → Text
or_text none = []
or_text (some s) = s

-- The `properties` of a contact
unfoldable pub contact_properties : Text → Text → Text → Option Text → Json
contact_properties phone first last email = obj (
    field (codes "phone") (str phone) (
      set_text "firstname" first (set_text "lastname" last (set_text "email" (or_text email) end))))

unfoldable pub create_ask : Json → Ask
create_ask properties = record {
  method = post;
  path = contacts_path;
  json = only "properties" properties;
}

unfoldable pub update_ask : Text → Json → Ask
update_ask crm_id properties = record {
  method = patch;
  path = contacts_path ++ (b'/' ∷ crm_id);
  json = only "properties" properties;
}

-- `duration_seconds * 1000`
unfoldable pub thousandfold : ℤ → ℤ
thousandfold (pos n) = pos (n * 1000)
thousandfold (negsuc n) = negsuc (suc n * 1000 - 1)

-- The engagement of `log_call`
unfoldable pub call_ask : Text → Text → Text → ℤ → Ask
unfolding thousandfold str_int
call_ask crm_id summary outcome duration_seconds = record {
  method = post;
  path = calls_path;
  json = obj (
      field (codes "properties")
        (obj (
          field (codes "hs_call_body") (str summary) (
            field (codes "hs_call_direction") (lit "INBOUND") (
              field (codes "hs_call_status") (lit "COMPLETED") (
                field (codes "hs_call_duration") (lit (str_int (thousandfold duration_seconds)))
                  (field (codes "hs_call_title") (str (codes "Voice agent — " ++ outcome)) end))))))
        (field (codes "associations")
          (one (
            obj (
              field (codes "to") (only "id" (str crm_id)) (
                field (codes "types")
                  (one (
                    obj (
                      field (codes "associationCategory") (lit "HUBSPOT_DEFINED") (
                        field (codes "associationTypeId")
                          (num (pos call_to_contact_association_type_id)) end))))
                  end))))
          end));
}
