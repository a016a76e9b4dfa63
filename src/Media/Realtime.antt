-- ===== src/Media/Realtime.antt =====
-- `apps/api/media/realtime_client.py`: the messages to the model and what the bridge reads of its
-- events. The socket itself is a library.
use revenue_recovery_voice_a.Base.{
  zero, Bool, true, false, not, List, [], ◌∷◌, ◌++◌, Option, none, some, String, Text, codes, strip,
  Json, null, bool, num, str, arr, obj, Items, nil, cons, Fields, end, field, get_field, Dict, ◌≡◌,
  refl, text_eq, pos, Result, ok, err, attribute_error, type_error, is_empty, if◌then◌else◌, ◌>>=◌,
}
use revenue_recovery_voice_a.Config.{ClientConfig, VadType, semantic_vad, server_vad}
use revenue_recovery_voice_a.Tools.Registry.{OpenaiTool}
use revenue_recovery_voice_a.Tools.Dispatch.{is_falsy_json}

-- A string literal as JSON.
abbrev pub lit : String → Json
lit s = str (codes s)

-- `d.get(key)` where `d` is any value; only a dict has the method.
unfoldable pub get : String → Json → Result Json
unfolding get_field
get key (obj fs) = elim (get_field (codes key) fs) [ none ↦ ok null | some j ↦ ok j ]
get key _ = err attribute_error

-- `value or {}`
abbrev pub or_dict : Json → Json
or_dict j = if is_falsy_json j then obj end else j

abbrev pub oob_topic_sentiment : Text
oob_topic_sentiment = codes "sentiment"

-- `topic if isinstance(topic, str) else ""`
abbrev text_or_empty : Json → Text
text_or_empty (str s) = s
text_or_empty _ = []

-- `oob_topic`
unfoldable pub oob_topic : Json → Result Text
unfolding get
oob_topic event = do
  response ← get "response" event
  metadata ← get "metadata" (or_dict response)
  topic ← get "topic" (or_dict metadata)
  ok (text_or_empty topic)

abbrev pub characters : Text → Items
characters [] = nil
characters (c ∷ t) = cons (str (c ∷ [])) (characters t)

abbrev pub field_names : Fields → Items
field_names end = nil
field_names (field k v rest) = cons (str k) (field_names rest)

-- `for x in value or []`; a dict is walked by its keys and a text by its characters.
unfoldable items_of : Json → Result Items
items_of null = ok nil
items_of (bool false) = ok nil
items_of (num (pos zero)) = ok nil
items_of (arr xs) = ok xs
items_of (str s) = ok (characters s)
items_of (obj fs) = ok (field_names fs)
items_of _ = err type_error

-- The chunk of one part, where it is a dict with a text.
unfoldable part_text : Json → Text
unfolding get_field
part_text (obj fs) = elim (get_field (codes "text") fs) [
  | none ↦ []
  | some (str s) ↦ s
  | some _ ↦ []
]
part_text _ = []

unfoldable parts_text : Items → Text
unfolding part_text
parts_text nil = []
parts_text (cons part rest) = part_text part ++ parts_text rest

-- The inner loop for one item of the output.
unfoldable item_text : Json → Result Text
unfolding parts_text items_of get
item_text (obj fs) = do
  content ← get "content" (obj fs)
  parts ← items_of content
  ok (parts_text parts)
item_text _ = ok []

-- The outer loop, which joins the chunks.
unfoldable output_text : Items → Result Text
unfolding item_text
output_text nil = ok []
output_text (cons item rest) = do
  chunk ← item_text item
  later ← output_text rest
  ok (chunk ++ later)

-- `response_output_text`
unfoldable pub response_output_text : Json → Result Text
unfolding get items_of output_text
response_output_text event = do
  response ← get "response" event
  output ← get "output" (or_dict response)
  items ← items_of output
  text ← output_text items
  ok (strip text)

-- `bool(text)` of an optional text
abbrev pub truthy_text : Option Text → Option Text
truthy_text none = none
truthy_text (some s) = if is_empty s then none else some s

abbrev vad_name : VadType → Json
vad_name semantic_vad = lit "semantic_vad"
vad_name server_vad = lit "server_vad"

-- `PCMU`
abbrev pcmu : Json
pcmu = obj (field (codes "type") (lit "audio/pcmu") end)

abbrev optional_text : Option Text → Json
optional_text none = null
optional_text (some s) = str s

-- `dict(rt.variables)`
abbrev text_fields : Dict Text → Fields
text_fields [] = end
text_fields ((k, v) ∷ d) = field (codes k) (str v) (text_fields d)

abbrev tool_items : List OpenaiTool → Items
tool_items [] = nil
tool_items (t ∷ rest) =
    cons
      (obj (
        field (codes "type") (lit "function") (
          field (codes "name") (lit t.name) (
            field (codes "description") (str t.description)
              (field (codes "parameters") t.parameters end)))))
      (tool_items rest)

-- One more field of the session where there is something to set.
abbrev with_field : Bool → String → Json → Fields → Fields
with_field true k v rest = field (codes k) v rest
with_field false k v rest = rest

module _ {F : Type 0} where
  -- The prompt that is stored at the server, or else the instructions.
  unfoldable persona : ClientConfig F → Fields
  persona cfg = elim (truthy_text cfg.realtime.prompt_id) [
    | none ↦ field (codes "instructions") (optional_text cfg.realtime.instructions) end
    | some id ↦
        field (codes "prompt")
          (obj (
            field (codes "id") (str id) (elim (truthy_text cfg.realtime.prompt_version) [
              | none ↦
                  with_field (not (is_empty cfg.realtime.variables)) "variables"
                    (obj (text_fields cfg.realtime.variables)) end
              | some version ↦ field (codes "version") (str version) (
                  with_field (not (is_empty cfg.realtime.variables)) "variables"
                    (obj (text_fields cfg.realtime.variables)) end)
            ])))
          end
  ]

  -- `build_session_update`
  unfoldable pub build_session_update : ClientConfig F → List OpenaiTool → Json
  unfolding persona
  build_session_update cfg tools =
      let turn_detection = obj (
        field (codes "type") (vad_name cfg.realtime.turn_detection.type) (
          field (codes "interrupt_response") (bool cfg.realtime.turn_detection.interrupt_response)
            end)) in
      let input = obj (
        field (codes "format") pcmu (
          field (codes "turn_detection") turn_detection (
            field (codes "transcription")
              (obj (field (codes "model") (lit cfg.realtime.transcription_model) end)) end))) in
      let output =
        obj (field (codes "format") pcmu (field (codes "voice") (lit cfg.realtime.voice) end)) in
      let session = field (codes "type") (lit "realtime") (
        field (codes "model") (lit cfg.realtime.model) (
          field (codes "output_modalities") (arr (cons (lit "audio") nil)) (
            field (codes "audio")
              (obj (field (codes "input") input (field (codes "output") output end)))
              (field (codes "tool_choice") (lit "auto") (
                with_field (not (is_empty tools)) "tools" (arr (tool_items tools))
                  (persona cfg)))))) in
      obj (field (codes "type") (lit "session.update") (field (codes "session") (obj session) end))

-- `append_audio`
abbrev pub append_audio : Json → Json
append_audio payload =
    obj (field (codes "type") (lit "input_audio_buffer.append") (field (codes "audio") payload end))

-- `create_response`
abbrev pub create_response : Option Fields → Json
create_response none = obj (field (codes "type") (lit "response.create") end)
create_response (some response) =
    obj (field (codes "type") (lit "response.create") (field (codes "response") (obj response) end))

-- `say_out_of_band`
abbrev pub say_out_of_band : Text → Json
say_out_of_band line = create_response (
    some (
      field (codes "input") (arr nil)
        (field (codes "instructions") (str (codes "Say exactly: \"" ++ (line ++ codes "\""))) end)))

-- `classify_out_of_band`
abbrev pub classify_out_of_band : Text → Text → Json
classify_out_of_band instructions topic = create_response (
    some (
      field (codes "conversation") (lit "none") (
        field (codes "input") (arr nil) (
          field (codes "output_modalities") (arr (cons (lit "text") nil)) (
            field (codes "instructions") (str instructions)
              (field (codes "metadata") (obj (field (codes "topic") (str topic) end)) end))))))

-- The topic that a classification is sent with is the one that is read from the response that has it
-- as its metadata, and a spoken response has none.
oob_topic-classify :
    (topic : Text) (id : Json)
    → let answer = λ (metadata : Json). obj (
        field (codes "type") (lit "response.done") (
          field
            (codes "response")
            (obj (field (codes "id") id (field (codes "metadata") metadata end)))
            end)) in
      (oob_topic (answer (obj (field (codes "topic") (str topic) end))) ≡ ok topic)
      × (oob_topic (answer null) ≡ ok [])
unfolding oob_topic text_eq get_field
oob_topic-classify topic id = (refl, refl)
