-- ===== src/Tools/Dispatch.antt =====
-- `apps/api/tools/dispatch.py`: a function call of the model, from its event to the messages that go
-- back. The messages are a list in the order in which they are sent; `json.loads` is a parameter, and
-- so is `dict` of a list.
pub mod Order
use revenue_recovery_voice_a.Base.{
  ℕ, zero, Bool, true, false, not, List, [], ◌∷◌, ◌++◌, Option, none, some, String, Text, codes,
  Json, null, bool, num, str, arr, obj, Items, nil, cons, Fields, end, field, ℤ, pos, Result, ok,
  err, type_error, assertion_error, is_empty, ◌>>=◌, if◌then◌else◌,
}
use revenue_recovery_voice_a.Domain.State.{ToolStatus}
use revenue_recovery_voice_a.Tools.Registry.{
  ToolResult, ToolSpec, ToolRegistry, Invocation, get, masks_latency, run_tool,
}

-- `FunctionCall`
pub record FunctionCall : Type 0 where
  pub name : String
  pub call_id : String
  pub arguments : Json

-- The fields of the event that `from_event` reads.
record FunctionEvent : Type 0 where
  pub name : Option String
  pub call_id : Option String
  pub arguments : Option Json

-- `not value`
abbrev pub is_falsy_json : Json → Bool
is_falsy_json null = true
is_falsy_json (bool b) = not b
is_falsy_json (num (pos zero)) = true
is_falsy_json (num _) = false
is_falsy_json (str s) = is_empty s
is_falsy_json (arr nil) = true
is_falsy_json (arr (cons _ _)) = false
is_falsy_json (obj end) = true
is_falsy_json (obj (field _ _ _)) = false

abbrev or_empty : Option String → String
or_empty none = ""
or_empty (some s) = s

-- `event.get("arguments") or "{}"`
abbrev raw_arguments : Option Json → Json
raw_arguments none = str (codes "{}")
raw_arguments (some j) = if is_falsy_json j then str (codes "{}") else j

module _ (loads : Text → Option Json) (dict_of : Items → Result Fields) where
  -- `arguments`; text that is not JSON counts as no arguments.
  unfoldable parse_arguments : Json → Result Json
  parse_arguments (str raw) = elim (loads raw) [ none ↦ ok (obj end) | some j ↦ ok j ]
  parse_arguments (obj fs) = ok (obj fs)
  parse_arguments (arr xs) = dict_of xs >>= λ fs. ok (obj fs)
  parse_arguments _ = err type_error

  -- `FunctionCall.from_event`
  unfoldable from_event : FunctionEvent → Result FunctionCall
  unfolding parse_arguments
  from_event event = parse_arguments (raw_arguments event.arguments) >>= λ arguments. ok (record {
    name = or_empty event.name;
    call_id = or_empty event.call_id;
    arguments = arguments;
  })

-- `UNKNOWN_TOOL`
abbrev unknown_tool : ToolResult
unknown_tool = record {
  status = ToolStatus.denied;
  payload = none;
  speak_hint =
      some (codes "That is not something this line can do. Offer to take a message instead.");
}

-- What leaves the dispatch: the out-of-band line, the function output, the request for a response
-- and the call of `on_invocation`.
pub data Message : Type 0 where
  say_out_of_band : Text → Message
  function_output : String → ToolResult → Message
  create_response : Message
  on_invocation : Invocation → Message

-- `_return_to_model` and the callback
unfoldable pub return_to_model : Bool → FunctionCall → Invocation → List Message
return_to_model observed call invocation =
    function_output call.call_id invocation.result
    ∷ create_response
    ∷ (if observed then on_invocation invocation ∷ [] else [])

abbrev pub with_filler : Bool → Invocation → Invocation
with_filler played invocation = record invocation { filler_played = played }

module _ {S : Type 0} (millis : S → S → ℕ) where
  -- The part of `dispatch_with_masking` for a tool that is registered, under its filler.
  unfoldable pub dispatch_known :
      Bool
      → FunctionCall
      → ToolSpec S
      → Fields
      → Bool
      → List Message
      → S
      → Result (Invocation × S) × List Message
  dispatch_known observed call spec context played sent world =
      elim (run_tool spec millis context call.arguments world) [
        | err e ↦ (err e, sent)
        | ok (inv, world') ↦ (
          ok (with_filler played inv, world'),
          sent ++ return_to_model observed call (with_filler played inv),
        )
      ]

  -- `dispatch_with_masking`; `observed` is `on_invocation is not None`
  unfoldable pub dispatch_with_masking :
      Bool → FunctionCall → ToolRegistry S → Fields → S → Result (Invocation × S) × List Message
  dispatch_with_masking observed call registry context world = elim (get call.name registry) [
    | none ↦
        let invocation : Invocation = record {
          name = call.name;
          arguments = call.arguments;
          result = unknown_tool;
          latency_ms = 0;
          attempts = 1;
          filler_played = false;
          timed_out = false;
        } in
        (ok (invocation, world), return_to_model observed call invocation)
    | some spec ↦ elim (masks_latency spec) [
      | false ↦ dispatch_known observed call spec context false [] world
      | true ↦ elim spec.filler_phrase [
        | none ↦ (err assertion_error, [])
        | some line ↦
            dispatch_known observed call spec context true (say_out_of_band line ∷ []) world
      ]
    ]
  ]
