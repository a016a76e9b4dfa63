-- ===== src/Tools/Registry.antt =====
-- `apps/api/tools/registry.py`: tool results, the registry and `run_tool`. A handler acts on a
-- state `S` of the outside world and replies, runs out of its budget or raises. The performance
-- counter is a parameter, from two states to the whole milliseconds between them.
pub mod Loop
pub mod Attempts
pub mod Names
use revenue_recovery_voice_a.Base.{
  ℕ, suc, ◌+◌, ◌/◌, Bool, true, false, not, ◌&&◌, List, [], ◌∷◌, ◌++◌, Option, none, some, String,
  Text, codes, text_eq, Json, obj, null, Fields, end, field, str, num, ℤ, pos, Dict, lookup,
  contains, insert, keys, values, is_empty, is_some, ltb, leb, Result, ok, err, Exc, value_error,
  type_error, assertion_error, raise_if, ◌>>=◌, ◌>>◌, if◌then◌else◌,
}
use revenue_recovery_voice_a.Domain.State.{ToolStatus, is_ok}

pub record ToolResult : Type 0 where
  pub status : ToolStatus
  pub payload : Option Json
  pub speak_hint : Option Text

-- `ok`
unfoldable pub ok_result : Option Json → ToolResult
ok_result payload = record { status = ToolStatus.ok; payload = payload; speak_hint = none }

-- `failure`
unfoldable pub failure : ToolStatus → Text → Option Json → Result ToolResult
failure status speak_hint payload = do
  raise_if (is_ok status) value_error
  raise_if (is_empty speak_hint) value_error
  ok (record { status = status; payload = payload; speak_hint = some speak_hint })

pub data FailurePolicy : Type 0 where
  retry_once degrade escalate : FailurePolicy

-- What awaiting a handler under a timeout comes to. A raise carries the exception's class name.
pub data Reply : Type 0 where
  replied : ToolResult → Reply
  timed_out : Reply
  raised : Text → Reply

pub record ToolSpec (S : Type 0) : Type 0 where
  pub name : String
  pub description : Text
  pub json_schema : Json
  pub handler : Fields → ℕ → S → Reply × S
  pub timeout_ms : ℕ
  pub on_failure : FailurePolicy
  pub filler_phrase : Option Text
  pub idempotency_key : Option (Fields → String)

abbrev filler_threshold_ms : ℕ
filler_threshold_ms = 250

-- `bool(self.filler_phrase)`
abbrev pub has_filler : Option Text → Bool
has_filler none = false
has_filler (some line) = not (is_empty line)

pub record OpenaiTool : Type 0 where
  pub name : String
  pub description : Text
  pub parameters : Json

module _ {S : Type 0} where
  -- `masks_latency`
  unfoldable pub masks_latency : ToolSpec S → Bool
  masks_latency spec = ltb filler_threshold_ms spec.timeout_ms && has_filler spec.filler_phrase

  -- `to_openai_tool`
  unfoldable to_openai_tool : ToolSpec S → OpenaiTool
  to_openai_tool spec = record {
    name = spec.name;
    description = spec.description;
    parameters = spec.json_schema;
  }

-- `ToolRegistry`
abbrev pub ToolRegistry : Type 0 → Type 0
ToolRegistry S = Dict (ToolSpec S)

module _ {S : Type 0} where
  -- `register`
  unfoldable pub register : ToolSpec S → ToolRegistry S → Result (ToolRegistry S)
  register spec specs =
      if contains spec.name specs then err value_error else ok (insert spec.name spec specs)

  -- The loop of `__init__`.
  unfoldable register_all : List (ToolSpec S) → ToolRegistry S → Result (ToolRegistry S)
  register_all [] specs = ok specs
  register_all (spec ∷ rest) specs = register spec specs >>= λ specs'. register_all rest specs'

  -- `get`
  unfoldable pub get : String → ToolRegistry S → Option (ToolSpec S)
  get = lookup

  -- `names`
  unfoldable pub names : ToolRegistry S → List String
  names = keys

  -- The loop of `filtered`, `out` being the view built so far.
  unfoldable pub filtered_from :
      ToolRegistry S → List String → ToolRegistry S → Result (ToolRegistry S)
  filtered_from specs [] out = ok out
  filtered_from specs (name ∷ enabled) out = elim (lookup name specs) [
    | none ↦ filtered_from specs enabled out
    | some spec ↦ register spec out >>= λ out'. filtered_from specs enabled out'
  ]

  -- `filtered`
  unfoldable pub filtered : ToolRegistry S → List String → Result (ToolRegistry S)
  unfolding filtered_from
  filtered specs enabled = filtered_from specs enabled []

  -- The tools of a list of specs, in order.
  unfoldable pub tools_of : List (ToolSpec S) → List OpenaiTool
  unfolding to_openai_tool
  tools_of [] = []
  tools_of (spec ∷ rest) = to_openai_tool spec ∷ tools_of rest

  -- `openai_tools`
  unfoldable pub openai_tools : ToolRegistry S → List OpenaiTool
  unfolding tools_of
  openai_tools specs = tools_of (values specs)

-- `d[k] = v` on the items of a dict.
unfoldable set_field : Text → Json → Fields → Fields
set_field k v end = field k v end
set_field k v (field j w fs) = if text_eq k j then field j v fs else field j w (set_field k v fs)

-- `{**base, **items}`
unfoldable pub merge : Fields → Fields → Fields
unfolding set_field
merge base end = base
merge base (field k v fs) = merge (set_field k v base) fs

-- `{**(context or {}), **arguments}`, which wants a dict of arguments
unfoldable pub keyword_args : Fields → Json → Result Fields
unfolding merge
keyword_args context (obj fs) = ok (merge context fs)
keyword_args context _ = err type_error

pub record Invocation : Type 0 where
  pub name : String
  pub arguments : Json
  pub result : ToolResult
  pub latency_ms : ℕ
  pub attempts : ℕ
  pub filler_played : Bool
  pub timed_out : Bool

-- `_timeout_hint`
unfoldable pub timeout_hint : FailurePolicy → Text
timeout_hint escalate =
    codes
      "That system is not responding. Apologise briefly and offer to put the caller through to a person."
timeout_hint _ =
    codes
      "That system is slow right now. Do not confirm anything as done. Offer a callback within fifteen minutes and take the caller's details."

-- `budgets`, the milliseconds of each attempt
unfoldable pub budgets : ℕ → FailurePolicy → List ℕ
budgets timeout_ms escalate = timeout_ms ∷ []
budgets timeout_ms _ = timeout_ms ∷ (if leb 100 (timeout_ms / 2) then timeout_ms / 2 else 100) ∷ []

-- What one attempt makes of the handler's reply, and whether it timed out.
unfoldable pub attempt_result : FailurePolicy → ℕ → ℕ → Reply → Result ToolResult
unfolding failure timeout_hint
attempt_result policy budget_ms attempts (replied r) = ok r
attempt_result policy budget_ms attempts timed_out =
    failure ToolStatus.unavailable (timeout_hint policy) (
      some (
        obj (
          field (codes "timeout_ms") (num (pos budget_ms))
            (field (codes "attempt") (num (pos attempts)) end))))
attempt_result policy budget_ms attempts (raised error) =
    failure ToolStatus.unavailable (timeout_hint policy) (
      some (
        obj (field (codes "error") (str error) (field (codes "attempt") (num (pos attempts)) end))))

abbrev pub is_timeout : Reply → Bool
is_timeout timed_out = true
is_timeout _ = false

-- The variables of the loop in `run_tool`.
pub record Progress (S : Type 0) : Type 0 where
  pub attempts : ℕ
  pub timed_out : Bool
  pub result : Option ToolResult
  pub world : S

module _ {S : Type 0} (spec : ToolSpec S) where
  -- One round of the loop, and whether it breaks.
  unfoldable pub attempt : Fields → ℕ → Progress S → Result (Progress S × Bool)
  attempt kwargs budget_ms p =
      let (reply, world) = spec.handler kwargs budget_ms p.world in
      attempt_result spec.on_failure budget_ms (p.attempts + 1) reply >>= λ r. ok (
        record {
          attempts = p.attempts + 1;
          timed_out = if is_timeout reply then true else p.timed_out;
          result = some r;
          world = world;
        },
        is_ok r.status,
      )

  -- The loop over the budgets.
  unfoldable pub run_attempts : Fields → List ℕ → Progress S → Result (Progress S)
  run_attempts kwargs [] p = ok p
  run_attempts kwargs (b ∷ bs) p = attempt kwargs b p >>= λ (p', stop). elim stop [
    | true ↦ ok p'
    | false ↦ run_attempts kwargs bs p'
  ]

  -- What is built after the loop, `assert result is not None` first.
  unfoldable pub invocation : (S → S → ℕ) → Json → S → Progress S → Result (Invocation × S)
  invocation millis arguments world p = elim p.result [
    | none ↦ err assertion_error
    | some r ↦ ok (
      record {
        name = spec.name;
        arguments = arguments;
        result = r;
        latency_ms = millis world p.world;
        attempts = p.attempts;
        filler_played = false;
        timed_out = p.timed_out;
      },
      p.world,
    )
  ]

  -- `run_tool`
  unfoldable pub run_tool : (S → S → ℕ) → Fields → Json → S → Result (Invocation × S)
  unfolding run_attempts invocation
  run_tool millis context arguments world = keyword_args context arguments >>= λ kwargs.
      run_attempts kwargs (budgets spec.timeout_ms spec.on_failure)
        (record { attempts = 0; timed_out = false; result = none; world = world })
      >>= invocation millis arguments world
