-- ===== src/Store/Calls.antt =====
-- `apps/api/db/repository.py`: calls, turns, tool invocations and events. `redact_pan` and
-- `redact_structure` are parameters.
use revenue_recovery_voice_a.Base.{
  ℕ, suc, Bool, true, false, not, ◌&&◌, ◌||◌, Result, ok, err, integrity_error, is_some, List, [],
  ◌∷◌, ◌++◌, map, Option, none, some, String, str_eq, Text, Json, if◌then◌else◌,
}
use revenue_recovery_voice_a.Store.Tables.{
  Direction, CallOutcome, Role, EventKind, Call, Turn, Store, or_else, or_now, clock_after,
  coalesce,
}

abbrev pub find_call : (Call → Bool) → List Call → Option Call
find_call p [] = none
find_call p (c ∷ cs) = if p c then some c else find_call p cs

-- `get_call`
unfoldable pub get_call : String → Store → Option Call
get_call call_id store = find_call (λ c. str_eq c.id call_id) store.calls

-- `get_call_by_sid`
unfoldable pub get_call_by_sid : String → Store → Option Call
get_call_by_sid sid store = find_call (λ c. str_eq c.twilio_call_sid sid) store.calls

-- `create_call`: a row with the same primary key or call SID is an `IntegrityError`
unfoldable pub create_call :
    String → String → String → String → Direction → Bool → Option ℕ → Store → Result (Call × Store)
unfolding get_call get_call_by_sid
create_call call_id client_id sid from_e164 direction consent_captured started_at store =
    let call : Call = record {
      id = call_id;
      client_id = client_id;
      twilio_call_sid = sid;
      from_e164 = from_e164;
      direction = direction;
      started_at = or_now started_at store.now;
      ended_at = none;
      outcome = none;
      cost_cents = 0;
      recording_url = none;
      consent_captured = consent_captured;
    } in
    if is_some (get_call call_id store) || is_some (get_call_by_sid sid store)
    then err integrity_error
    else ok
        (call, record store { calls = call ∷ store.calls; now = clock_after started_at store.now })

-- `UPDATE calls SET ... WHERE id = call_id`, on the one row with that primary key
unfoldable pub update_calls : String → (Call → Call) → List Call → List Call
update_calls call_id f [] = []
update_calls call_id f (c ∷ cs) =
    if str_eq c.id call_id then f c ∷ cs else c ∷ update_calls call_id f cs

-- `finish_call`
unfoldable pub finish_call : String → Option CallOutcome → Option ℕ → Option ℕ → Store → Store
finish_call call_id outcome cost_cents ended_at store = record store {
  calls =
      update_calls call_id
        (λ c. record c {
          ended_at = some (or_now ended_at store.now);
          outcome = coalesce outcome c.outcome;
          cost_cents = or_else cost_cents c.cost_cents;
        })
        store.calls;
  now = clock_after ended_at store.now;
}

-- `set_recording_url`
unfoldable pub set_recording_url : String → Text → Store → Bool × Store
set_recording_url call_id url store = elim (get_call call_id store) [
  | none ↦ (false, store)
  | some call ↦ if not call.consent_captured then (false, store) else (
    true,
    record store {
      calls = update_calls call_id (λ c. record c { recording_url = some url }) store.calls;
    },
  )
]

-- `insert_turn`
unfoldable pub insert_turn :
    (Text → Text)
    → String
    → Role
    → Text
    → ℕ
    → Option ℕ
    → Option ℕ
    → Option String
    → Store
    → Turn × Store
insert_turn redact_pan call_id role text started_at_ms latency_ms truncated_at_ms item_id store =
    let turn : Turn = record {
      id = store.next_id;
      call_id = call_id;
      role = role;
      text = redact_pan text;
      started_at_ms = started_at_ms;
      latency_ms = latency_ms;
      truncated_at_ms = truncated_at_ms;
      realtime_item_id = item_id;
    } in
    (turn, record store { turns = store.turns ++ (turn ∷ []); next_id = suc store.next_id })

abbrev pub is_item : String → Option String → Bool
is_item item_id none = false
is_item item_id (some i) = str_eq i item_id

-- `set_turn_truncation`
unfoldable pub set_turn_truncation : String → String → ℕ → Store → Store
set_turn_truncation call_id item_id at_ms store = record store {
  turns =
      map
        (λ t.
          if str_eq t.call_id call_id && is_item item_id t.realtime_item_id
          then record t { truncated_at_ms = some at_ms }
          else t)
        store.turns;
}

-- `insert_tool_invocation`
unfoldable pub insert_tool_invocation :
    (Json → Json) → String → String → Json → String → ℕ → ℕ → Store → Store
insert_tool_invocation redact_structure call_id name arguments status latency_ms attempt store =
    record store {
      tool_invocations =
          store.tool_invocations
          ++ (record {
            id = store.next_id;
            call_id = call_id;
            name = name;
            arguments = redact_structure arguments;
            result_status = status;
            latency_ms = latency_ms;
            attempt = attempt;
          }
              ∷ []);
      next_id = suc store.next_id;
    }

-- `insert_call_event`
unfoldable pub insert_call_event : String → ℕ → EventKind → Json → Store → Store
insert_call_event call_id at_ms kind payload store = record store {
  call_events =
      store.call_events
      ++ (record {
        id = store.next_id;
        call_id = call_id;
        at_ms = at_ms;
        kind = kind;
        payload = payload;
      }
          ∷ []);
  next_id = suc store.next_id;
}
