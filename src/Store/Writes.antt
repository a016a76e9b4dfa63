-- ===== src/Store/Writes.antt =====
-- `apps/api/db/repository.py`: the writes as values, and any sequence of them. A write that raises
-- is rolled back.
use revenue_recovery_voice_a.Base.{ℕ, Bool, ok, err, List, [], ◌∷◌, Option, String, Text, Json}
use revenue_recovery_voice_a.Store.{
  Store, Direction, CallOutcome, Role, EventKind, create_call, finish_call, set_recording_url,
  insert_turn, set_turn_truncation, insert_tool_invocation, insert_call_event, upsert_contact,
  mark_opted_out, claim_sms_send, mark_sms_delivered,
}

pub data Write : Type 0 where
  created : String → String → String → String → Direction → Bool → Option ℕ → Write
  finished : String → Option CallOutcome → Option ℕ → Option ℕ → Write
  recorded : String → Text → Write
  turn : String → Role → Text → ℕ → Option ℕ → Option ℕ → Option String → Write
  truncated : String → String → ℕ → Write
  invoked : String → String → Json → String → ℕ → ℕ → Write
  noted : String → ℕ → EventKind → Json → Write
  contacted : String → String → String → Option Text → Option Text → Write
  opted_out : String → String → String → Option ℕ → Write
  claimed : String → String → String → Write
  delivered : ℕ → Option Json → Write

module _ (redact_pan : Text → Text) (redact_structure : Json → Json) where
  unfoldable pub write : Write → Store → Store
  write (created i client sid phone direction consent at) s =
      elim (create_call i client sid phone direction consent at s) [ ok (_, s') ↦ s' | err _ ↦ s ]
  write (finished i outcome cents at) s = finish_call i outcome cents at s
  write (recorded i url) s = (set_recording_url i url s).1
  write (turn i role text at latency cut item) s =
      (insert_turn redact_pan i role text at latency cut item s).1
  write (truncated i item at) s = set_turn_truncation i item at s
  write (invoked i name arguments status latency attempt) s =
      insert_tool_invocation redact_structure i name arguments status latency attempt s
  write (noted i at kind payload) s = insert_call_event i at kind payload s
  write (contacted uuid client phone name crm) s = (upsert_contact uuid client phone name crm s).1
  write (opted_out uuid client phone at) s = mark_opted_out uuid client phone at s
  write (claimed client to key) s = (claim_sms_send client to key s).1
  write (delivered i sid) s = mark_sms_delivered i sid s

  unfoldable pub write_all : List Write → Store → Store
  unfolding write
  write_all [] s = s
  write_all (w ∷ ws) s = write_all ws (write w s)
