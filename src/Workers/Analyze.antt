-- ===== src/Workers/Analyze.antt =====
-- `apps/api/workers/analyze.py`: the analysis of a finished call by a language model. The HTTP client
-- gets the message of the user, all else of its request being fixed; `model_validate` is pydantic's
-- reading of the payload. Turns that start at the same time keep the order of their rows.
pub mod Scores
use revenue_recovery_voice_a.Base.{
  ℕ, Bool, true, false, ◌||◌, ◌&&◌, List, [], ◌∷◌, ◌++◌, Option, none, some, String, str_eq, Text,
  codes, strip, take, is_empty, text_eq, filter, sort_by, leb, ℤ, pos, negsuc, leb_ℤ, max_ℤ, Json,
  null, bool, num, str, arr, obj, Items, nil, cons, Fields, end, field, Exc, type_error,
  lookup_error, FloatOps, Result, ok, err, if◌then◌else◌, ◌>>=◌,
}
use revenue_recovery_voice_a.Media.Realtime.{get, characters, field_names}
use revenue_recovery_voice_a.Metrics.{min_ℤ}
use revenue_recovery_voice_a.Resilience.{
  Exchange, HttpResponse, Outside, Sent, returned, raised, crashed, background,
  request_with_retry_sync,
}
use revenue_recovery_voice_a.Store.{Store, Turn, Role, caller, agent, CallAnalysis, get_call}
use revenue_recovery_voice_a.Telephony.Sms.{is_blank}
use revenue_recovery_voice_a.Tools.Crm.{body_of, get_or}

-- `AnalysisPayload`, the fields of the dict that `call_claude` returns.
pub record AnalysisPayload : Type 0 where
  pub summary : Text
  pub intent : Text
  pub sentiment : Text
  pub qa_score : ℤ
  pub action_items : List Text

-- `Analysis`
pub record Analysis : Type 0 where
  pub summary : Text
  pub intent : Text
  pub sentiment : Text
  pub qa_score : ℤ
  pub action_items : List Text
  pub model : Text

-- The settings that the analysis reads.
pub record AnalysisSettings : Type 0 where
  pub anthropic_api_key : String
  pub anthropic_analysis_model : Text

-- `FAILED_ANALYSIS`
abbrev failed_analysis : AnalysisPayload
failed_analysis = record {
  summary = codes "Analysis failed — the transcript is stored but was not scored.";
  intent = codes "other";
  sentiment = codes "neutral";
  qa_score = pos 0;
  action_items = codes "Review this call manually." ∷ [];
}

abbrev role_text : Role → Text
role_text caller = codes "caller"
role_text agent = codes "agent"

-- `format_transcript`
unfoldable pub format_transcript : List Turn → Text
format_transcript [] = []
format_transcript (t ∷ []) = role_text t.role ++ (codes ": " ++ t.text)
format_transcript (t ∷ (u ∷ rest)) =
    role_text t.role ++ (codes ": " ++ (t.text ++ (10 ∷ format_transcript (u ∷ rest))))

-- The content of the user's message
unfoldable prompt_of : Text → Text
prompt_of transcript = codes "<transcript>" ++ (10 ∷ (transcript ++ (10 ∷ codes "</transcript>")))

-- `for block in value`
unfoldable iterate : Json → Result Items
iterate (arr xs) = ok xs
iterate (str s) = ok (characters s)
iterate (obj fs) = ok (field_names fs)
iterate _ = err type_error

-- `value == text`
abbrev is_text : Text → Json → Bool
is_text t (str s) = text_eq s t
is_text t _ = false

-- Whether a block is the use of `record_analysis`; the name is read of a tool use alone.
unfoldable is_tool_use : Json → Result Bool
unfolding get
is_tool_use block = do
  kind ← get "type" block
  if is_text (codes "tool_use") kind
      then (get "name" block >>= λ name. ok (is_text (codes "record_analysis") name))
      else ok false

-- The turns of a call, as the query returns them.
unfoldable pub turns_of : String → List Turn → List Turn
unfolding sort_by
turns_of call_id turns =
    sort_by (λ t u. leb t.started_at_ms u.started_at_ms)
      (filter (λ t. str_eq t.call_id call_id) turns)

-- `INSERT ... ON CONFLICT DO UPDATE` on the analyses
unfoldable pub upsert_analysis : CallAnalysis → List CallAnalysis → List CallAnalysis
upsert_analysis new [] = new ∷ []
upsert_analysis new (a ∷ rest) =
    let rest' = upsert_analysis new rest in
    if str_eq a.call_id new.call_id then new ∷ rest else a ∷ rest'

abbrev pub row_of : String → Analysis → CallAnalysis
row_of call_id a = record {
  call_id = call_id;
  summary = a.summary;
  intent = a.intent;
  sentiment = a.sentiment;
  qa_score = a.qa_score;
  action_items = a.action_items;
  model = a.model;
}

module _ (model_validate : Json → Option AnalysisPayload) where
  abbrev payload_or_failed : Option AnalysisPayload → AnalysisPayload
  payload_or_failed none = failed_analysis
  payload_or_failed (some p) = p

  -- The loop over the blocks
  unfoldable first_tool_use : Items → Result AnalysisPayload
  unfolding is_tool_use get_or
  first_tool_use nil = ok failed_analysis
  first_tool_use (cons block rest) =
      let later = first_tool_use rest in
      is_tool_use block >>= λ used.
      if used
      then (get_or "input" (obj end) block >>= λ input.
          ok (payload_or_failed (model_validate input)))
      else later

  -- What `call_claude` makes of the answer.
  unfoldable payload_of : Sent → Result AnalysisPayload
  unfolding iterate first_tool_use get_or
  payload_of (raised e) = ok failed_analysis
  payload_of (crashed e) = err e
  payload_of (returned r) =
      if leb 400 r.status_code
      then ok failed_analysis
      else (body_of r >>= λ body. get_or "content" (arr nil) body >>= λ content.
          iterate content >>= λ blocks. first_tool_use blocks)

  module _ (fl : FloatOps) {S : Type 0} (io : Outside fl.F S) (client : Text → S → Exchange × S)
      (settings : AnalysisSettings) where
    -- `call_claude`
    unfoldable pub call_claude : Text → S → Result AnalysisPayload × S
    unfolding prompt_of payload_of
    call_claude transcript world =
        if is_blank settings.anthropic_api_key || is_empty (strip transcript)
        then (ok failed_analysis, world)
        else (let (sent, world') =
              request_with_retry_sync fl io (client (prompt_of transcript)) background world in
            (payload_of sent, world'))

    -- The `Analysis` of a payload
    unfoldable pub analysis_of : AnalysisPayload → Analysis
    analysis_of raw = record {
      summary = take 4000 raw.summary;
      intent = raw.intent;
      sentiment = raw.sentiment;
      qa_score = max_ℤ (pos 0) (min_ℤ (pos 100) raw.qa_score);
      action_items = raw.action_items;
      model = settings.anthropic_analysis_model;
    }

    -- `analyze`
    unfoldable pub analyze : String → Store × S → Result Analysis × (Store × S)
    unfolding call_claude analysis_of turns_of upsert_analysis format_transcript
    analyze call_id (store, world) = elim (get_call call_id store) [
      | none ↦ (err lookup_error, (store, world))
      | some call ↦
          let (raw, world') =
            call_claude (format_transcript (turns_of call_id store.turns)) world in
          elim raw [
            | err e ↦ (err e, (store, world'))
            | ok payload ↦ (
              ok (analysis_of payload),
              (
                record store {
                  analyses = upsert_analysis (row_of call_id (analysis_of payload)) store.analyses;
                },
                world',
              ),
            )
          ]
    ]
