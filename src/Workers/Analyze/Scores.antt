-- ===== src/Workers/Analyze/Scores.antt =====
-- `apps/api/workers/analyze.py` against the table of analyses: scores are percentages, a call has one
-- analysis, and the last one stands.
use revenue_recovery_voice_a.Base.{
  ℕ, suc, zero, ◌≤◌, ◌≡◌, refl, List, [], ◌∷◌, Option, none, some, String, str_eq, eq_iff, Text,
  take, length, pos, ◌≤ℤ◌, Json, FloatOps, Result, ok, err, Result-cases, Option-cases, Bool-cases,
  inl, inr, arith, if◌then◌else◌,
}
use mathlib.Core.Path.{subst}
use revenue_recovery_voice_a.Metrics.{min_ℤ}
use revenue_recovery_voice_a.Resilience.{Exchange, Outside}
use revenue_recovery_voice_a.Store.{Store, CallAnalysis, get_call}
use revenue_recovery_voice_a.Workers.CrmSync.{find_analysis}
use revenue_recovery_voice_a.Workers.Analyze.{
  AnalysisPayload, Analysis, AnalysisSettings, format_transcript, call_claude, analysis_of,
  turns_of, upsert_analysis, row_of, analyze,
}

-- What the check constraint of the table asks of a row, and the length of its summary.
pub record IsScored (a : CallAnalysis) : Type 0 where
  pub at_least : pos 0 ≤ℤ a.qa_score
  pub at_most : a.qa_score ≤ℤ pos 100
  pub short : length a.summary ≤ 4000

-- Every row is scored, and no call has two.
abbrev pub IsSound : List CallAnalysis → Type 0
IsSound [] = Unit
IsSound (a ∷ rest) = IsScored a × (find_analysis a.call_id rest ≡ none) × IsSound rest

length-take : (n : ℕ) (s : Text) → length (take n s) ≤ n
length-take zero s = omega arith
length-take (suc n) [] = omega arith
length-take (suc n) (c ∷ s) = omega (arith, length-take n s)

find_analysis-upsert :
    (new : CallAnalysis) (j : String) (rows : List CallAnalysis)
    → find_analysis j (upsert_analysis new rows)
      ≡ (if str_eq new.call_id j then some new else find_analysis j rows)
unfolding find_analysis upsert_analysis
find_analysis-upsert new j [] = ground arith
find_analysis-upsert new j (a ∷ rest) = ground (
  arith,
  find_analysis-upsert new j rest,
  eq_iff a.call_id new.call_id,
  eq_iff a.call_id j,
  eq_iff new.call_id j,
)

upsert_analysis-IsSound :
    (new : CallAnalysis) (rows : List CallAnalysis)
    → IsScored new
    → IsSound rows
    → IsSound (upsert_analysis new rows)
unfolding upsert_analysis find_analysis
upsert_analysis-IsSound new [] scored h = (scored, refl, tt)
upsert_analysis-IsSound new (a ∷ rest) scored h = elim (Bool-cases (str_eq a.call_id new.call_id)) [
  | inl same ↦ rw same (
    scored,
    subst (λ (i : String). find_analysis i rest ≡ none) ((eq_iff a.call_id new.call_id).0 same) h.1,
    h.2,
  )
  | inr differ ↦ rw differ (
    h.0,
    ground (
      arith,
      find_analysis-upsert new a.call_id rest,
      eq_iff a.call_id new.call_id,
      eq_iff new.call_id a.call_id,
      h.1,
    ),
    upsert_analysis-IsSound new rest scored h.2,
  )
]

-- The analysis of a call after a run on it.
abbrev after_run : String → Result Analysis → Option CallAnalysis → Option CallAnalysis
after_run call_id (ok a) before = some (row_of call_id a)
after_run call_id (err e) before = before

module _ (model_validate : Json → Option AnalysisPayload) (fl : FloatOps) {S : Type 0}
    (io : Outside fl.F S) (client : Text → S → Exchange × S) (settings : AnalysisSettings) where
  analysis_of-IsScored :
      (call_id : String) (raw : AnalysisPayload)
      → IsScored (row_of call_id (analysis_of model_validate fl io client settings raw))
  unfolding analysis_of min_ℤ
  analysis_of-IsScored call_id raw = record {
    at_least = ground arith;
    at_most = ground arith;
    short = length-take 4000 raw.summary;
  }

  -- Whatever the model answers, and however often calls are analysed again: in the table of analyses
  -- every score stays between 0 and 100, every summary stays within 4000 characters, and no call gets a
  -- second row.
  pub analyze-IsSound :
      (call_id : String) (s : Store) (w : S)
      → IsSound s.analyses
      → IsSound (analyze model_validate fl io client settings call_id (s, w)).1.0.analyses
  unfolding analyze
  analyze-IsSound call_id s w h = elim (Option-cases (get_call call_id s)) [
    | inl absent ↦ rw (absent, analyze) h
    | inr (call, present) ↦
        let asked =
          call_claude model_validate fl io client settings
            (format_transcript (turns_of call_id s.turns)) w in
        elim (Result-cases asked.0) [
          | inl (raw, answered) ↦
              rw (present, analyze)
                (rw answered (
                  upsert_analysis-IsSound
                    (row_of call_id (analysis_of model_validate fl io client settings raw))
                    s.analyses (analysis_of-IsScored call_id raw) h))
          | inr (e, raised) ↦ rw (present, analyze) (rw raised h)
        ]
  ]

  -- The analysis that a run returns stands in the table for its call, where a run that raises leaves the
  -- one before, and the analyses of all other calls are as they were.
  pub analyze-stores :
      (call_id j : String) (s : Store) (w : S)
      → find_analysis j (analyze model_validate fl io client settings call_id (s, w)).1.0.analyses
        ≡ (if str_eq call_id j
            then after_run call_id
                (analyze model_validate fl io client settings call_id (s, w)).0
                (find_analysis j s.analyses)
            else find_analysis j s.analyses)
  unfolding analyze
  analyze-stores call_id j s w = elim (Option-cases (get_call call_id s)) [
    | inl absent ↦ rw (absent, analyze) (ground arith)
    | inr (call, present) ↦
        let asked =
          call_claude model_validate fl io client settings
            (format_transcript (turns_of call_id s.turns)) w in
        elim (Result-cases asked.0) [
          | inl (raw, answered) ↦
              rw (present, analyze)
                (rw answered (
                  find_analysis-upsert
                    (row_of call_id (analysis_of model_validate fl io client settings raw)) j
                    s.analyses))
          | inr (e, raised) ↦ rw (present, analyze) (rw raised (ground arith))
        ]
  ]
