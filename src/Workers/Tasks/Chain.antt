-- ===== src/Workers/Tasks/Chain.antt =====
-- `apps/api/workers/tasks.py` around the workers: what the task `calls.analyze` queues, and which calls
-- the task `calls.sync_crm` takes for unknown.
use revenue_recovery_voice_a.Base.{
  ℕ, zero, suc, ◌≡◌, refl, List, [], ◌∷◌, Option, none, some, String, eq_iff, Text, codes, strip,
  strip_of, is_space, drop_while, Json, FloatOps, err, lookup_error, Result-cases, Bool-cases, inl,
  inr, arith,
}
use mathlib.Core.Path.{subst, sym}
use revenue_recovery_voice_a.Resilience.{Exchange, Outside, RetryPolicy}
use revenue_recovery_voice_a.Store.{Store, Call, CallAnalysis, get_call}
use revenue_recovery_voice_a.Tools.Crm.{
  CrmContact, got, threw, find_by_phone, upsert_contact, upsert_found, hubspot_crm,
}
use revenue_recovery_voice_a.Tools.CrmRequests.{Ask, split_name, words, words_from, name_parts}
use revenue_recovery_voice_a.Workers.Analyze.{
  AnalysisPayload, Analysis, AnalysisSettings, analyze, row_of,
}
use revenue_recovery_voice_a.Workers.Analyze.Scores.{analyze-stores}
use revenue_recovery_voice_a.Workers.CrmSync.{find_analysis, name_of, sync_call}
use revenue_recovery_voice_a.Workers.Tasks.{
  TaskEnd, done, unknown_call, is_lookup, handle, retry_task, analyze_call, sync_crm,
}

-- The CRM syncs that a task which ended so has queued.
abbrev pub syncs : String → TaskEnd Analysis → List String
syncs call_id (done a) = call_id ∷ []
syncs call_id _ = []

-- The analysis of the call after a task that ended so.
abbrev pub analysis_after : String → TaskEnd Analysis → Option CallAnalysis → Option CallAnalysis
analysis_after call_id (done a) before = some (row_of call_id a)
analysis_after call_id _ before = before

module _ (model_validate : Json → Option AnalysisPayload) (fl : FloatOps) {S : Type 0}
    (io : Outside fl.F S) (client : Text → S → Exchange × S) (settings : AnalysisSettings) where
  -- The task queues the sync of its call exactly if it ends with an analysis, which then stands in the
  -- table for the call; if it ends for an unknown call or in a retry, then it queues nothing and the
  -- call's analysis is the one from before.
  pub analyze_call-chains :
      (retries : ℕ) (call_id : String) (s : Store) (w : S)
      → let run =
          analyze_call fl io
            (analyze model_validate fl io client settings)
            retries
            call_id
            (s, w) in
        (run.1.0 ≡ syncs call_id run.0)
        × (find_analysis call_id run.1.1.0.analyses
            ≡ analysis_after call_id run.0 (find_analysis call_id s.analyses))
  unfolding analyze_call handle retry_task
  analyze_call-chains retries call_id s w =
      let stored = analyze-stores model_validate fl io client settings call_id call_id s w in
      elim (Result-cases (analyze model_validate fl io client settings call_id (s, w)).0) [
        | inl (a, analysed) ↦
            rw (analysed, analyze_call)
              (refl, ground (arith, stored, analysed, eq_iff call_id call_id))
        | inr (e, raised) ↦ elim (Bool-cases (is_lookup e)) [
          | inl missing ↦ rw (raised, analyze_call) (rw (missing, handle) (refl, refl))
          | inr other ↦ rw (raised, analyze_call) (rw (other, handle) (refl, refl))
        ]
      ]

-- A text of spaces
abbrev pub spaces : ℕ → Text
spaces zero = []
spaces (suc n) = b' ' ∷ spaces n

drop_while-spaces : (n : ℕ) → drop_while is_space (spaces n) ≡ []
unfolding drop_while is_space
drop_while-spaces zero = refl
drop_while-spaces (suc n) = drop_while-spaces n

split_name-spaces : (n : ℕ) → split_name (some (spaces (suc n))) ≡ err lookup_error
unfolding split_name strip strip_of words words_from name_parts
split_name-spaces n = rw (drop_while-spaces (suc n)) refl

module _ (show : Json → Text) (fl : FloatOps) {S : Type 0} (io : Outside fl.F S)
    (client : Ask → S → Exchange × S) (policy : RetryPolicy) where
  upsert_contact_blank :
      (phone : Text) (n : ℕ) (existing : Option CrmContact) (w : S)
      → (find_by_phone show fl io client policy phone w).0 ≡ got existing
      → (upsert_contact show fl io client policy phone (some (spaces (suc n))) none w).0
        ≡ threw lookup_error
  unfolding upsert_contact upsert_found
  upsert_contact_blank phone n existing w answer =
      rw (answer, upsert_contact) (rw (split_name-spaces n, upsert_found) refl)

  sync_call_blank :
      (uuid call_id : String) (call : Call) (n : ℕ) (existing : Option CrmContact) (s : Store)
      (w : S)
      → get_call call_id s ≡ some call
      → name_of call.client_id call.from_e164 s.contacts ≡ some (spaces (suc n))
      → (find_by_phone show fl io client policy (codes call.from_e164) w).0 ≡ got existing
      → ((sync_call (hubspot_crm show fl io client policy) uuid call_id (s, w)).0
          ≡ threw lookup_error)
  unfolding sync_call hubspot_crm
  sync_call_blank uuid call_id call n existing s w found blank answer =
      let phone = codes call.from_e164 in
      let raised : (upsert_contact show fl io client policy phone
            (name_of call.client_id call.from_e164 s.contacts) none w).0
          ≡ threw lookup_error =
        subst
          (λ (o : Option Text).
            (upsert_contact show fl io client policy phone o none w).0 ≡ threw lookup_error)
          (sym blank) (upsert_contact_blank phone n existing w answer) in
      rw (found, sync_call) (rw raised refl)

  -- A call that is in the store, from a contact whose name consists of spaces, is taken for an unknown
  -- call by the task once the search of the CRM was answered: the task ends without a sync or a retry,
  -- and the store is as it was.
  pub sync_crm_blank_name :
      (uuid call_id : String) (call : Call) (n retries : ℕ) (existing : Option CrmContact)
      (s : Store) (w : S)
      → get_call call_id s ≡ some call
      → name_of call.client_id call.from_e164 s.contacts ≡ some (spaces (suc n))
      → (find_by_phone show fl io client policy (codes call.from_e164) w).0 ≡ got existing
      → let run =
          sync_crm fl io
            (sync_call (hubspot_crm show fl io client policy) uuid)
            retries
            call_id
            (s, w) in
        (run.0 ≡ unknown_call) × (run.1.0 ≡ s)
  unfolding sync_crm handle
  sync_crm_blank_name uuid call_id call n retries existing s w found blank answer =
      rw (sync_call_blank uuid call_id call n existing s w found blank answer, sync_crm)
        (refl, refl)
