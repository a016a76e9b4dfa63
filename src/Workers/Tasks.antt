-- ===== src/Workers/Tasks.antt =====
-- `apps/api/workers/tasks.py`: the Celery tasks around the workers. A task that raises commits nothing
-- and is retried after a countdown; the soft time limit is not modelled.
pub mod Chain
use revenue_recovery_voice_a.Base.{
  ℕ, Bool, true, false, List, [], ◌∷◌, Option, none, some, String, Text, ℤ, Exc, lookup_error,
  FloatOps, Result, ok, err,
}
use revenue_recovery_voice_a.Resilience.{Outside, celery_countdown}
use revenue_recovery_voice_a.Store.{Store}
use revenue_recovery_voice_a.Tools.Crm.{Reply, got, refused, threw}
use revenue_recovery_voice_a.Workers.Analyze.{Analysis}

-- `MAX_RETRIES`
abbrev max_retries : ℕ
max_retries = 3

-- How a task ends: with a result, for a call that is not there, or with `self.retry`.
pub data TaskEnd {ℓ} (A : Type ℓ) : Type ℓ where
  done : A → TaskEnd A
  unknown_call : TaskEnd A
  retry : (countdown : ℕ) → TaskEnd A

-- The `except` clauses: `LookupError` ends the task, all else is retried.
abbrev pub is_lookup : Exc → Bool
is_lookup lookup_error = true
is_lookup _ = false

-- The result of `store_recording`
pub data RecordingStatus : Type 0 where
  stored rejected_no_consent : RecordingStatus

module _ (fl : FloatOps) {S : Type 0} (io : Outside fl.F S) where
  -- `self.retry`, in the store from before the session
  unfoldable pub retry_task {ℓ} :
      {A : Type ℓ} → (retries base_seconds : ℕ) → Store × S → TaskEnd A × (Store × S)
  retry_task retries base_seconds (store, world) =
      let (countdown, world') = celery_countdown fl io retries base_seconds 600 world in
      (retry countdown, (store, world'))

  -- The `except` clauses of a task.
  unfoldable pub handle {ℓ} :
      {A : Type ℓ} → Exc → (retries base_seconds : ℕ) → Store × S → TaskEnd A × (Store × S)
  unfolding retry_task
  handle e retries base_seconds w =
      let later = retry_task retries base_seconds w in
      elim (is_lookup e) [ true ↦ (unknown_call, w) | false ↦ later ]

  -- `analyze_call`, with the ids that `sync_crm.delay` is called with
  unfoldable pub analyze_call :
      (String → Store × S → Result Analysis × (Store × S))
      → ℕ
      → String
      → Store × S
      → TaskEnd Analysis × (List String × (Store × S))
  unfolding handle
  analyze_call analyze retries call_id (store, world) =
      let (result, (store', world')) = analyze call_id (store, world) in
      elim result [
        | ok analysis ↦ (done analysis, (call_id ∷ [], (store', world')))
        | err e ↦ let (end, w) = handle e retries 10 (store, world') in (end, ([], w))
      ]

  -- `sync_crm`
  unfoldable pub sync_crm :
      (String → Store × S → Reply (Option Text) × (Store × S))
      → ℕ
      → String
      → Store × S
      → TaskEnd (Option Text) × (Store × S)
  unfolding handle retry_task
  sync_crm sync_call retries call_id (store, world) =
      let (reply, (store', world')) = sync_call call_id (store, world) in
      elim reply [
        | got crm_id ↦ (done crm_id, (store', world'))
        | refused e ↦ retry_task retries 30 (store, world')
        | threw e ↦ handle e retries 30 (store, world')
      ]

  -- `store_recording`
  unfoldable pub store_recording :
      (String → Store × S → Result Bool × (Store × S))
      → ℕ
      → String
      → Store × S
      → TaskEnd RecordingStatus × (Store × S)
  unfolding handle
  store_recording store_call retries call_id (store, world) =
      let (result, (store', world')) = store_call call_id (store, world) in
      elim result [
        | ok is_stored ↦ (
          done (elim is_stored [ true ↦ stored | false ↦ rejected_no_consent ]),
          (store', world'),
        )
        | err e ↦ handle e retries 20 (store, world')
      ]
