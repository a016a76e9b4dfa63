-- ===== src/Media/BargeIn/Cut.antt =====
-- `apps/api/media/barge_in.py`: what a barge-in tells the model, and what it leaves.
use revenue_recovery_voice_a.Base.{
  Bool, true, false, List, [], ◌∷◌, ◌++◌, Option, none, some, String, ℤ, pos, ◌≤ℤ◌, ◌-ℤ◌, FloatOps,
  ◌≡◌, refl, ap, ◌∙◌, arith, int_laws, All, if◌then◌else◌, Bool-cases, inl, inr,
}
use revenue_recovery_voice_a.Media.Ledger.{
  Ledger, begin_new_item, played_ms_for_current_item, queued_ms_for_current_item, unplayed_ms,
  bytes_to_ms, outstanding_marks,
}
use revenue_recovery_voice_a.Media.Ledger.Invariant.{IsConsistent}
use revenue_recovery_voice_a.Media.Ledger.Acks.{ack_all, acks_after_reset}
use revenue_recovery_voice_a.Media.Ledger.Millis.{played_ms-le-queued_ms, bytes_to_ms_seconds}
use revenue_recovery_voice_a.Media.BargeIn.{
  BargeInResult, Send, clear, response_cancel, item_truncate, barge_in_event, is_positive,
  truncation, on_speech_started,
}

module _ (fl : FloatOps) where
  open fl use {F}

  -- A truncation names the item in flight and a positive time that was handed over to Twilio.
  abbrev pub IsTruthful : Ledger → Send F → Type 0
  IsTruthful l (item_truncate item ms) =
      (l.current_item_id ≡ some item) × (pos 1 ≤ℤ ms) × (ms ≤ℤ queued_ms_for_current_item fl l)
  IsTruthful l _ = Unit

  truncation-IsTruthful :
      (item : Option String) (ms : ℤ) (l : Ledger) (rest : List (Send F))
      → l.current_item_id ≡ item
      → ms ≤ℤ queued_ms_for_current_item fl l
      → All (IsTruthful l) rest
      → All (IsTruthful l) (truncation fl item ms ++ rest)
  unfolding truncation
  truncation-IsTruthful none ms l rest same below h = h
  truncation-IsTruthful (some item) ms l rest same below h = elim (Bool-cases (is_positive ms)) [
    | inl positive ↦ rw positive ((same, ground (arith, positive), below), h)
    | inr none_heard ↦ rw none_heard h
  ]

  event-IsTruthful :
      (emits : Bool) (r : BargeInResult F) (l : Ledger)
      → All (IsTruthful l) (if emits then barge_in_event r ∷ [] else [])
  event-IsTruthful true r l = (tt, tt)
  event-IsTruthful false r l = tt

  -- On a consistent ledger, a barge-in truncates no item but the one in flight, at a positive time
  -- that is at most what was queued of it.
  pub cut-IsTruthful :
      (emits : Bool) (stream_sid : String) (cutoff_ms : F) (l : Ledger)
      → IsConsistent l
      → All (IsTruthful l) (on_speech_started fl emits stream_sid cutoff_ms l).1
  unfolding on_speech_started
  cut-IsTruthful emits stream_sid cutoff_ms l h = (
    tt,
    (
      tt,
      truncation-IsTruthful l.current_item_id (played_ms_for_current_item fl l) l _ refl
          (played_ms-le-queued_ms fl l h).1 (event-IsTruthful emits _ l),
    ),
  )

  unplayed_ms-begin_new_item : (l : Ledger) → unplayed_ms fl (begin_new_item none l) ≡ pos 0
  unfolding unplayed_ms begin_new_item
  unplayed_ms-begin_new_item l =
      let nothing : l.played_bytes -ℤ l.played_bytes ≡ pos 0 = omega int_laws in
      ap (bytes_to_ms fl) nothing ∙ bytes_to_ms_seconds fl 0 (omega arith)

  -- After a barge-in, whatever was playing and whichever acknowledgements of the flushed audio still
  -- arrive, another one sends the flush and the cancellation and truncates nothing: nothing is
  -- unplayed, no mark is outstanding, and the ledger stays as the first one left it.
  barge_in_twice :
      (emits : Bool) (stream_sid : String) (cutoff_ms cutoff_ms' : F) (late : List String)
      (l : Ledger)
      → let l' = ack_all late (on_speech_started fl emits stream_sid cutoff_ms l).2 in
        ((on_speech_started fl false stream_sid cutoff_ms' l').1
          ≡ clear stream_sid ∷ response_cancel ∷ [])
        × ((on_speech_started fl false stream_sid cutoff_ms' l').0.discarded_ms ≡ pos 0)
        × ((on_speech_started fl false stream_sid cutoff_ms' l').2
            ≡ (on_speech_started fl emits stream_sid cutoff_ms l).2)
        × (outstanding_marks l' ≡ 0)
  unfolding on_speech_started truncation begin_new_item outstanding_marks
  barge_in_twice emits stream_sid cutoff_ms cutoff_ms' late l =
      rw (acks_after_reset late none l) (refl, unplayed_ms-begin_new_item l, refl, refl)
