-- ===== src/Media/BargeIn.antt =====
-- `apps/api/media/barge_in.py`: the caller interrupts. What is sent is a list in the order of the
-- sends; the float `cutoff_ms` of the clock is a parameter.
pub mod Cut
use revenue_recovery_voice_a.Base.{
  Bool, true, false, not, ◌&&◌, List, [], ◌∷◌, ◌++◌, Option, none, some, String, ℤ, pos, leb_ℤ,
  is_some, FloatOps, if◌then◌else◌,
}
use revenue_recovery_voice_a.Media.Ledger.{
  Ledger, begin_new_item, played_ms_for_current_item, unplayed_ms,
}

-- `BargeInResult`
pub record BargeInResult (F : Type 0) : Type 0 where
  pub truncated : Bool
  pub item_id : Option String
  pub audio_end_ms : ℤ
  pub cutoff_ms : F
  pub discarded_ms : ℤ

-- The sends to Twilio and to the model, and the event.
pub data Send (F : Type 0) : Type 0 where
  clear : String → Send F
  response_cancel : Send F
  item_truncate : String → ℤ → Send F
  barge_in_event : BargeInResult F → Send F

-- `audio_end_ms > 0`
abbrev pub is_positive : ℤ → Bool
is_positive n = not (leb_ℤ n (pos 0))

module _ (fl : FloatOps) where
  open fl use {F}

  -- The send of `conversation.item.truncate`, under its test.
  unfoldable pub truncation : Option String → ℤ → List (Send F)
  truncation none audio_end_ms = []
  truncation (some item_id) audio_end_ms =
      if is_positive audio_end_ms then item_truncate item_id audio_end_ms ∷ [] else []

  -- `on_speech_started`; `emits` is `self._emit_event is not None`
  unfoldable pub on_speech_started :
      Bool → String → F → Ledger → BargeInResult F × List (Send F) × Ledger
  unfolding truncation
  on_speech_started emits stream_sid cutoff_ms ledger =
      let audio_end_ms = played_ms_for_current_item fl ledger in
      let item_id = ledger.current_item_id in
      let result : BargeInResult F = record {
        truncated = is_some item_id && is_positive audio_end_ms;
        item_id = item_id;
        audio_end_ms = audio_end_ms;
        cutoff_ms = cutoff_ms;
        discarded_ms = unplayed_ms fl ledger;
      } in
      (
        result,
        clear stream_sid
            ∷ response_cancel
            ∷ (truncation item_id audio_end_ms
                ++ (if emits then barge_in_event result ∷ [] else [])),
        begin_new_item none ledger,
      )
