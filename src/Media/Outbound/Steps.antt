-- ===== src/Media/Outbound/Steps.antt =====
-- The tasks of a call take turns at their awaits. Audio, items and cuts are handled by `_pump_openai`,
-- one at a time, so that none of them starts before a cut is through; marks come by `_pump_twilio`, and
-- `_pump_outbound` goes on whatever the others do.
use revenue_recovery_voice_a.Base.{
  Option, String, Text, FloatOps, ◌≡◌, ℤ, refl, Bool-cases, inl, inr, is_empty, ◌+◌,
}
use revenue_recovery_voice_a.Telephony.Sms.{is_blank}
use revenue_recovery_voice_a.Media.Outbound.{
  OutboundAudio, Line, waiting, sending_media, sending_mark, ready, send_audio, pump_take,
  pump_mark, pump_done, barge_in_cut, safety_cut, cut_next, enqueue, b64_decoded_size, on_mark,
  on_item,
}

module _ (fl : FloatOps) where
  open fl use {F}

  -- One step of one task.
  pub data Step (l : Line F) : Line F → Type 0 where
    audio : (delta : Text) → l.cut ≡ ready → Step l (send_audio delta l)
    item_started : (item_id : String) → l.cut ≡ ready → Step l (on_item item_id l)
    speech_started : (stream_sid : String) → l.cut ≡ ready → Step l (barge_in_cut fl stream_sid l)
    safety : (stream_sid : String) → l.cut ≡ ready → Step l (safety_cut fl stream_sid l)
    cut_on : Step l (cut_next l.cut l)
    acked : (name : String) → Step l (on_mark name l)
    stream_started : (stream_sid : String) → Step l (record l { stream_sid = stream_sid })
    clock :
        (start : Option F) (latency : Option ℤ)
        → Step l (record l { pending_response_start = start; first_audio_latency_ms = latency })
    taken : l.pump ≡ waiting → Step l (pump_take l.outbound l)
    marked : (item : OutboundAudio) → l.pump ≡ sending_media item → Step l (pump_mark item l)
    written :
        (now : F) (item : OutboundAudio)
        → l.pump ≡ sending_mark item
        → Step l (pump_done fl now item l)

  -- What a run of the tasks comes to.
  pub data Reach (l : Line F) : Line F → Type 0 where
    here : Reach l l
    next : {m n : Line F} → Reach l m → Step m n → Reach l n

-- A property that holds before `_send_audio` and after it queued an item.
pub send_audio-cases {ℓ} :
    {F : Type 0} (P : Line F → Type ℓ) (delta : Text) (l : Line F)
    → P l
    → ((item : OutboundAudio)
        → item.payload_b64 ≡ delta
        → item.decoded_bytes ≡ b64_decoded_size delta
        → P (enqueue item (record l { mark_seq = l.mark_seq + 1 })))
    → P (send_audio delta l)
unfolding send_audio
send_audio-cases P delta l unchanged changed = elim (Bool-cases (is_empty delta)) [
  | inl nothing ↦ rw (nothing, send_audio) unchanged
  | inr some_audio ↦ elim (Bool-cases (is_blank l.stream_sid)) [
    | inl early ↦ rw (some_audio, send_audio) (rw early unchanged)
    | inr streaming ↦ rw (some_audio, send_audio) (rw streaming (changed _ refl refl))
  ]
]
