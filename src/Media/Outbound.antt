-- ===== src/Media/Outbound.antt =====
-- The audio of `apps/api/media/bridge.py` on its way to Twilio: the bounded queue, the pump that writes
-- it and the cut of a barge-in. Each function is the part of a coroutine between two of its awaits, and
-- a write happens when its send is called. `log` records what happened, the latest entry first.
pub mod Steps
pub mod Fresh
pub mod Accounts
pub mod Base64
use revenue_recovery_voice_a.Base.{
  ℕ, ◌+◌, ◌-◌, ◌*◌, ◌/◌, Bool, true, false, List, [], ◌∷◌, ◌++◌, Option, none, some, String, Text,
  codes, str_int, ◌<>◌, length, drop, ltb, ◌==◌, ℤ, pos, ◌-ℤ◌, is_some, is_empty, FloatOps,
  if◌then◌else◌, ◌&&◌,
}
use revenue_recovery_voice_a.Telephony.Sms.{is_blank}
use revenue_recovery_voice_a.Media.Ledger.{
  Ledger, new_ledger, on_chunk_sent, on_mark_ack, on_item_started, begin_new_item,
  played_ms_for_current_item, unplayed_ms,
}
use revenue_recovery_voice_a.Media.BargeIn.{is_positive}

-- `OUTBOUND_QUEUE_MAX`
abbrev pub outbound_queue_max : ℕ
outbound_queue_max = 200

-- `OutboundAudio`
pub record OutboundAudio : Type 0 where
  pub mark_name : String
  pub payload_b64 : Text
  pub decoded_bytes : ℤ

-- `payload.count("=", -2)`
unfoldable pub padding : Text → ℕ
padding [] = 0
padding (c ∷ s) = (if c == b'=' then 1 else 0) + padding s

abbrev pub last_two : Text → Text
last_two payload = drop (length payload - 2) payload

-- `_b64_decoded_size`
unfoldable pub b64_decoded_size : Text → ℤ
unfolding padding
b64_decoded_size payload =
    if is_empty payload
    then pos 0
    else pos (length payload / 4 * 3) -ℤ pos (padding (last_two payload))

-- What happens to the audio: an item is queued, dropped by a full queue, discarded by a barge-in,
-- written to Twilio and followed by its mark. A flush of Twilio's buffer says whether the queue was
-- discarded before it.
pub data Entry : Type 0 where
  queued : OutboundAudio → Entry
  dropped : OutboundAudio → Entry
  discarded : OutboundAudio → Entry
  media : String → OutboundAudio → Entry
  mark : String → String → Entry
  clear : String → Bool → Entry
  response_cancel : Entry
  item_truncate : String → ℤ → Entry

-- Where `_pump_outbound` awaits: the queue, or one of its two sends.
pub data Pump : Type 0 where
  waiting : Pump
  sending_media : OutboundAudio → Pump
  sending_mark : OutboundAudio → Pump

-- What `on_speech_started` has read when it sends.
pub record Reading : Type 0 where
  pub item_id : Option String
  pub audio_end_ms : ℤ
  pub discarded_ms : ℤ

-- Where a cut awaits: after the flush, after the cancellation, after the truncation.
pub data Cut : Type 0 where
  ready : Cut
  clearing : Reading → Cut
  cancelling : Reading → Cut
  truncating : Reading → Cut

-- The part of `MediaBridge` that the audio uses.
pub record Line (F : Type 0) : Type 0 where
  pub stream_sid : String
  pub mark_seq : ℕ
  pub outbound : List OutboundAudio
  pub pump : Pump
  pub cut : Cut
  pub ledger : Ledger
  pub frames_to_caller : ℕ
  pub frames_dropped : ℕ
  pub marks_sent : ℕ
  pub marks_acked : ℕ
  pub pending_response_start : Option F
  pub first_audio_latency_ms : Option ℤ
  pub log : List Entry

-- The log of the items that a barge-in discards, in their order.
unfoldable pub log_discarded : List OutboundAudio → List Entry → List Entry
log_discarded [] log = log
log_discarded (item ∷ rest) log = log_discarded rest (discarded item ∷ log)

-- The test of the truncation, and its send.
unfoldable pub log_truncation : Option String → ℤ → List Entry → List Entry
log_truncation none audio_end_ms log = log
log_truncation (some item_id) audio_end_ms log =
    if is_positive audio_end_ms then item_truncate item_id audio_end_ms ∷ log else log

module _ {F : Type 0} where
  -- The line that `MediaBridge.__init__` makes.
  unfoldable pub new_line : Line F
  unfolding new_ledger
  new_line = record {
    stream_sid = "";
    mark_seq = 0;
    outbound = [];
    pump = waiting;
    cut = ready;
    ledger = new_ledger;
    frames_to_caller = 0;
    frames_dropped = 0;
    marks_sent = 0;
    marks_acked = 0;
    pending_response_start = none;
    first_audio_latency_ms = none;
    log = [];
  }

  -- `put_nowait`, `none` standing for `QueueFull`
  unfoldable pub put_nowait : OutboundAudio → Line F → Option (Line F)
  put_nowait item l =
      if ltb (length l.outbound) outbound_queue_max
      then some (record l { outbound = l.outbound ++ (item ∷ []); log = queued item ∷ l.log })
      else none

  -- `get_nowait` and `task_done` with `QueueEmpty` suppressed, for the oldest item.
  unfoldable pub drop_oldest : List OutboundAudio → Line F → Line F
  drop_oldest [] l = l
  drop_oldest (item ∷ rest) l = record l { outbound = rest; log = dropped item ∷ l.log }

  -- The `except asyncio.QueueFull` of `_send_audio`.
  unfoldable pub make_room : OutboundAudio → Line F → Line F
  unfolding put_nowait drop_oldest
  make_room item l =
      let l' = record (drop_oldest l.outbound l) {
        frames_dropped = (drop_oldest l.outbound l).frames_dropped + 1;
      } in
      elim (put_nowait item l') [ none ↦ l' | some l'' ↦ l'' ]

  -- The `try` of `_send_audio`.
  unfoldable pub enqueue : OutboundAudio → Line F → Line F
  unfolding put_nowait make_room
  enqueue item l = elim (put_nowait item l) [ none ↦ make_room item l | some l' ↦ l' ]

  -- `_send_audio`
  unfoldable pub send_audio : Text → Line F → Line F
  unfolding enqueue
  send_audio delta_b64 l =
      if is_empty delta_b64
      then l
      else if is_blank l.stream_sid
      then l
      else let l' = record l { mark_seq = l.mark_seq + 1 } in
        let item : OutboundAudio = record {
          mark_name = "m" <> str_int (pos (l.mark_seq + 1));
          payload_b64 = delta_b64;
          decoded_bytes = b64_decoded_size delta_b64;
        } in
        enqueue item l'

  -- `_pump_outbound` from `get` to the send of the frame.
  unfoldable pub pump_take : List OutboundAudio → Line F → Line F
  pump_take [] l = l
  pump_take (item ∷ rest) l = record l {
    outbound = rest;
    pump = sending_media item;
    log = media l.stream_sid item ∷ l.log;
  }

  -- The send of the mark.
  unfoldable pub pump_mark : OutboundAudio → Line F → Line F
  pump_mark item l = record l {
    pump = sending_mark item;
    log = mark l.stream_sid item.mark_name ∷ l.log;
  }

  -- `_discard_queued_audio`
  unfoldable pub discard_queued_audio : Line F → ℕ × Line F
  unfolding log_discarded
  discard_queued_audio l =
      (length l.outbound, record l { outbound = []; log = log_discarded l.outbound l.log })

  -- `on_mark_ack` under its test in `_pump_twilio`.
  unfoldable pub on_mark : String → Line F → Line F
  on_mark name l =
      let (ledger, known) = on_mark_ack name l.ledger in
      record l { ledger = ledger; marks_acked = if known then l.marks_acked + 1 else l.marks_acked }

  -- `on_item_started` of the ledger
  unfoldable pub on_item : String → Line F → Line F
  on_item item_id l = record l { ledger = on_item_started item_id l.ledger }

  -- The later parts of `on_speech_started`, each up to its next await.
  unfoldable pub cut_next : Cut → Line F → Line F
  unfolding log_truncation
  cut_next ready l = l
  cut_next (clearing r) l = record l { cut = cancelling r; log = response_cancel ∷ l.log }
  cut_next (cancelling r) l = record l {
    cut = truncating r;
    log = log_truncation r.item_id r.audio_end_ms l.log;
  }
  cut_next (truncating r) l = record l { cut = ready; ledger = begin_new_item none l.ledger }

module _ (fl : FloatOps) where
  open fl use {F, of_int, sub, mul, trunc}

  -- `int((time.perf_counter() - start) * 1000)`
  abbrev pub millis_since : F → F → ℤ
  millis_since start now = trunc (mul (sub now start) (of_int (pos 1000)))

  unfoldable first_latency : Option F → Option ℤ → F → Option ℤ
  first_latency (some start) none now = some (millis_since start now)
  first_latency _ latency now = latency

  -- What `_pump_outbound` does after its two sends; `now` is its read of the clock.
  unfoldable pub pump_done : F → OutboundAudio → Line F → Line F
  unfolding first_latency
  pump_done now item l = record l {
    pump = waiting;
    ledger = on_chunk_sent item.mark_name item.decoded_bytes l.ledger;
    first_audio_latency_ms = first_latency l.pending_response_start l.first_audio_latency_ms now;
    frames_to_caller = l.frames_to_caller + 1;
    marks_sent = l.marks_sent + 1;
  }

  -- `on_speech_started` up to its flush, on the stream of the controller.
  unfoldable pub start_cut : String → Bool → Line F → Line F
  start_cut stream_sid emptied l = record l {
    cut = clearing (record {
      item_id = l.ledger.current_item_id;
      audio_end_ms = played_ms_for_current_item fl l.ledger;
      discarded_ms = unplayed_ms fl l.ledger;
    });
    log = clear stream_sid emptied ∷ l.log;
  }

  -- `_on_barge_in` up to the flush, where a stream has started.
  unfoldable pub barge_in_cut : String → Line F → Line F
  unfolding discard_queued_audio start_cut
  barge_in_cut stream_sid l = start_cut stream_sid true (discard_queued_audio l).1

  -- The cut of `_check_escalation` up to the flush.
  unfoldable pub safety_cut : String → Line F → Line F
  unfolding start_cut
  safety_cut stream_sid l = start_cut stream_sid false l
