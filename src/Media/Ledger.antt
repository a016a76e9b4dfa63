-- ===== src/Media/Ledger.antt =====
-- `apps/api/media/playback_ledger.py`: bytes queued to Twilio and bytes that it confirms played.
-- Byte counts are Python's integers; milliseconds go through floats, as in the source.
pub mod Invariant
pub mod Acks
pub mod Millis
use revenue_recovery_voice_a.Base.{
  ℕ, Bool, true, false, List, [], ◌∷◌, Option, none, some, String, Dict, lookup, insert, erase,
  length, ℤ, pos, ◌+ℤ◌, ◌-ℤ◌, leb_ℤ, max_ℤ, FloatOps, if◌then◌else◌,
}

pub record Ledger : Type 0 where
  pub marks : Dict ℤ
  pub played_bytes : ℤ
  pub queued_bytes : ℤ
  pub current_item_id : Option String
  pub item_start_offset : ℤ

-- `PlaybackLedger.__init__`
unfoldable pub new_ledger : Ledger
new_ledger = record {
  marks = [];
  played_bytes = pos 0;
  queued_bytes = pos 0;
  current_item_id = none;
  item_start_offset = pos 0;
}

-- `on_chunk_sent`
unfoldable pub on_chunk_sent : String → ℤ → Ledger → Ledger
on_chunk_sent mark_name payload_bytes l =
    let queued = l.queued_bytes +ℤ payload_bytes in
    record l { queued_bytes = queued; marks = insert mark_name queued l.marks }

-- The marks that `_prune` keeps, those beyond the played watermark.
unfoldable pub keep_beyond : ℤ → Dict ℤ → Dict ℤ
keep_beyond played [] = []
keep_beyond played ((name, cum) ∷ d) =
    let rest = keep_beyond played d in if leb_ℤ cum played then rest else (name, cum) ∷ rest

-- `_prune`
unfoldable pub prune : Ledger → Ledger
unfolding keep_beyond
prune l = record l { marks = keep_beyond l.played_bytes l.marks }

-- `on_mark_ack`
unfoldable pub on_mark_ack : String → Ledger → Ledger × Bool
on_mark_ack mark_name l = elim (lookup mark_name l.marks) [
  | none ↦ (l, false)
  | some cumulative ↦ (
    prune (record l {
      marks = erase mark_name l.marks;
      played_bytes = max_ℤ l.played_bytes cumulative;
    }),
    true,
  )
]

-- `on_item_started`
unfoldable pub on_item_started : String → Ledger → Ledger
on_item_started item_id l = record l {
  current_item_id = some item_id;
  item_start_offset = l.queued_bytes;
}

-- `begin_new_item`
unfoldable pub begin_new_item : Option String → Ledger → Ledger
begin_new_item item_id l = record l {
  marks = [];
  queued_bytes = l.played_bytes;
  item_start_offset = l.played_bytes;
  current_item_id = item_id;
}

-- `outstanding_marks`
unfoldable pub outstanding_marks : Ledger → ℕ
outstanding_marks l = length l.marks

-- `LedgerSnapshot`
record LedgerSnapshot : Type 0 where
  pub played_bytes : ℤ
  pub queued_bytes : ℤ
  pub outstanding_marks : ℕ
  pub current_item_id : Option String
  pub item_start_offset : ℤ

-- `snapshot`
unfoldable snapshot : Ledger → LedgerSnapshot
unfolding outstanding_marks
snapshot l = record {
  played_bytes = l.played_bytes;
  queued_bytes = l.queued_bytes;
  outstanding_marks = outstanding_marks l;
  current_item_id = l.current_item_id;
  item_start_offset = l.item_start_offset;
}

abbrev ulaw_bytes_per_second : ℕ
ulaw_bytes_per_second = 8000

module _ (fl : FloatOps) where
  open fl use {of_int, mul, div, trunc}

  -- `_bytes_to_ms`
  unfoldable pub bytes_to_ms : ℤ → ℤ
  bytes_to_ms num_bytes = max_ℤ (pos 0) (
      trunc (mul (div (of_int num_bytes) (of_int (pos ulaw_bytes_per_second))) (of_int (pos 1000))))

  -- `played_ms_for_current_item`
  unfoldable pub played_ms_for_current_item : Ledger → ℤ
  played_ms_for_current_item l = bytes_to_ms (l.played_bytes -ℤ l.item_start_offset)

  -- `queued_ms_for_current_item`
  unfoldable pub queued_ms_for_current_item : Ledger → ℤ
  queued_ms_for_current_item l = bytes_to_ms (l.queued_bytes -ℤ l.item_start_offset)

  -- `unplayed_ms`
  unfoldable pub unplayed_ms : Ledger → ℤ
  unplayed_ms l = bytes_to_ms (l.queued_bytes -ℤ l.played_bytes)

  -- `LedgerSnapshot.played_ms_for_current_item`
  unfoldable snapshot_played_ms : LedgerSnapshot → ℤ
  snapshot_played_ms s = bytes_to_ms (s.played_bytes -ℤ s.item_start_offset)
