-- ===== src/Media/Outbound/Accounts.antt =====
-- `apps/api/media/bridge.py`: the frames of the outbound queue and its counters.
use mathlib.Core.Path.{subst}
use revenue_recovery_voice_a.Base.{
  ℕ, ◌+◌, ◌≤◌, true, false, List, [], ◌∷◌, ◌++◌, Option, none, some, String, FloatOps, ◌≡◌, refl,
  ◌⊎◌, inl, inr, arith, Bool-cases, length, length-append, ltb, ℤ, sym, ap,
}
use revenue_recovery_voice_a.Media.BargeIn.{is_positive}
use revenue_recovery_voice_a.Media.Outbound.{
  OutboundAudio, Line, Entry, queued, dropped, discarded, media, Pump, waiting, Cut, ready,
  clearing, cancelling, truncating, new_line, put_nowait, drop_oldest, make_room, enqueue,
  pump_take, pump_mark, pump_done, discard_queued_audio, log_discarded, start_cut, barge_in_cut,
  safety_cut, cut_next, log_truncation, on_mark, on_item, outbound_queue_max,
}
use revenue_recovery_voice_a.Media.Outbound.Steps.{
  Step, send_audio-cases, audio, item_started, speech_started, safety, cut_on, acked,
  stream_started, clock, taken, marked, written, Reach, here, next,
}

-- How many frames the log says were queued, dropped, discarded and written.
pub record Counts : Type 0 where
  pub queued : ℕ
  pub dropped : ℕ
  pub discarded : ℕ
  pub written : ℕ

abbrev pub count : List Entry → Counts
count [] = record { queued = 0; dropped = 0; discarded = 0; written = 0 }
count (queued item ∷ log) = let c = count log in record c { queued = c.queued + 1 }
count (dropped item ∷ log) = let c = count log in record c { dropped = c.dropped + 1 }
count (discarded item ∷ log) = let c = count log in record c { discarded = c.discarded + 1 }
count (media sid item ∷ log) = let c = count log in record c { written = c.written + 1 }
count (_ ∷ log) = count log

-- The frame that the pump is sending.
abbrev in_flight : Pump → ℕ
in_flight waiting = 0
in_flight _ = 1

abbrev BalanceOf :
    (mark_seq frames_dropped frames_to_caller marks_sent sending left : ℕ) → Counts → Type 0
BalanceOf mark_seq frames_dropped frames_to_caller marks_sent sending left c =
    (left ≤ outbound_queue_max)
    × (c.queued ≡ mark_seq)
    × (c.dropped ≡ frames_dropped)
    × (c.written ≡ frames_to_caller + sending)
    × (marks_sent ≡ frames_to_caller)
    × (mark_seq ≡ c.dropped + c.discarded + c.written + left)

log_discarded-counts :
    (items : List OutboundAudio) (log : List Entry)
    → count (log_discarded items log)
      ≡ record (count log) { discarded = (count log).discarded + length items }
unfolding log_discarded
log_discarded-counts [] log = ground arith
log_discarded-counts (item ∷ rest) log =
    ground (arith, log_discarded-counts rest (discarded item ∷ log))

log_truncation-counts :
    (item : Option String) (ms : ℤ) (log : List Entry)
    → count (log_truncation item ms log) ≡ count log
unfolding log_truncation
log_truncation-counts none ms log = refl
log_truncation-counts (some item) ms log = elim (Bool-cases (is_positive ms)) [
  | inl heard ↦ rw (heard, log_truncation) refl
  | inr unheard ↦ rw (unheard, log_truncation) refl
]

module _ {F : Type 0} where
  -- The queue is within its bound, and every frame that was ever queued was dropped by the full queue,
  -- discarded by a barge-in or written, or is still queued; the counters agree.
  abbrev pub IsBalanced : Line F → Type 0
  IsBalanced l =
      BalanceOf l.mark_seq l.frames_dropped l.frames_to_caller l.marks_sent (in_flight l.pump)
        (length l.outbound) (count l.log)

  put_nowait_room :
      (item : OutboundAudio) (l : Line F)
      → ltb (length l.outbound) outbound_queue_max ≡ true
      → put_nowait item l
        ≡ some (record l { outbound = l.outbound ++ (item ∷ []); log = queued item ∷ l.log })
  unfolding put_nowait
  put_nowait_room item l room = rw room refl

  put_nowait_full :
      (item : OutboundAudio) (l : Line F)
      → ltb (length l.outbound) outbound_queue_max ≡ false
      → put_nowait item l ≡ none
  unfolding put_nowait
  put_nowait_full item l full = rw full refl

  -- The line after the oldest item was dropped for a new one.
  abbrev replaced : OutboundAudio → OutboundAudio → List OutboundAudio → Line F → Line F
  replaced item old rest l = record l {
    outbound = rest ++ (item ∷ []);
    frames_dropped = l.frames_dropped + 1;
    log = queued item ∷ dropped old ∷ l.log;
  }

  make_room_lem :
      (item old : OutboundAudio) (rest : List OutboundAudio) (l : Line F)
      → l.outbound ≡ old ∷ rest
      → ltb (length rest) outbound_queue_max ≡ true
      → make_room item l ≡ replaced item old rest l
  unfolding make_room drop_oldest put_nowait
  make_room_lem item old rest l held room = rw (held, make_room) (rw (room, make_room) refl)

  -- The two ends of the `try` in `_send_audio`.
  enqueue_cases :
      (item : OutboundAudio) (l : Line F) (items : List OutboundAudio)
      → l.outbound ≡ items
      → length items ≤ outbound_queue_max
      → ((enqueue item l
            ≡ record l { outbound = l.outbound ++ (item ∷ []); log = queued item ∷ l.log })
          × (length l.outbound + 1 ≤ outbound_queue_max))
        ⊎ ((old : OutboundAudio) × (rest : List OutboundAudio) × (l.outbound ≡ old ∷ rest)
            × (enqueue item l ≡ replaced item old rest l))
  unfolding enqueue
  enqueue_cases item l [] held bounded =
      inl (rw (put_nowait_room item l (ground (arith, held)), enqueue) refl, ground (arith, held))
  enqueue_cases item l (old ∷ rest) held bounded =
      elim (Bool-cases (ltb (length l.outbound) outbound_queue_max)) [
        | inl room ↦ inl (rw (put_nowait_room item l room, enqueue) refl, ground (arith, room))
        | inr full ↦ inr (
          old,
          rest,
          held,
          rw (put_nowait_full item l full, enqueue)
              (make_room_lem item old rest l held (ground (arith, held))),
        )
      ]

  enqueue-IsBalanced :
      (item : OutboundAudio) (l : Line F)
      → IsBalanced l
      → IsBalanced (enqueue item (record l { mark_seq = l.mark_seq + 1 }))
  enqueue-IsBalanced item l h =
      elim (enqueue_cases item (record l { mark_seq = l.mark_seq + 1 }) l.outbound refl h.0) [
        | inl (same, room) ↦
            subst IsBalanced (sym same) (omega (arith, length-append {0} l.outbound (item ∷ [])))
        | inr (old, rest, held, same) ↦
            subst IsBalanced (sym same)
              (omega (arith, ap (length {0}) held, length-append {0} rest (item ∷ [])))
      ]

  pump_take-IsBalanced :
      (items : List OutboundAudio) (l : Line F)
      → l.outbound ≡ items
      → l.pump ≡ waiting
      → IsBalanced l
      → IsBalanced (pump_take items l)
  unfolding pump_take
  pump_take-IsBalanced [] l held idle h = h
  pump_take-IsBalanced (item ∷ rest) l held idle h =
      omega (arith, ap (length {0}) held, ap in_flight idle)

  cut_next-IsBalanced : (cut : Cut) (l : Line F) → IsBalanced l → IsBalanced (cut_next cut l)
  unfolding cut_next
  cut_next-IsBalanced ready l h = h
  cut_next-IsBalanced (clearing r) l h = h
  cut_next-IsBalanced (cancelling r) l h =
      rw (log_truncation-counts r.item_id r.audio_end_ms l.log) h
  cut_next-IsBalanced (truncating r) l h = h

module _ (fl : FloatOps) where
  open fl use {F}

  Step-IsBalanced : {l m : Line F} → IsBalanced l → Step fl l m → IsBalanced m
  unfolding on_item on_mark safety_cut barge_in_cut start_cut discard_queued_audio pump_mark
      pump_done
  Step-IsBalanced {l} h (audio delta through) =
      send_audio-cases IsBalanced delta l h (λ item p b. enqueue-IsBalanced item l h)
  Step-IsBalanced h (item_started item through) = h
  Step-IsBalanced {l} h (speech_started sid through) =
      rw (log_discarded-counts l.outbound l.log) (omega arith)
  Step-IsBalanced h (safety sid through) = h
  Step-IsBalanced {l} h cut_on = cut_next-IsBalanced l.cut l h
  Step-IsBalanced h (acked name) = h
  Step-IsBalanced h (stream_started sid) = h
  Step-IsBalanced h (clock start latency) = h
  Step-IsBalanced {l} h (taken idle) = pump_take-IsBalanced l.outbound l refl idle h
  Step-IsBalanced h (marked item at) = omega (arith, ap in_flight at)
  Step-IsBalanced h (written now item at) = omega (arith, ap in_flight at)

  walk-IsBalanced : {l m : Line F} → IsBalanced l → Reach fl l m → IsBalanced m
  walk-IsBalanced h here = h
  walk-IsBalanced h (next r s) = Step-IsBalanced (walk-IsBalanced h r) s

  -- However the tasks of a call take turns, the queue holds at most 200 frames, the counters of the
  -- stats agree with the log, and the frames ever queued are as many as those dropped by the full
  -- queue, discarded by a barge-in, written and still queued together.
  pub Reach-IsBalanced : {l : Line F} → Reach fl new_line l → IsBalanced l
  unfolding new_line
  Reach-IsBalanced r = walk-IsBalanced (omega arith) r
