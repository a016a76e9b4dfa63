-- ===== src/Media/Outbound/Fresh.antt =====
-- `apps/api/media/bridge.py`: the audio written before and after an interruption.
use revenue_recovery_voice_a.Base.{
  true, false, List, [], ◌∷◌, ◌++◌, Option, none, some, String, FloatOps, ◌≡◌, refl, ◌⊎◌, inl, inr,
  All, arith, Bool-cases, Option-cases, length, ltb, ◌+◌, ℤ,
}
use mathlib.Core.Path.{subst}
use revenue_recovery_voice_a.Media.BargeIn.{is_positive}
use revenue_recovery_voice_a.Media.Outbound.{
  OutboundAudio, Line, Entry, queued, discarded, media, clear, Cut, ready, clearing, cancelling,
  truncating, new_line, put_nowait, drop_oldest, make_room, enqueue, waiting, pump_take, pump_mark,
  pump_done, discard_queued_audio, log_discarded, start_cut, barge_in_cut, safety_cut, cut_next,
  log_truncation, on_mark, on_item, outbound_queue_max,
}
use revenue_recovery_voice_a.Media.Outbound.Steps.{
  Step, send_audio-cases, audio, item_started, speech_started, safety, cut_on, acked,
  stream_started, clock, taken, marked, written, Reach, here, next,
}

-- The items that were queued since the last flush that found the queue emptied.
abbrev since_flush : List Entry → List OutboundAudio
since_flush [] = []
since_flush (queued item ∷ log) = item ∷ since_flush log
since_flush (clear sid true ∷ log) = []
since_flush (e ∷ log) = since_flush log

abbrev Among : {A : Type 0} → A → List A → Type 0
Among a [] = ⊥
Among a (x ∷ xs) = (a ≡ x) ⊎ Among a xs

-- Every frame that was written was queued since the last barge-in before it.
abbrev pub IsFresh : List Entry → Type 0
IsFresh [] = Unit
IsFresh (media sid item ∷ log) = Among item (since_flush log) × IsFresh log
IsFresh (e ∷ log) = IsFresh log

-- The items of the queue can be written.
abbrev CanWrite : List OutboundAudio → List Entry → Type 0
CanWrite items log = All (λ item. Among item (since_flush log)) items

CanWrite-later :
    (items : List OutboundAudio) (log log' : List Entry)
    → ((item : OutboundAudio) → Among item (since_flush log) → Among item (since_flush log'))
    → CanWrite items log
    → CanWrite items log'
CanWrite-later [] log log' grow h = tt
CanWrite-later (item ∷ items) log log' grow h =
    (grow item h.0, CanWrite-later items log log' grow h.1)

CanWrite-snoc :
    (items : List OutboundAudio) (item : OutboundAudio) (log : List Entry)
    → CanWrite items log
    → CanWrite (items ++ (item ∷ [])) (queued item ∷ log)
CanWrite-snoc [] item log h = (inl refl, tt)
CanWrite-snoc (i ∷ items) item log h = (inr h.0, CanWrite-snoc items item log h.1)

log_discarded-IsFresh :
    (items : List OutboundAudio) (log : List Entry)
    → IsFresh log
    → IsFresh (log_discarded items log)
unfolding log_discarded
log_discarded-IsFresh [] log h = h
log_discarded-IsFresh (i ∷ items) log h = log_discarded-IsFresh items (discarded i ∷ log) h

truncation-IsReady :
    (item : Option String) (ms : ℤ) (items : List OutboundAudio) (log : List Entry)
    → IsFresh log × CanWrite items log
    → IsFresh (log_truncation item ms log) × CanWrite items (log_truncation item ms log)
unfolding log_truncation
truncation-IsReady none ms items log h = h
truncation-IsReady (some item) ms items log h = elim (Bool-cases (is_positive ms)) [
  | inl heard ↦ rw (heard, log_truncation) h
  | inr unheard ↦ rw (unheard, log_truncation) h
]

module _ {F : Type 0} where
  abbrev IsReady : Line F → Type 0
  IsReady l = IsFresh l.log × CanWrite l.outbound l.log

  put_nowait-IsReady :
      (item : OutboundAudio) (l l' : Line F) → IsReady l → put_nowait item l ≡ some l' → IsReady l'
  unfolding put_nowait
  put_nowait-IsReady item l l' h e =
      elim (Bool-cases (ltb (length l.outbound) outbound_queue_max)) [
        | inl room ↦
            let same : record l { outbound = l.outbound ++ (item ∷ []); log = queued item ∷ l.log }
                ≡ l' =
              ground (arith, room, e) in
            subst IsReady same (h.0, CanWrite-snoc l.outbound item l.log h.1)
        | inr full ↦ ground (arith, full, e)
      ]

  drop_oldest-IsReady :
      (items : List OutboundAudio) (l : Line F)
      → l.outbound ≡ items
      → IsReady l
      → IsReady (drop_oldest items l)
  unfolding drop_oldest
  drop_oldest-IsReady [] l same h = h
  drop_oldest-IsReady (item ∷ rest) l same h =
      (h.0, (subst (λ items. CanWrite items l.log) same h.1).1)

  make_room-IsReady : (item : OutboundAudio) (l : Line F) → IsReady l → IsReady (make_room item l)
  unfolding make_room
  make_room-IsReady item l h =
      let l' = record (drop_oldest l.outbound l) {
        frames_dropped = (drop_oldest l.outbound l).frames_dropped + 1;
      } in
      let h' : IsReady l' = drop_oldest-IsReady l.outbound l refl h in
      elim (Option-cases (put_nowait item l')) [
        | inl full ↦ rw (full, make_room) h'
        | inr (l'', put) ↦ rw (put, make_room) (put_nowait-IsReady item l' l'' h' put)
      ]

  enqueue-IsReady : (item : OutboundAudio) (l : Line F) → IsReady l → IsReady (enqueue item l)
  unfolding enqueue
  enqueue-IsReady item l h = elim (Option-cases (put_nowait item l)) [
    | inl full ↦ rw (full, enqueue) (make_room-IsReady item l h)
    | inr (l', put) ↦ rw (put, enqueue) (put_nowait-IsReady item l l' h put)
  ]

  pump_take-IsReady :
      (items : List OutboundAudio) (l : Line F)
      → l.outbound ≡ items
      → IsReady l
      → IsReady (pump_take items l)
  unfolding pump_take
  pump_take-IsReady [] l same h = h
  pump_take-IsReady (item ∷ rest) l same h =
      let able = subst (λ items. CanWrite items l.log) same h.1 in ((able.0, h.0), able.1)

  cut_next-IsReady : (cut : Cut) (l : Line F) → IsReady l → IsReady (cut_next cut l)
  unfolding cut_next
  cut_next-IsReady ready l h = h
  cut_next-IsReady (clearing r) l h = h
  cut_next-IsReady (cancelling r) l h =
      truncation-IsReady r.item_id r.audio_end_ms l.outbound l.log h
  cut_next-IsReady (truncating r) l h = h

module _ (fl : FloatOps) where
  open fl use {F}

  Step-IsReady : {l m : Line F} → IsReady l → Step fl l m → IsReady m
  unfolding on_item on_mark safety_cut barge_in_cut start_cut discard_queued_audio pump_mark
      pump_done
  Step-IsReady {l} h (audio delta through) =
      send_audio-cases IsReady delta l h (λ item p b. enqueue-IsReady item _ h)
  Step-IsReady h (item_started item through) = h
  Step-IsReady {l} h (speech_started sid through) = (log_discarded-IsFresh l.outbound l.log h.0, tt)
  Step-IsReady h (safety sid through) = h
  Step-IsReady {l} h cut_on = cut_next-IsReady l.cut l h
  Step-IsReady h (acked name) = h
  Step-IsReady h (stream_started sid) = h
  Step-IsReady h (clock start latency) = h
  Step-IsReady {l} h (taken idle) = pump_take-IsReady l.outbound l refl h
  Step-IsReady h (marked item at) = h
  Step-IsReady h (written now item at) = h

  Reach-IsReady : {l m : Line F} → IsReady l → Reach fl l m → IsReady m
  Reach-IsReady h here = h
  Reach-IsReady h (next r s) = Step-IsReady (Reach-IsReady h r) s

  -- However the tasks of a call take turns, each frame that is written to Twilio was queued after
  -- the last barge-in: no audio from before a barge-in follows its flush.
  pub Reach-IsFresh : {l : Line F} → Reach fl new_line l → IsFresh l.log
  unfolding new_line
  Reach-IsFresh r = (Reach-IsReady (tt, tt) r).0

  -- The cut of a safety escalation leaves the queue as it is: where a frame is queued and the pump
  -- waits, the pump writes that frame next, behind the flush.
  pub safety_cut-stale :
      (l : Line F) (stream_sid : String) (item : OutboundAudio) (rest : List OutboundAudio)
      → l.pump ≡ waiting
      → l.cut ≡ ready
      → l.outbound ≡ item ∷ rest
      → (m : Line F) × Reach fl l m
        × (m.log ≡ media l.stream_sid item ∷ clear stream_sid false ∷ l.log)
  unfolding safety_cut start_cut pump_take
  safety_cut-stale l stream_sid item rest idle through waits =
      let m = safety_cut fl stream_sid l in
      (
        pump_take m.outbound m,
        next (next here (safety stream_sid through)) (taken idle),
        rw waits refl,
      )
