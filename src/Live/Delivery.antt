-- ===== src/Live/Delivery.antt =====
-- `apps/api/observability/live.py`: the queues of the subscribers, over any sequence of
-- publications.
use revenue_recovery_voice_a.Base.{
  ℕ, ◌≤◌, List, [], ◌∷◌, Option, String, Fields, length, length-append, ◌==◌, is_empty, All, arith,
  Bool-cases, inl, inr,
}
use revenue_recovery_voice_a.Live.{
  LiveEvent, Subscriber, EventHub, queue_maxsize, put_nowait, put_all, publish, subscribe, discard,
  unsubscribe,
}

pub data HubOp : Type 0 where
  published : String → String → Fields → Option String → String → HubOp
  subscribed : HubOp
  unsubscribed : ℕ → HubOp

abbrev pub apply : HubOp → EventHub → EventHub
apply (published call kind payload at now) hub = publish call kind payload at now hub
apply subscribed hub = (subscribe hub).1
apply (unsubscribed i) hub = unsubscribe i hub

abbrev pub apply_all : List HubOp → EventHub → EventHub
apply_all [] hub = hub
apply_all (op ∷ ops) hub = apply_all ops (apply op hub)

-- Every queue is within its bound.
abbrev IsBounded : EventHub → Type 0
IsBounded hub = All (λ s. length s.queue ≤ queue_maxsize) hub.subscribers

put_nowait-bounded :
    (e : LiveEvent) (s : Subscriber)
    → length s.queue ≤ queue_maxsize
    → length (put_nowait e s).queue ≤ queue_maxsize
unfolding put_nowait
put_nowait-bounded e s h = ground (arith, length-append s.queue (e ∷ []))

put_all-bounded :
    (e : LiveEvent) (ss : List Subscriber)
    → All (λ s. length s.queue ≤ queue_maxsize) ss
    → All (λ s. length s.queue ≤ queue_maxsize) (put_all e ss)
unfolding put_all
put_all-bounded e [] h = tt
put_all-bounded e (s ∷ ss) h = (put_nowait-bounded e s h.0, put_all-bounded e ss h.1)

discard-bounded :
    (i : ℕ) (ss : List Subscriber)
    → All (λ s. length s.queue ≤ queue_maxsize) ss
    → All (λ s. length s.queue ≤ queue_maxsize) (discard i ss)
unfolding discard
discard-bounded i [] h = tt
discard-bounded i (s ∷ ss) h = elim (Bool-cases (s.id == i)) [
  | inl this ↦ rw (this, discard) h.1
  | inr other ↦ rw (other, discard) (h.0, discard-bounded i ss h.1)
]

apply-IsBounded : (op : HubOp) (hub : EventHub) → IsBounded hub → IsBounded (apply op hub)
unfolding publish subscribe unsubscribe
apply-IsBounded (published call kind payload at now) hub h =
    elim (Bool-cases (is_empty hub.subscribers)) [
      | inl nobody ↦ rw (nobody, publish) h
      | inr some_tab ↦ rw (some_tab, publish) (put_all-bounded _ hub.subscribers h)
    ]
apply-IsBounded subscribed hub h = (ground arith, h)
apply-IsBounded (unsubscribed i) hub h = discard-bounded i hub.subscribers h

-- No sequence of publications, subscriptions and departures makes a queue longer than its bound.
apply_all-IsBounded :
    (ops : List HubOp) (hub : EventHub) → IsBounded hub → IsBounded (apply_all ops hub)
apply_all-IsBounded [] hub h = h
apply_all-IsBounded (op ∷ ops) hub h =
    apply_all-IsBounded ops (apply op hub) (apply-IsBounded op hub h)
