-- ===== src/Live.antt =====
-- `apps/api/observability/live.py`: the hub of the live call feed. A subscriber's queue carries an id in
-- place of its identity.
pub mod Delivery
use revenue_recovery_voice_a.Base.{
  ℕ, suc, Bool, true, false, List, [], ◌∷◌, ◌++◌, map, Option, none, some, String, str_eq, Fields,
  length, ltb, ◌==◌, is_empty, if◌then◌else◌,
}

-- `QUEUE_MAXSIZE`
abbrev pub queue_maxsize : ℕ
queue_maxsize = 256

-- `LiveEvent`
pub record LiveEvent : Type 0 where
  pub call_id : String
  pub kind : String
  pub payload : Fields
  pub at : String

-- A subscriber's queue, the oldest event first.
pub record Subscriber : Type 0 where
  pub id : ℕ
  pub queue : List LiveEvent

-- `EventHub`, with the id that the next subscriber takes
pub record EventHub : Type 0 where
  pub subscribers : List Subscriber
  pub next_id : ℕ

-- `put_nowait`; `QueueFull` drops the event for that subscriber
unfoldable pub put_nowait : LiveEvent → Subscriber → Subscriber
put_nowait event s =
    if ltb (length s.queue) queue_maxsize then record s { queue = s.queue ++ (event ∷ []) } else s

unfoldable pub put_all : LiveEvent → List Subscriber → List Subscriber
unfolding put_nowait
put_all event [] = []
put_all event (s ∷ rest) = put_nowait event s ∷ put_all event rest

-- `publish`, `now` being the clock's ISO text
unfoldable pub publish : String → String → Fields → Option String → String → EventHub → EventHub
unfolding put_all
publish call_id kind payload at now hub =
    if is_empty hub.subscribers
    then hub
    else (let event : LiveEvent = record {
      call_id = call_id;
      kind = kind;
      payload = payload;
      at = elim at [ none ↦ now | some t ↦ if str_eq t "" then now else t ];
    } in
        record hub { subscribers = put_all event hub.subscribers })

-- Entering `subscribe`
unfoldable pub subscribe : EventHub → ℕ × EventHub
subscribe hub = (
  hub.next_id,
  record hub {
    subscribers = record { id = hub.next_id; queue = [] } ∷ hub.subscribers;
    next_id = suc hub.next_id;
  },
)

unfoldable pub discard : ℕ → List Subscriber → List Subscriber
discard i [] = []
discard i (s ∷ rest) = if s.id == i then rest else s ∷ discard i rest

-- Leaving `subscribe`
unfoldable pub unsubscribe : ℕ → EventHub → EventHub
unfolding discard
unsubscribe i hub = record hub { subscribers = discard i hub.subscribers }

-- `subscriber_count`
unfoldable subscriber_count : EventHub → ℕ
subscriber_count hub = length hub.subscribers
