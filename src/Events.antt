-- ===== src/Events.antt =====
-- internal/events/hub.go: the event record and the hub that fans events out to subscribers.
--
-- A buffered channel is the list of the events that wait in it, oldest first. The map of
-- subscribers is an association list from channels to those lists, and a channel is the number
-- that `make` gives it. `h.mu` is held over each operation, so an operation is one function on the
-- state of the hub. The client's receive is an operation of the model, `receive`.
-- An event's id is `Time.Format` of a reading of the clock; `Instant` holds what is read of it.
pub mod History
pub mod Delivery
mod Tests
use os_complete.Base.{
  ℕ, suc, ◌+◌, ◌-◌, String, List, [], ◌∷◌, ◌++◌, Option, none, some, Bool, lookup, insert, delete,
  ite, dec_str, length, drop, ltb, if◌then◌else◌, ℕ_discrete, ℤ,
}

-- What `time.Now()` gives: its `Format` and its `UnixMilli`.
pub record Instant : Type 0 where
  pub formatted : String
  pub unix_milli : ℕ

-- The readings of the clock during one call, in order.
abbrev pub Clock : Type 0
Clock = ℕ → Instant

-- The readings after the first `n`.
abbrev pub later : ℕ → Clock → Clock
later n now i = now (n + i)

-- `any` and `map[string]any`, as far as payloads hold them.
mutual
  pub data Value : Type 0 where
    null : Value
    text : String → Value
    num : ℕ → Value
    int : ℤ → Value
    flag : Bool → Value
    texts : List String → Value
    object : Payload → Value

  pub data Payload : Type 0 where
    end : Payload
    field : String → Value → Payload → Payload

-- A map literal.
abbrev pub fields : List (String × Value) → Payload
fields [] = end
fields ((key, value) ∷ rest) = field key value (fields rest)

-- `m[key]`: `nil` for a missing key.
unfoldable pub value_of : String → Payload → Value
value_of key end = null
value_of key (field k value rest) = ite (dec_str k key) value (value_of key rest)

pub record Event : Type 0 where
  pub id : String
  pub task_id : String
  pub agent_id : String
  pub type : String
  pub source : String
  pub timestamp : ℕ
  pub payload : Payload

-- `events.New` reads the clock twice.
unfoldable pub new_event : Clock → String → String → String → String → Payload → Event
new_event now event_type task_id agent_id source payload = record {
  id = (now 0).formatted;
  task_id = task_id;
  agent_id = agent_id;
  type = event_type;
  source = source;
  timestamp = (now 1).unix_milli;
  payload = payload;
}

pub record Hub : Type 0 where
  pub buffer : ℕ
  pub history_size : ℕ
  pub history : List Event
  pub subscribers : List (ℕ × List Event)
  -- The channels made so far: `make(chan Event, h.buffer)` returns a new one.
  pub made : ℕ

-- The buffer is at least 256.
unfoldable pub new_hub : ℕ → Hub
new_hub buffer = record {
  buffer = if ltb buffer 256 then 256 else buffer;
  history_size = 256;
  history = [];
  subscribers = [];
  made = 0;
}

-- `select { case ch <- event: default: }` on a channel of capacity `n`.
unfoldable pub offer : ℕ → List Event → Event → List Event
offer n queue event = if ltb (length queue) n then queue ++ event ∷ [] else queue

-- The loop of `Subscribe`. Its `break` leaves the `select`, not the loop.
unfoldable pub replay : ℕ → List Event → List Event → List Event
replay n queue [] = queue
replay n queue (event ∷ rest) = replay n (offer n queue event) rest

-- The hub and the new channel. What `cancel` closes over is the channel: see `cancel`.
unfoldable pub subscribe : Hub → Hub × ℕ
subscribe h = (
  record h {
    subscribers = insert ℕ_discrete h.made (replay h.buffer [] h.history) h.subscribers;
    made = suc h.made;
  },
  h.made,
)

-- The function that `Subscribe` returns. To delete a channel is to close it.
unfoldable pub cancel : ℕ → Hub → Hub
cancel ch h = record h { subscribers = delete ℕ_discrete ch h.subscribers }

-- The last `n` of a list: `history[len(history)-n:]` if it is longer.
unfoldable pub trim : ℕ → List Event → List Event
trim n events = if ltb n (length events) then drop (length events - n) events else events

unfoldable pub fan_out : ℕ → Event → List (ℕ × List Event) → List (ℕ × List Event)
fan_out n event [] = []
fan_out n event ((ch, queue) ∷ rest) = (ch, offer n queue event) ∷ fan_out n event rest

unfoldable pub publish : Event → Hub → Hub
unfolding trim fan_out
publish event h = record h {
  history = trim h.history_size (h.history ++ event ∷ []);
  subscribers = fan_out h.buffer event h.subscribers;
}

unfoldable pub subscriber_count : Hub → ℕ
subscriber_count h = length h.subscribers

take_first : ℕ → List Event → Hub → Hub × Option Event
take_first ch [] h = (h, none)
take_first ch (event ∷ rest) h =
    (record h { subscribers = insert ℕ_discrete ch rest h.subscribers }, some event)

-- A client takes the oldest event of its channel, if one waits.
unfoldable pub receive : ℕ → Hub → Hub × Option Event
unfolding take_first
receive ch h = elim (lookup ℕ_discrete ch h.subscribers) [
  | none ↦ (h, none)
  | some queue ↦ take_first ch queue h
]
