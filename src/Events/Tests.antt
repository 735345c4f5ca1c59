-- ===== src/Events/Tests.antt =====
-- internal/events/hub.go: the theorems at a concrete run of a hub.
use mathlib.Core.Option
use os_complete.Base.{
  ◌≡◌, refl, List, [], ◌∷◌, ◌++◌, some, lookup, insert, delete, length, ltb, if◌then◌else◌,
  ℕ_discrete,
}
use os_complete.Events.{Event, end, new_hub, subscribe, publish, replay, offer, receive, cancel}
use os_complete.Events.Delivery.{IsValid, subscribe_whole_history, lookup-publish}
use os_complete.Events.History.{
  AreLast, Op, publishes, subscribes, cancels, receives, step, run, published, run-new_hub-history,
}

abbrev started : Event
started = record {
  id = "1";
  task_id = "t";
  agent_id = "a";
  type = "agent.created";
  source = "runtime";
  timestamp = 7;
  payload = end;
}

abbrev ops : List Op
ops = publishes started ∷ subscribes ∷ publishes started ∷ receives 0 ∷ subscribes ∷ cancels 0 ∷ []

run-new_hub-history_example : AreLast 256 (published ops) (run ops (new_hub 8)).history
run-new_hub-history_example = run-new_hub-history 8 ops

subscribe_whole_history_example :
    let h = run ops (new_hub 8) in
    IsValid h × (lookup ℕ_discrete (subscribe h).1 (subscribe h).0.subscribers ≡ some h.history)
subscribe_whole_history_example = subscribe_whole_history 8 ops

lookup-publish_example :
    let h = run ops (new_hub 8) in
    lookup ℕ_discrete 1 (publish started h).subscribers
    ≡ Option.map
        (λ queue. if ltb (length queue) h.buffer then queue ++ started ∷ [] else queue)
        (lookup ℕ_discrete 1 h.subscribers)
lookup-publish_example = lookup-publish 1 started (run ops (new_hub 8))

-- The second subscriber has both events; the first, that took one, is gone.
second_has_both : (run ops (new_hub 8)).subscribers ≡ (1, started ∷ started ∷ []) ∷ []
unfolding run step publish subscribe replay new_hub insert delete lookup ℕ_discrete receive cancel
    offer
second_has_both = refl
