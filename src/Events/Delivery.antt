-- ===== src/Events/Delivery.antt =====
-- internal/events/hub.go: what the subscribers' channels hold.
use os_complete.Base.{
  ℕ, suc, ◌+◌, ◌≤◌, ◌<◌, ◌≡◌, refl, sym, ◌∙◌, inl, inr, List, [], ◌∷◌, ◌++◌, some, true, lookup,
  Each, insert-Each, delete-Each, lookup-Each, lookup-insert, length, length-append, ltb,
  if◌then◌else◌, ℕ_discrete, arith, Option-cases,
}
use os_complete.Events.{
  Event, Hub, take_first, new_hub, offer, replay, subscribe, cancel, fan_out, publish, receive,
}
use os_complete.Events.History.{
  Op, publishes, subscribes, cancels, receives, step, run, length-trim,
}
use mathlib.Core.List.{append_assoc, append-nil}
use mathlib.Core.Option

-- The history fits the channels, the channels are as long as they may be, and each was made.
pub record IsValid (h : Hub) : Type 0 where
  pub history_fits : length h.history ≤ h.history_size
  pub replay_fits : h.history_size ≤ h.buffer
  pub bounded : Each (λ ch queue. (length queue ≤ h.buffer) × (ch < h.made)) h.subscribers

length-offer :
    (n : ℕ) (queue : List Event) (event : Event)
    → length queue ≤ n
    → length (offer n queue event) ≤ n
unfolding offer
length-offer n queue event h = ground (arith, length-append queue (event ∷ []))

length-replay :
    (n : ℕ) (queue events : List Event) → length queue ≤ n → length (replay n queue events) ≤ n
unfolding replay
length-replay n queue [] h = h
length-replay n queue (event ∷ rest) h =
    length-replay n (offer n queue event) rest (length-offer n queue event h)

-- While there is room the replay loses nothing.
replay_all :
    (n : ℕ) (queue events : List Event)
    → length queue + length events ≤ n
    → replay n queue events ≡ queue ++ events
unfolding replay offer
replay_all n queue [] h = sym (append-nil queue)
replay_all n queue (event ∷ rest) h =
    let room : ltb (length queue) n ≡ true = ground arith in
    rw room (
      replay_all n (queue ++ event ∷ []) rest (omega (arith, length-append queue (event ∷ [])))
      ∙ append_assoc queue (event ∷ []) rest)

fan_out-Each :
    (n made : ℕ) (event : Event) (subs : List (ℕ × List Event))
    → Each (λ ch queue. (length queue ≤ n) × (ch < made)) subs
    → Each (λ ch queue. (length queue ≤ n) × (ch < made)) (fan_out n event subs)
unfolding fan_out
fan_out-Each n made event [] h = tt
fan_out-Each n made event ((ch, queue) ∷ rest) h =
    ((length-offer n queue event h.0.0, h.0.1), fan_out-Each n made event rest h.1)

made_mono :
    (n m : ℕ) (subs : List (ℕ × List Event))
    → Each (λ ch queue. (length queue ≤ n) × (ch < m)) subs
    → Each (λ ch queue. (length queue ≤ n) × (ch < suc m)) subs
made_mono n m [] h = tt
made_mono n m ((ch, queue) ∷ rest) h = ((h.0.0, omega arith), made_mono n m rest h.1)

receive-IsValid : (ch : ℕ) (h : Hub) → IsValid h → IsValid (receive ch h).0
unfolding receive take_first
receive-IsValid ch h v = elim (Option-cases (lookup ℕ_discrete ch h.subscribers)) [
  | inl e ↦ rw (e, receive) v
  | inr ([], e) ↦ rw (e, receive) v
  | inr (event ∷ rest, e) ↦
      let old = lookup-Each ℕ_discrete _ ch (event ∷ rest) h.subscribers v.bounded e in
      rw (e, receive)
        (record {
          history_fits = v.history_fits;
          replay_fits = v.replay_fits;
          bounded = insert-Each ℕ_discrete _ ch rest h.subscribers (omega arith, old.1) v.bounded;
        })
]

-- Every operation of the hub keeps it valid.
pub step-IsValid : (op : Op) (h : Hub) → IsValid h → IsValid (step op h)
unfolding step publish subscribe cancel
step-IsValid (publishes event) h v = record {
  history_fits = length-trim h.history_size (h.history ++ event ∷ []);
  replay_fits = v.replay_fits;
  bounded = fan_out-Each h.buffer h.made event h.subscribers v.bounded;
}
step-IsValid subscribes h v = record {
  history_fits = v.history_fits;
  replay_fits = v.replay_fits;
  bounded =
      insert-Each ℕ_discrete _ h.made (replay h.buffer [] h.history) h.subscribers
        (length-replay h.buffer [] h.history (omega arith), omega arith)
        (made_mono h.buffer h.made h.subscribers v.bounded);
}
step-IsValid (cancels ch) h v = record {
  history_fits = v.history_fits;
  replay_fits = v.replay_fits;
  bounded = delete-Each ℕ_discrete _ ch h.subscribers v.bounded;
}
step-IsValid (receives ch) h v = receive-IsValid ch h v

run-IsValid : (ops : List Op) (h : Hub) → IsValid h → IsValid (run ops h)
unfolding run
run-IsValid [] h v = v
run-IsValid (op ∷ ops) h v = run-IsValid ops (step op h) (step-IsValid op h v)

new_hub-IsValid : (buffer : ℕ) → IsValid (new_hub buffer)
unfolding new_hub
new_hub-IsValid buffer = record {
  history_fits = omega arith;
  replay_fits = ground arith;
  bounded = tt;
}

-- At any time in the life of a hub no channel holds more than its buffer, and a new subscriber's
-- channel holds the whole history, in order.
pub subscribe_whole_history :
    (buffer : ℕ) (ops : List Op)
    → let h = run ops (new_hub buffer) in
      IsValid h × (lookup ℕ_discrete (subscribe h).1 (subscribe h).0.subscribers ≡ some h.history)
unfolding subscribe
subscribe_whole_history buffer ops =
    let v = run-IsValid ops (new_hub buffer) (new_hub-IsValid buffer) in
    let h = run ops (new_hub buffer) in
    (
      v,
      rw
          (
            lookup-insert ℕ_discrete h.made h.made (replay h.buffer [] h.history) h.subscribers,
            replay_all h.buffer [] h.history (omega arith),
          )
          (ground arith),
    )

lookup-fan_out :
    (n ch : ℕ) (event : Event) (subs : List (ℕ × List Event))
    → lookup ℕ_discrete ch (fan_out n event subs)
      ≡ Option.map (λ queue. offer n queue event) (lookup ℕ_discrete ch subs)
unfolding fan_out lookup
lookup-fan_out n ch event [] = refl
lookup-fan_out n ch event ((j, q) ∷ rest) = ground (arith, lookup-fan_out n ch event rest)

-- One publication offers the event to every channel, and to no other: the channel gets it behind
-- what waits there, or, if it is full, stays as it is.
pub lookup-publish :
    (ch : ℕ) (event : Event) (h : Hub)
    → lookup ℕ_discrete ch (publish event h).subscribers
      ≡ Option.map
          (λ queue. if ltb (length queue) h.buffer then queue ++ event ∷ [] else queue)
          (lookup ℕ_discrete ch h.subscribers)
unfolding publish offer
lookup-publish ch event h = lookup-fan_out h.buffer ch event h.subscribers
