-- ===== src/Blackboard/Delivery.antt =====
-- internal/ipc/blackboard.go: what reaches the subscribers, over a run of calls.
use mathlib.Core.List.{append-nil, append_assoc}
use os_complete.Base.{
  ℕ, ◌+◌, ◌≤◌, ◌≡◌, refl, sym, ap, ◌∙◌, inl, inr, true, String, List, [], ◌∷◌, ◌++◌, lookup,
  lookup_or, insert, lookup-insert, ite, dec_str, length, length-append, drop, drop-append_of_le,
  leb, arith, Dec-cases, Bool-cases, if_pos, if◌then◌else◌,
}
use os_complete.Blackboard.{
  Blackboard, Message, PublishRequest, new_blackboard, messages_of, offset_of, new_message, publish,
  poll, metrics, size_of,
}
use os_complete.Events.{Clock}

-- The calls that change a blackboard.
pub data Call : Type 0 where
  publishes : Clock → PublishRequest → Call
  polls : String → String → Call

unfoldable pub step : Call → Blackboard → Blackboard
step (publishes now req) b = (publish now req b).0
step (polls topic subscriber) b = (poll topic subscriber b).0

unfoldable pub run : List Call → Blackboard → Blackboard
unfolding step
run [] b = b
run (call ∷ calls) b = run calls (step call b)

-- What a call publishes to the topic.
published_by : String → Call → List Message
published_by topic (publishes now req) = ite (dec_str topic req.topic) (new_message now req ∷ []) []
published_by topic (polls _ _) = []

unfoldable pub published : String → List Call → List Message
unfolding published_by
published topic [] = []
published topic (call ∷ calls) = published_by topic call ++ published topic calls

-- What a call on the blackboard delivers to the subscriber from the topic.
received_by : String → String → Call → Blackboard → List Message
received_by topic subscriber (publishes now req) b = []
received_by topic subscriber (polls t s) b =
    ite (dec_str topic t) (ite (dec_str subscriber s) (poll t s b).1 []) []

unfoldable pub received : String → String → List Call → Blackboard → List Message
unfolding received_by step
received topic subscriber [] b = []
received topic subscriber (call ∷ calls) b =
    received_by topic subscriber call b ++ received topic subscriber calls (step call b)

-- What the subscriber has not had yet.
pending : String → String → Blackboard → List Message
pending topic subscriber b = drop (offset_of topic subscriber b) (messages_of topic b)

-- No subscriber is ahead of its topic.
IsValid : Blackboard → Type 0
IsValid b =
    (topic subscriber : String) → offset_of topic subscriber b ≤ length (messages_of topic b)

lookup_or-insert :
    {V : Type 0} (d v : V) (k j : String) (m : List (String × V))
    → lookup_or dec_str d j (insert dec_str k v m) ≡ ite (dec_str j k) v (lookup_or dec_str d j m)
unfolding lookup_or
lookup_or-insert d v k j m = ground (arith, lookup-insert dec_str k j v m)

messages_of-publish :
    (now : Clock) (req : PublishRequest) (topic : String) (b : Blackboard)
    → messages_of topic (publish now req b).0
      ≡ messages_of topic b ++ published_by topic (publishes now req)
unfolding publish messages_of published_by
messages_of-publish now req topic b = elim (Dec-cases (dec_str topic req.topic)) [
  | inl (p, e) ↦
      rw
        (
          lookup_or-insert [] (messages_of req.topic b ++ new_message now req ∷ []) req.topic topic
              b.topics,
          e,
          published_by,
          ← p,
        )
        refl
  | inr (q, e) ↦
      rw
        (
          lookup_or-insert [] (messages_of req.topic b ++ new_message now req ∷ []) req.topic topic
              b.topics,
          e,
          published_by,
        )
        (sym (append-nil (messages_of topic b)))
]

offset_of-poll :
    (t s topic subscriber : String) (b : Blackboard)
    → offset_of topic subscriber (poll t s b).0
      ≡ ite
          (dec_str topic t)
          (ite (dec_str subscriber s) (length (messages_of t b)) (offset_of topic subscriber b))
          (offset_of topic subscriber b)
unfolding poll offset_of
offset_of-poll t s topic subscriber b = elim (Dec-cases (dec_str topic t)) [
  | inl (p, e) ↦
      rw
        (
          lookup_or-insert []
              (insert dec_str s (length (messages_of t b)) (lookup_or dec_str [] t b.offsets)) t
              topic b.offsets,
          e,
          p,
        )
        (lookup_or-insert 0 (length (messages_of t b)) s subscriber
          (lookup_or dec_str [] t b.offsets))
  | inr (q, e) ↦
      rw
        (
          lookup_or-insert []
              (insert dec_str s (length (messages_of t b)) (lookup_or dec_str [] t b.offsets)) t
              topic b.offsets,
          e,
        )
        refl
]

offset_of-publish :
    (now : Clock) (req : PublishRequest) (topic subscriber : String) (b : Blackboard)
    → offset_of topic subscriber (publish now req b).0 ≡ offset_of topic subscriber b
unfolding publish offset_of
offset_of-publish now req topic subscriber b = refl

publish-pending :
    (now : Clock) (req : PublishRequest) (topic subscriber : String) (b : Blackboard)
    → IsValid b
    → pending topic subscriber (publish now req b).0
      ≡ pending topic subscriber b ++ published_by topic (publishes now req)
unfolding pending IsValid
publish-pending now req topic subscriber b v =
    rw (offset_of-publish now req topic subscriber b, messages_of-publish now req topic b)
      (drop-append_of_le (offset_of topic subscriber b) (messages_of topic b)
        (published_by topic (publishes now req)) (v topic subscriber))

poll-delivers :
    (topic subscriber : String) (b : Blackboard)
    → IsValid b
    → (poll topic subscriber b).1 ≡ pending topic subscriber b
unfolding poll pending IsValid
poll-delivers topic subscriber b v =
    let t : leb (offset_of topic subscriber b) (length (messages_of topic b)) ≡ true =
      ground (arith, v topic subscriber) in
    rw t refl

drop-length : (xs : List Message) → drop (length xs) xs ≡ []
drop-length [] = refl
drop-length (x ∷ xs) = drop-length xs

messages_of-poll :
    (t s topic : String) (b : Blackboard) → messages_of topic (poll t s b).0 ≡ messages_of topic b
unfolding poll messages_of
messages_of-poll t s topic b = refl

-- A poll that follows at once delivers nothing.
pub poll-poll :
    (topic subscriber : String) (b : Blackboard)
    → (poll topic subscriber (poll topic subscriber b).0).1 ≡ []
unfolding poll
poll-poll topic subscriber b =
    let messages = messages_of topic b in
    let n = length messages in
    let moved : offset_of topic subscriber (poll topic subscriber b).0 ≡ n =
      offset_of-poll topic subscriber topic subscriber b
      ∙ if_pos (dec_str topic topic) refl _ _
      ∙ if_pos (dec_str subscriber subscriber) refl _ _ in
    ap (λ start. drop (if leb start n then start else n) messages) moved
    ∙ (elim (Bool-cases (leb n n)) [
      | inl e ↦ rw e (drop-length messages)
      | inr e ↦ rw e (drop-length messages)
    ])

-- A poll moves what it delivers out of what its subscriber has not had yet, and nothing else.
poll-pending :
    (t s topic subscriber : String) (b : Blackboard)
    → IsValid b
    → received_by topic subscriber (polls t s) b ++ pending topic subscriber (poll t s b).0
      ≡ pending topic subscriber b
unfolding received_by pending
poll-pending t s topic subscriber b v =
    let moved = offset_of-poll t s topic subscriber b in
    elim (Dec-cases (dec_str topic t)) [
      | inl (p, e) ↦ elim (Dec-cases (dec_str subscriber s)) [
        | inl (q, d) ↦
            let all : pending topic subscriber (poll t s b).0 ≡ [] =
              let to : offset_of topic subscriber (poll t s b).0 ≡ length (messages_of topic b) =
                rw (moved, e, d, p) refl in
              rw (to, messages_of-poll) (drop-length (messages_of topic b)) in
            rw (e, d, all, append-nil, ← p, ← q) (poll-delivers topic subscriber b v)
        | inr (q, d) ↦ rw (moved, e, d, messages_of-poll) refl
      ]
      | inr (q, e) ↦ rw (moved, e, messages_of-poll) refl
    ]

publish-IsValid :
    (now : Clock) (req : PublishRequest) (b : Blackboard)
    → IsValid b
    → IsValid (publish now req b).0
unfolding IsValid
publish-IsValid now req b v topic subscriber =
    rw (offset_of-publish now req topic subscriber b, messages_of-publish now req topic b)
      (omega (
        arith,
        v topic subscriber,
        length-append (messages_of topic b) (published_by topic (publishes now req)),
      ))

poll-IsValid : (t s : String) (b : Blackboard) → IsValid b → IsValid (poll t s b).0
unfolding IsValid
poll-IsValid t s b v topic subscriber =
    rw (offset_of-poll t s topic subscriber b, messages_of-poll t s topic b)
      (elim (Dec-cases (dec_str topic t)) [
        | inl (p, e) ↦ elim (Dec-cases (dec_str subscriber s)) [
          | inl (q, d) ↦ rw (e, d, p) (omega arith)
          | inr (q, d) ↦ rw (e, d) (v topic subscriber)
        ]
        | inr (q, e) ↦ rw e (v topic subscriber)
      ])

step-IsValid : (call : Call) (b : Blackboard) → IsValid b → IsValid (step call b)
unfolding step
step-IsValid (publishes now req) b v = publish-IsValid now req b v
step-IsValid (polls t s) b v = poll-IsValid t s b v

run-IsValid : (calls : List Call) (b : Blackboard) → IsValid b → IsValid (run calls b)
unfolding run
run-IsValid [] b v = v
run-IsValid (call ∷ calls) b v = run-IsValid calls (step call b) (step-IsValid call b v)

new_blackboard-IsValid : IsValid new_blackboard
unfolding IsValid new_blackboard messages_of offset_of lookup_or lookup
new_blackboard-IsValid topic subscriber = omega arith

step-pending :
    (topic subscriber : String) (call : Call) (b : Blackboard)
    → IsValid b
    → received_by topic subscriber call b ++ pending topic subscriber (step call b)
      ≡ pending topic subscriber b ++ published_by topic call
unfolding step received_by published_by
step-pending topic subscriber (publishes now req) b v = publish-pending now req topic subscriber b v
step-pending topic subscriber (polls t s) b v =
    poll-pending t s topic subscriber b v ∙ sym (append-nil (pending topic subscriber b))

received-pending :
    (topic subscriber : String) (calls : List Call) (b : Blackboard)
    → IsValid b
    → received topic subscriber calls b ++ pending topic subscriber (run calls b)
      ≡ pending topic subscriber b ++ published topic calls
unfolding received run published
received-pending topic subscriber [] b v = sym (append-nil (pending topic subscriber b))
received-pending topic subscriber (call ∷ calls) b v =
    append_assoc (received_by topic subscriber call b)
      (received topic subscriber calls (step call b))
      (pending topic subscriber (run calls (step call b)))
    ∙ ap (λ l. received_by topic subscriber call b ++ l)
        (received-pending topic subscriber calls (step call b) (step-IsValid call b v))
    ∙ sym (
        append_assoc (received_by topic subscriber call b) (pending topic subscriber (step call b))
          (published topic calls))
    ∙ ap (λ l. l ++ published topic calls) (step-pending topic subscriber call b v)
    ∙ append_assoc (pending topic subscriber b) (published_by topic call) (published topic calls)

-- After any calls on a new blackboard, what a subscriber has had from a topic so far, followed by what
-- its next poll delivers, is all that was published to the topic: each message once, in the order of
-- publication, whatever the other subscribers and the other topics do.
pub received_once :
    (topic subscriber : String) (calls : List Call)
    → received topic subscriber calls new_blackboard
        ++ (poll topic subscriber (run calls new_blackboard)).1
      ≡ published topic calls
unfolding pending new_blackboard messages_of offset_of lookup_or lookup
received_once topic subscriber calls =
    rw
      (poll-delivers topic subscriber (run calls new_blackboard)
        (run-IsValid calls new_blackboard new_blackboard-IsValid))
      (received-pending topic subscriber calls new_blackboard new_blackboard-IsValid)

-- How many messages the calls publish on all the topics, and their sizes.
unfoldable pub sizes : List Call → List ℕ
sizes [] = []
sizes (publishes now req ∷ calls) = size_of req.size_bytes ∷ sizes calls
sizes (polls _ _ ∷ calls) = sizes calls

unfoldable pub sum : List ℕ → ℕ
sum [] = 0
sum (n ∷ rest) = n + sum rest

-- The counters of the blackboard count every publication once and its size, a negative one as 0,
-- whatever is polled in between.
metrics-run :
    (calls : List Call) (b : Blackboard)
    → ((metrics (run calls b)).total_messages ≡ (metrics b).total_messages + length (sizes calls))
      × ((metrics (run calls b)).avoided_copy_bytes
          ≡ (metrics b).avoided_copy_bytes + sum (sizes calls))
unfolding metrics run step publish poll sizes sum
metrics-run [] b = (omega arith, omega arith)
metrics-run (publishes now req ∷ calls) b =
    let (counted, summed) = metrics-run calls (publish now req b).0 in
    (omega (arith, counted), omega (arith, summed))
metrics-run (polls t s ∷ calls) b =
    let (counted, summed) = metrics-run calls (poll t s b).0 in
    (omega (arith, counted), omega (arith, summed))
