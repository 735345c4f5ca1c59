-- ===== src/Registry/Heartbeats.antt =====
-- internal/worker/registry.go: what a worker's message records, and which agents are given up.
use mathlib.Core.Option
use os_complete.Avp.{
  AgentState, Avp, no_avp, completed, running, valid_transition, targets, is_among,
  AgentState-discrete,
}
use os_complete.Base.{
  ℕ, ◌<◌, ◌≡◌, ◌≢◌, ◌⊎◌, inl, inr, refl, ap, ◌∙◌, String, List, [], ◌∷◌, Option, none, some, lookup,
  lookup_or, insert, lookup-insert, dec_str, true, false, if◌then◌else◌, if_pos, if_neg, Bool-cases,
  Dec-cases, arith,
}
use os_complete.Events.{Clock, Event, later}
use os_complete.Registry.Keys.{IsKeyed, agent_for_message_locked-id}
use os_complete.Registry.Entry.{Message, Registry, state_text, agent_state, put, announce}
use os_complete.Registry.Sweep.{mark_lost, is_lost, as_failed, announce_lost}
use os_complete.Registry.{
  agent_or_zero, set_state, mark_heartbeat_lost, agent_for_message_locked, register, heartbeat,
  report, handle_message,
}

-- The texts of the states are told apart: a text read as a state is written as it was.
state_text-agent_state : (status : String) → state_text (agent_state status) ≡ status
unfolding state_text agent_state
state_text-agent_state status = ground arith

-- What is put under an agent's own id.
put_lem :
    (id key : String) (agent : Avp) (agents : List (String × Avp))
    → key ≡ id
    → (lookup dec_str id (insert dec_str key agent agents) ≡ some agent)
      × ((j : String)
          → j ≢ id
          → lookup dec_str j (insert dec_str key agent agents) ≡ lookup dec_str j agents)
put_lem id key agent agents e = rw e (
  lookup-insert dec_str id id agent agents ∙ if_pos (dec_str id id) refl _ _,
  λ j h. lookup-insert dec_str id j agent agents ∙ if_neg (dec_str j id) h _ _,
)

-- A registry that keeps every agent under its own id records a message of the type register,
-- heartbeat or report under the worker's id: the agent was seen now, a register has it running; and no
-- other agent changes.
pub handle_message_lem :
    (now : Clock) (message : Message) (r : Registry)
    → IsKeyed r
    → (message.type ≡ "register") ⊎ (message.type ≡ "heartbeat") ⊎ (message.type ≡ "report")
    → let r' = (handle_message now message r).0 in
      ((agent : Avp) × (lookup dec_str message.agent_id r'.agents ≡ some agent)
        × (agent.agent_id ≡ message.agent_id)
        × (agent.last_seen ≡ (now 1).unix_milli)
        × (message.type ≡ "register" → agent.state ≡ running))
      × ((j : String)
          → j ≢ message.agent_id
          → lookup dec_str j r'.agents ≡ lookup dec_str j r.agents)
unfolding handle_message register heartbeat report
handle_message_lem now message r h k =
    let own = agent_for_message_locked-id now message r h in
    elim (Dec-cases (dec_str message.type "register")) [
      | inl (_, e) ↦
          let (found, others) = put_lem message.agent_id _ _ r.agents own in
          rw (e, handle_message) ((_, found, own, refl, λ _. refl), others)
      | inr (q, e) ↦ elim (Dec-cases (dec_str message.type "heartbeat")) [
        | inl (p, d) ↦
            let (found, others) = put_lem message.agent_id _ _ r.agents own in
            rw (e, d, handle_message) ((_, found, own, refl, λ t. absurd (q t)), others)
        | inr (q', d) ↦ elim (Dec-cases (dec_str message.type "report")) [
          | inl (p, c) ↦
              let (found, others) = put_lem message.agent_id _ _ r.agents own in
              rw (e, d, c, handle_message) ((_, found, own, refl, λ t. absurd (q t)), others)
          | inr (q'', c) ↦ elim k [
            | inl t ↦ absurd (q t)
            | inr (inl t) ↦ absurd (q' t)
            | inr (inr t) ↦ absurd (q'' t)
          ]
        ]
      ]
    ]

-- Who is lost becomes FAILED, and no other agent changes; the agents returned are exactly those.
mark : ℕ → ℕ → Avp → Avp
mark now threshold agent = if is_lost threshold agent then as_failed now agent else agent

lookup-mark_lost :
    (clock : Clock) (now threshold : ℕ) (agents : List (String × Avp)) (sink : Option (List Event))
    (j : String)
    → lookup dec_str j (mark_lost clock now threshold agents sink).agents
      ≡ Option.map (mark now threshold) (lookup dec_str j agents)
unfolding mark_lost mark lookup
lookup-mark_lost clock now threshold [] sink j = refl
lookup-mark_lost clock now threshold ((id, agent) ∷ rest) sink j =
    elim (Bool-cases (is_lost threshold agent)) [
      | inl e ↦
          let more =
            lookup-mark_lost (later 4 clock) now threshold rest
              (announce_lost clock (as_failed now agent) sink) j in
          rw e (ground (arith, more))
      | inr e ↦ rw e (ground (arith, lookup-mark_lost clock now threshold rest sink j))
    ]

lost_of_completed :
    (threshold : ℕ) (agent : Avp)
    → agent.state ≡ completed
    → agent.pid ≢ 0
    → agent.last_seen ≢ 0
    → agent.last_seen < threshold
    → is_lost threshold agent ≡ true
unfolding is_lost AgentState-discrete
lost_of_completed threshold agent s p l t = rw s (ground arith)

-- An agent that has completed and whose worker is no longer heard of is turned to FAILED, a move that
-- validTransition does not admit.
pub completed_lost :
    (clock : Clock) (now threshold : ℕ) (r : Registry) (id : String) (agent : Avp)
    → lookup dec_str id r.agents ≡ some agent
    → agent.state ≡ completed
    → agent.pid ≢ 0
    → agent.last_seen ≢ 0
    → agent.last_seen < threshold
    → (lookup dec_str id (mark_heartbeat_lost clock now threshold r).0.agents
        ≡ some (as_failed now agent))
      × (valid_transition completed (as_failed now agent).state ≡ false)
unfolding mark_heartbeat_lost mark as_failed valid_transition targets is_among AgentState-discrete
completed_lost clock now threshold r id agent e s p l t =
    let lost = lost_of_completed threshold agent s p l t in
    (lookup-mark_lost clock now threshold r.agents r.sink id ∙ rw (e, mark, lost) refl, refl)

known_agent :
    (now : Clock) (message : Message) (r : Registry) (agent : Avp)
    → lookup dec_str message.agent_id r.agents ≡ some agent
    → agent_for_message_locked now message r ≡ agent
unfolding agent_for_message_locked
known_agent now message r agent e = rw (e, agent_for_message_locked) refl

heartbeat_nameless :
    (now : Clock) (message : Message) (r : Registry) (agent : Avp)
    → lookup dec_str message.agent_id r.agents ≡ some agent
    → agent.agent_id ≡ ""
    → message.agent_id ≢ ""
    → lookup dec_str message.agent_id (heartbeat now message r).agents ≡ some agent
unfolding heartbeat put
heartbeat_nameless now message r agent e nameless named =
    let own : (agent_for_message_locked now message r).agent_id ≡ "" =
      ap (λ (a : Avp). a.agent_id) (known_agent now message r agent e) ∙ nameless in
    (put_lem "" _ _ r.agents own).1 message.agent_id named ∙ e

agent_or_zero_unknown :
    (id : String) (r : Registry) → lookup dec_str id r.agents ≡ none → agent_or_zero id r ≡ no_avp
unfolding agent_or_zero lookup_or
agent_or_zero_unknown id r e = rw (e, lookup_or) refl

set_state-entry :
    (now : Clock) (id : String) (state : AgentState) (r : Registry)
    → lookup dec_str id r.agents ≡ none
    → lookup dec_str id (set_state now id state r).agents
      ≡ some (record no_avp { state = state; updated_at = (now 0).unix_milli })
unfolding set_state put announce
set_state-entry now id state r e =
    (put_lem id id _ r.agents refl).0
    ∙ ap (λ (a : Avp). some (record a { state = state; updated_at = (now 0).unix_milli }))
        (agent_or_zero_unknown id r e)

-- A state set for an id that the registry does not know is kept under that id in an entry that has no
-- id itself, so a heartbeat of that agent never reaches the entry: it stays unseen.
pub set_state_unknown :
    (now later_on : Clock) (state : AgentState) (message : Message) (r : Registry)
    → lookup dec_str message.agent_id r.agents ≡ none
    → message.agent_id ≢ ""
    → let r' = set_state now message.agent_id state r in
      (agent : Avp) × (lookup dec_str message.agent_id r'.agents ≡ some agent)
      × (lookup dec_str message.agent_id (heartbeat later_on message r').agents ≡ some agent)
      × (agent.agent_id ≡ "")
      × (agent.last_seen ≡ 0)
set_state_unknown now later_on state message r e n =
    let kept = set_state-entry now message.agent_id state r e in
    (
      _,
      kept,
      heartbeat_nameless later_on message (set_state now message.agent_id state r) _ kept refl n,
      refl,
      refl,
    )
