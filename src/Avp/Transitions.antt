-- ===== src/Avp/Transitions.antt =====
-- internal/avp/manager.go: what `Transition` does to the manager, once and over a run.
use os_complete.Base.{
  ◌≡◌, ◌≢◌, refl, inl, inr, String, List, [], ◌∷◌, Option, none, some, true, false, ◌⊎◌, lookup,
  lookup-insert, dec_str, arith, Bool-cases, Option-cases,
}
use os_complete.Events.{Clock}
use os_complete.Avp.{AgentState, Manager, completed, killed, valid_transition, transition}

-- The state of an agent that the manager knows.
unfoldable pub state_of : String → Manager → Option AgentState
state_of agent_id m = elim (lookup dec_str agent_id m.agents) [
  | none ↦ none
  | some agent ↦ some agent.state
]

-- `Transition` succeeds exactly if the agent is known and the move is valid. Then the agent has the
-- new state; a failure changes nothing at all. No other agent changes either way.
pub transition_lem :
    (now : Clock) (agent_id : String) (next : AgentState) (m : Manager)
    → let r = transition now agent_id next m in
      (((r.1 ≡ none)
          × (state_of agent_id r.0 ≡ some next)
          × ((from : AgentState) × (state_of agent_id m ≡ some from)
              × (valid_transition from next ≡ true)))
        ⊎ ((r.1 ≢ none)
            × (r.0 ≡ m)
            × ((from : AgentState)
                → state_of agent_id m ≡ some from
                → valid_transition from next ≡ false)))
      × ((j : String) → j ≢ agent_id → lookup dec_str j r.0.agents ≡ lookup dec_str j m.agents)
unfolding transition state_of
transition_lem now agent_id next m = elim (Option-cases (lookup dec_str agent_id m.agents)) [
  | inl e ↦ rw (e, transition) (inr (λ p. cc, refl, λ from p. absurd (cc)), λ j h. refl)
  | inr (agent, e) ↦ elim (Bool-cases (valid_transition agent.state next)) [
    | inl v ↦
        rw (e, v, transition)
          (
            inl (
              refl,
              ground (
                arith,
                lookup-insert dec_str agent_id agent_id
                    (record agent { state = next; updated_at = (now 0).unix_milli }) m.agents,
              ),
              (agent.state, ground arith, v),
            ),
            λ j h. ground (
              arith,
              lookup-insert dec_str agent_id j
                  (record agent { state = next; updated_at = (now 0).unix_milli }) m.agents,
            ),
          )
    | inr v ↦ rw (e, v, transition) (inr (λ p. cc, refl, λ from p. ground arith), λ j h. refl)
  ]
]

-- Requests in the order in which they take the lock.
unfoldable pub requests : List (Clock × String × AgentState) → Manager → Manager
requests [] m = m
requests ((now, agent_id, next) ∷ rest) m = requests rest (transition now agent_id next m).0

final_stuck :
    (final to : AgentState)
    → (final ≡ completed) ⊎ (final ≡ killed)
    → valid_transition final to ≡ false
unfolding valid_transition
final_stuck final to (inl e) = rw e
final_stuck final to (inr e) = rw e

-- Nothing moves an agent that has completed or was killed.
transition_final :
    (now : Clock) (agent_id j : String) (next final : AgentState) (m : Manager)
    → (final ≡ completed) ⊎ (final ≡ killed)
    → state_of j m ≡ some final
    → state_of j (transition now agent_id next m).0 ≡ some final
unfolding state_of
transition_final now agent_id j next final m h e =
    let (own, others) = transition_lem now agent_id next m in
    elim (dec_str j agent_id) [
      | yes p ↦ elim own [
        | inl (_, _, (from, known, valid)) ↦
            let same : from ≡ final = ground arith in absurd (cc (final_stuck final next h))
        | inr (_, unchanged, _) ↦ rw unchanged e
      ]
      | no p ↦ rw (others j p, state_of) e
    ]

-- Completed and killed are final: no sequence of requests moves the agent on.
pub requests_final :
    (list : List (Clock × String × AgentState)) (j : String) (final : AgentState) (m : Manager)
    → (final ≡ completed) ⊎ (final ≡ killed)
    → state_of j m ≡ some final
    → state_of j (requests list m) ≡ some final
unfolding requests
requests_final [] j final m h e = e
requests_final ((now, agent_id, next) ∷ rest) j final m h e =
    requests_final rest j final (transition now agent_id next m).0 h
      (transition_final now agent_id j next final m h e)
