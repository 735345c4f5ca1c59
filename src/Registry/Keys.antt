-- ===== src/Registry/Keys.antt =====
-- internal/worker/registry.go: the entry of an agent and the key it is kept under.
use os_complete.Avp.{AgentState, Avp}
use os_complete.Base.{
  ℕ, ◌≡◌, inl, inr, refl, String, List, [], ◌∷◌, Option, some, lookup, lookup_or, insert, Each,
  insert-Each, lookup-Each, dec_str, Bool, Option-cases, Bool-cases, Dec-cases,
}
use os_complete.Events.{Clock, later, Event}
use os_complete.Registry.Entry.{Message, Registry, new_registry, put, announce, fresh_agent}
use os_complete.Registry.Sweep.{mark_lost, is_lost, as_failed, announce_lost}
use os_complete.Registry.{
  create_agent, set_on_register, agent_or_zero, set_capsule, set_workspace, set_state,
  restore_agent, mark_heartbeat_lost, agent_for_message_locked, register, heartbeat, report,
  handle_message,
}

-- Every agent is kept under its own id.
abbrev pub IsKeyed : Registry → Type 0
IsKeyed r = Each (λ id (agent : Avp). agent.agent_id ≡ id) r.agents

-- The registries that the calls reach, where the setters name agents that the registry knows.
pub data Reachable : Registry → Type 0 where
  starts : (sink : Option (List Event)) → Reachable (new_registry sink)
  creates :
      (now : Clock) (agent_id role task_id : String) (r : Registry)
      → Reachable r
      → Reachable (create_agent now agent_id role task_id r).0
  handles :
      (now : Clock) (message : Message) (r : Registry)
      → Reachable r
      → Reachable (handle_message now message r).0
  restores :
      (now : Clock) (agent : Avp) (r : Registry)
      → Reachable r
      → Reachable (restore_agent now agent r)
  marks :
      (clock : Clock) (now threshold : ℕ) (r : Registry)
      → Reachable r
      → Reachable (mark_heartbeat_lost clock now threshold r).0
  listens : (given : Bool) (r : Registry) → Reachable r → Reachable (set_on_register given r)
  sets_capsule :
      (now : Clock) (agent_id cgroup_path mode : String) (r : Registry) (agent : Avp)
      → lookup dec_str agent_id r.agents ≡ some agent
      → Reachable r
      → Reachable (set_capsule now agent_id cgroup_path mode r)
  sets_workspace :
      (now : Clock) (agent_id workspace_path : String) (r : Registry) (agent : Avp)
      → lookup dec_str agent_id r.agents ≡ some agent
      → Reachable r
      → Reachable (set_workspace now agent_id workspace_path r)
  sets_state :
      (now : Clock) (agent_id : String) (state : AgentState) (r : Registry) (agent : Avp)
      → lookup dec_str agent_id r.agents ≡ some agent
      → Reachable r
      → Reachable (set_state now agent_id state r)

-- An agent put under its own id.
keyed :
    {id : String} (agent : Avp) (r : Registry)
    → agent.agent_id ≡ id
    → IsKeyed r
    → Each (λ id (agent : Avp). agent.agent_id ≡ id) (insert dec_str id agent r.agents)
keyed {id} agent r e h =
    insert-Each dec_str (λ id (agent : Avp). agent.agent_id ≡ id) id agent r.agents e h

-- The entry of a known agent has its id.
agent_or_zero-id :
    (id : String) (r : Registry) (agent : Avp)
    → lookup dec_str id r.agents ≡ some agent
    → IsKeyed r
    → (agent_or_zero id r).agent_id ≡ id
unfolding agent_or_zero lookup_or
agent_or_zero-id id r agent e h =
    rw (e, lookup_or) (lookup-Each dec_str (λ id (a : Avp). a.agent_id ≡ id) id agent r.agents h e)

pub agent_for_message_locked-id :
    (now : Clock) (message : Message) (r : Registry)
    → IsKeyed r
    → (agent_for_message_locked now message r).agent_id ≡ message.agent_id
unfolding agent_for_message_locked fresh_agent
agent_for_message_locked-id now message r h =
    elim (Option-cases (lookup dec_str message.agent_id r.agents)) [
      | inl e ↦ rw (e, agent_for_message_locked) refl
      | inr (agent, e) ↦
          rw (e, agent_for_message_locked)
            (lookup-Each dec_str (λ id (a : Avp). a.agent_id ≡ id) message.agent_id agent r.agents h
              e)
    ]

handle_message-IsKeyed :
    (now : Clock) (message : Message) (r : Registry)
    → IsKeyed r
    → IsKeyed (handle_message now message r).0
unfolding handle_message register heartbeat report announce put
handle_message-IsKeyed now message r h = elim (Dec-cases (dec_str message.type "register")) [
  | inl (_, e) ↦ rw (e, handle_message) (keyed _ r refl h)
  | inr (_, e) ↦ elim (Dec-cases (dec_str message.type "heartbeat")) [
    | inl (_, d) ↦ rw (e, d, handle_message) (keyed _ r refl h)
    | inr (_, d) ↦ elim (Dec-cases (dec_str message.type "report")) [
      | inl (_, c) ↦ rw (e, d, c, handle_message) (keyed _ r refl h)
      | inr (_, c) ↦ rw (e, d, c, handle_message) h
    ]
  ]
]

mark_lost-IsKeyed :
    (clock : Clock) (now threshold : ℕ) (agents : List (String × Avp)) (sink : Option (List Event))
    → Each (λ id (agent : Avp). agent.agent_id ≡ id) agents
    → Each
        (λ id (agent : Avp). agent.agent_id ≡ id)
        (mark_lost clock now threshold agents sink).agents
unfolding mark_lost as_failed
mark_lost-IsKeyed clock now threshold [] sink h = tt
mark_lost-IsKeyed clock now threshold ((id, agent) ∷ rest) sink h =
    elim (Bool-cases (is_lost threshold agent)) [
      | inl e ↦ rw e (
        h.0,
        mark_lost-IsKeyed (later 4 clock) now threshold rest
            (announce_lost clock (as_failed now agent) sink) h.1,
      )
      | inr e ↦ rw e (h.0, mark_lost-IsKeyed clock now threshold rest sink h.1)
    ]

-- As long as the setters name known agents, every agent is kept under its own id, whatever the workers
-- send and however often heartbeats are checked.
pub Reachable-IsKeyed : (r : Registry) → Reachable r → IsKeyed r
unfolding new_registry create_agent restore_agent set_on_register set_capsule set_workspace
    set_state announce fresh_agent mark_heartbeat_lost put
Reachable-IsKeyed _ (starts sink) = tt
Reachable-IsKeyed _ (creates now agent_id role task_id r s) = keyed _ r refl (Reachable-IsKeyed r s)
Reachable-IsKeyed _ (handles now message r s) =
    handle_message-IsKeyed now message r (Reachable-IsKeyed r s)
Reachable-IsKeyed _ (restores now agent r s) = keyed _ r refl (Reachable-IsKeyed r s)
Reachable-IsKeyed _ (marks clock now threshold r s) =
    mark_lost-IsKeyed clock now threshold r.agents r.sink (Reachable-IsKeyed r s)
Reachable-IsKeyed _ (listens given r s) = Reachable-IsKeyed r s
Reachable-IsKeyed _ (sets_capsule now agent_id cgroup_path mode r agent e s) =
    let h = Reachable-IsKeyed r s in keyed _ r (agent_or_zero-id agent_id r agent e h) h
Reachable-IsKeyed _ (sets_workspace now agent_id workspace_path r agent e s) =
    let h = Reachable-IsKeyed r s in keyed _ r (agent_or_zero-id agent_id r agent e h) h
Reachable-IsKeyed _ (sets_state now agent_id state r agent e s) =
    let h = Reachable-IsKeyed r s in keyed _ r (agent_or_zero-id agent_id r agent e h) h
