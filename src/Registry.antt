-- ===== src/Registry.antt =====
-- internal/worker/registry.go: the agents as their worker processes report them.
--
-- `r.mu` is held over each operation, so an operation is a function on the registry. `sink` is `nil`
-- or the events that it was given. A handler that reads the clock only on some branch leaves that
-- reading out on the others: the number in `now n` names the place in the code. `onRegister`, if it is
-- set, is called with the agent that `register` returns as its second result.
pub mod Entry
pub mod Sweep
pub mod Keys
pub mod Heartbeats
mod Tests
use os_complete.Avp.{
  AgentState, Avp, no_avp, created, ready, running, waiting_llm, waiting_tool, waiting_ipc,
  suspended, completed, failed, killed, other, AgentState-discrete,
}
use os_complete.Base.{
  map, ℕ, ◌+◌, ◌==◌, String, List, [], ◌∷◌, ◌++◌, Option, none, some, lookup, lookup_or, insert,
  ite, dec_str, ltb, Bool, true, false, not, ◌&&◌, ◌||◌, if◌then◌else◌, ℤ, pos, negsuc,
}
use os_complete.Events.{Clock, later, Event, Payload, end, field, text, num, new_event}
use Entry.{
  Message, Registry, new_registry, state_text, agent_state, publish_event, put, announce,
  fresh_agent,
}
use Sweep.{mark_lost}

unfoldable pub create_agent : Clock → String → String → String → Registry → Registry × Avp
unfolding fresh_agent put announce
create_agent now agent_id role task_id r =
    let agent = fresh_agent now agent_id role task_id in
    (
      announce (later 1 now) "agent.created" agent (field "role" (text role) end)
          (put agent_id agent r),
      agent,
    )

unfoldable pub get_agent : String → Registry → Option Avp
get_agent agent_id r = lookup dec_str agent_id r.agents

unfoldable list_agents : Registry → List Avp
list_agents r = map (λ (entry : String × Avp). entry.1) r.agents

unfoldable pub of_task : String → List (String × Avp) → List Avp
of_task task_id [] = []
of_task task_id ((id, agent) ∷ rest) =
    ite (dec_str agent.task_id task_id) (agent ∷ of_task task_id rest) (of_task task_id rest)

unfoldable pub list_by_task : String → Registry → List Avp
unfolding of_task
list_by_task task_id r = of_task task_id r.agents

unfoldable pub set_on_register : Bool → Registry → Registry
set_on_register given r = record r { on_register = given }

-- `r.agents[id]`: the zero value for a missing id.
unfoldable pub agent_or_zero : String → Registry → Avp
agent_or_zero agent_id r = lookup_or dec_str no_avp agent_id r.agents

unfoldable pub set_capsule : Clock → String → String → String → Registry → Registry
unfolding agent_or_zero put announce
set_capsule now agent_id cgroup_path mode r =
    let agent = record (agent_or_zero agent_id r) {
      cgroup_path = cgroup_path;
      capsule_mode = mode;
      updated_at = (now 0).unix_milli;
    } in
    announce (later 1 now) "agent.capsule_attached" agent
      (field "cgroup_path" (text cgroup_path) (field "mode" (text mode) end)) (put agent_id agent r)

unfoldable pub set_workspace : Clock → String → String → Registry → Registry
unfolding agent_or_zero put announce
set_workspace now agent_id workspace_path r =
    let agent = record (agent_or_zero agent_id r) {
      workspace_path = workspace_path;
      updated_at = (now 0).unix_milli;
    } in
    announce (later 1 now) "agent.workspace_attached" agent
      (field "workspace_path" (text workspace_path) end) (put agent_id agent r)

unfoldable pub set_state : Clock → String → AgentState → Registry → Registry
unfolding agent_or_zero put announce state_text
set_state now agent_id state r =
    let agent = record (agent_or_zero agent_id r) {
      state = state;
      updated_at = (now 0).unix_milli;
    } in
    announce (later 1 now) "agent.state_changed" agent (field "state" (text (state_text state)) end)
      (put agent_id agent r)

-- Fields that are 0 get their defaults.
or_else : ℕ → ℕ → ℕ
or_else default n = if n == 0 then default else n

or_hundred : ℤ → ℤ
or_hundred (pos n) = if n == 0 then pos 100 else pos n
or_hundred (negsuc n) = negsuc n

unfoldable pub restore_agent : Clock → Avp → Registry → Registry
unfolding or_else or_hundred put announce state_text
restore_agent now given r =
    let agent = record given {
      created_at = or_else (now 0).unix_milli given.created_at;
      updated_at = or_else (now 0).unix_milli given.updated_at;
      priority = or_hundred given.priority;
      weight = or_hundred given.weight;
    } in
    announce (later 1 now) "agent.recovered" agent
      (field "state" (text (state_text agent.state)) (field "vruntime" (num agent.vruntime) end))
      (put agent.agent_id agent r)

-- `now` is the argument's milliseconds, `threshold` those of `now.Add(-timeout)`.
unfoldable pub mark_heartbeat_lost : Clock → ℕ → ℕ → Registry → Registry × List Avp
unfolding mark_lost
mark_heartbeat_lost clock now threshold r =
    let l = mark_lost clock now threshold r.agents r.sink in
    (record r { agents = l.agents; sink = l.sink }, l.failures)

unfoldable pub agent_for_message_locked : Clock → Message → Registry → Avp
unfolding fresh_agent
agent_for_message_locked now message r = elim (lookup dec_str message.agent_id r.agents) [
  | some agent ↦ agent
  | none ↦ fresh_agent now message.agent_id message.role message.task_id
]

unfoldable pub register : Clock → Message → Registry → Registry × Option Avp
unfolding agent_for_message_locked put announce state_text
register now message r =
    let agent = record (agent_for_message_locked now message r) {
      pid = message.pid;
      state = running;
      last_seen = (now 1).unix_milli;
      updated_at = (now 1).unix_milli;
    } in
    (
      announce (later 4 now) "agent.state_changed" agent
          (field "state" (text (state_text agent.state)) end)
          (announce (later 2 now) "agent.registered" agent (field "pid" (num message.pid) end)
            (put agent.agent_id agent r)),
      if r.on_register then some agent else none,
    )

unfoldable pub heartbeat : Clock → Message → Registry → Registry
unfolding agent_for_message_locked put
heartbeat now message r =
    let agent = agent_for_message_locked now message r in
    let agent' = record agent {
      last_seen = (now 1).unix_milli;
      updated_at = (now 1).unix_milli;
      pid = if message.pid == 0 then agent.pid else message.pid;
    } in
    put agent'.agent_id agent' r

unfoldable pub report : Clock → Message → Registry → Registry
unfolding agent_for_message_locked put announce state_text agent_state
report now message r =
    let agent = agent_for_message_locked now message r in
    let agent' = record agent {
      state = ite (dec_str message.status "") agent.state (agent_state message.status);
      updated_at = (now 1).unix_milli;
      last_seen = (now 1).unix_milli;
    } in
    announce (later 4 now) "agent.state_changed" agent'
      (field "state" (text (state_text agent'.state)) end)
      (announce (later 2 now) "agent.report" agent' (field "status" (text message.status) end)
        (put agent'.agent_id agent' r))

unfoldable pub handle_message : Clock → Message → Registry → Registry × Option Avp
unfolding register heartbeat report
handle_message now message r = ite (dec_str message.type "register") (register now message r) (
    ite (dec_str message.type "heartbeat") (heartbeat now message r, none)
      (ite (dec_str message.type "report") (report now message r, none) (r, none)))
