-- ===== src/Registry/Entry.antt =====
-- internal/worker/registry.go and protocol.go: the registry, its entries and its events.
use os_complete.Avp.{
  AgentState, Avp, no_avp, created, ready, running, waiting_llm, waiting_tool, waiting_ipc,
  suspended, completed, failed, killed, other,
}
use os_complete.Base.{
  ℕ, String, List, [], ◌∷◌, ◌++◌, Option, none, some, insert, ite, dec_str, Bool, false, pos,
}
use os_complete.Events.{Clock, Event, Payload, new_event}

pub record Message : Type 0 where
  pub type : String
  pub request_id : String
  pub agent_id : String
  pub role : String
  pub task_id : String
  pub pid : ℕ
  pub status : String
  pub name : String
  -- `nil` or a map.
  pub args : Option Payload
  pub payload : Option Payload

pub record Registry : Type 0 where
  pub agents : List (String × Avp)
  pub sink : Option (List Event)
  -- Whether a callback is set.
  pub on_register : Bool

unfoldable pub new_registry : Option (List Event) → Registry
new_registry sink = record { agents = []; sink = sink; on_register = false }

-- The text of a state, and the state of a text.
unfoldable pub state_text : AgentState → String
state_text created = "CREATED"
state_text ready = "READY"
state_text running = "RUNNING"
state_text waiting_llm = "WAITING_LLM"
state_text waiting_tool = "WAITING_TOOL"
state_text waiting_ipc = "WAITING_IPC"
state_text suspended = "SUSPENDED"
state_text completed = "COMPLETED"
state_text failed = "FAILED"
state_text killed = "KILLED"
state_text (other status) = status

unfoldable pub agent_state : String → AgentState
agent_state status = ite (dec_str status "CREATED") created (
    ite (dec_str status "READY") ready (
      ite (dec_str status "RUNNING") running (
        ite (dec_str status "WAITING_LLM") waiting_llm (
          ite (dec_str status "WAITING_TOOL") waiting_tool (
            ite (dec_str status "WAITING_IPC") waiting_ipc (
              ite (dec_str status "SUSPENDED") suspended (
                ite (dec_str status "COMPLETED") completed (
                  ite (dec_str status "FAILED") failed
                    (ite (dec_str status "KILLED") killed (other status))))))))))

unfoldable pub publish_event :
    Clock → String → Avp → Payload → Option (List Event) → Option (List Event)
publish_event now event_type agent payload none = none
publish_event now event_type agent payload (some log) =
    some (log ++ new_event now event_type agent.task_id agent.agent_id "runtime" payload ∷ [])

-- `r.agents[id] = agent`.
unfoldable pub put : String → Avp → Registry → Registry
put id agent r = record r { agents = insert dec_str id agent r.agents }

unfoldable pub announce : Clock → String → Avp → Payload → Registry → Registry
unfolding publish_event
announce now event_type agent payload r = record r {
  sink = publish_event now event_type agent payload r.sink;
}

-- A new agent as `CreateAgent` and `agentForMessageLocked` make it.
unfoldable pub fresh_agent : Clock → String → String → String → Avp
fresh_agent now agent_id role task_id = record no_avp {
  agent_id = agent_id;
  task_id = task_id;
  role = role;
  state = created;
  priority = pos 100;
  weight = pos 100;
  created_at = (now 0).unix_milli;
  updated_at = (now 0).unix_milli;
}
