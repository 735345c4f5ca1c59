-- ===== src/Avp.antt =====
-- internal/avp: the agent record (types.go) and the manager of agents (manager.go).
--
-- `AgentState` is a text in Go; here it is a data type of the constants, with `other` for any text
-- that is none of them. Counts that Go keeps in an `int` and that may be negative are integers.
pub mod States
pub mod Transitions
mod Tests
use Prim.Native.String.{◌++◌ as append}
use os_complete.Base.{
  ℕ, suc, ◌+◌, ◌/◌, ◌%◌, ◌==◌, String, List, [], ◌∷◌, Option, none, some, Bool, true, false, lookup,
  insert, ite, dec_str, if◌then◌else◌, ℤ, pos, ◌≡◌, zero, map,
}
use os_complete.Events.{Clock}

pub data AgentState : Type 0 where
  created ready running waiting_llm waiting_tool waiting_ipc suspended completed failed killed :
      AgentState
  other : String → AgentState

pub record Avp : Type 0 where
  pub agent_id : String
  pub task_id : String
  pub role : String
  pub state : AgentState
  pub priority : ℤ
  pub weight : ℤ
  pub vruntime : ℕ
  pub consumed_tokens : ℤ
  pub dependencies : List String
  pub page_table : List String
  pub context_pages : List String
  pub pid : ℕ
  pub cgroup_path : String
  pub capsule_mode : String
  pub memory_current : ℕ
  pub pids_current : ℕ
  -- `CPUStat`, `nil` or a map.
  pub cpu_stat : Option (List (String × ℕ))
  pub workspace_path : String
  pub retry_count : ℕ
  pub created_at : ℕ
  pub updated_at : ℕ
  pub last_seen : ℕ

-- `AVP{}`. The state of the zero value is the empty text.
abbrev pub no_avp : Avp
no_avp = record {
  agent_id = "";
  task_id = "";
  role = "";
  state = other "";
  priority = pos 0;
  weight = pos 0;
  vruntime = 0;
  consumed_tokens = pos 0;
  dependencies = [];
  page_table = [];
  context_pages = [];
  pid = 0;
  cgroup_path = "";
  capsule_mode = "";
  memory_current = 0;
  pids_current = 0;
  cpu_stat = none;
  workspace_path = "";
  retry_count = 0;
  created_at = 0;
  updated_at = 0;
  last_seen = 0;
}

-- The map of `validTransition`.
unfoldable pub targets : AgentState → List AgentState
targets created = ready ∷ []
targets ready = running ∷ []
targets running = waiting_llm ∷ waiting_tool ∷ waiting_ipc ∷ suspended ∷ completed ∷ failed ∷ []
targets waiting_llm = ready ∷ []
targets waiting_tool = ready ∷ []
targets waiting_ipc = ready ∷ []
targets suspended = ready ∷ []
targets failed = ready ∷ killed ∷ []
targets completed = []
targets killed = []
targets (other text) = []

unfoldable pub AgentState-discrete : Discrete AgentState
unfolding dec_str
AgentState-discrete = hlevel dec_str

unfoldable pub is_among : AgentState → List AgentState → Bool
is_among to [] = false
is_among to (candidate ∷ rest) = ite (AgentState-discrete candidate to) true (is_among to rest)

unfoldable pub valid_transition : AgentState → AgentState → Bool
unfolding targets is_among
valid_transition from to = is_among to (targets from)

pub record Manager : Type 0 where
  pub next_id : ℕ
  pub agents : List (String × Avp)

unfoldable pub new_manager : Manager
new_manager = record { next_id = 0; agents = [] }

unfoldable digit : ℕ → String
digit n =
    if n == 0
    then "0"
    else if n == 1
    then "1"
    else if n == 2
    then "2"
    else if n == 3
    then "3"
    else if n == 4
    then "4"
    else if n == 5
    then "5"
    else if n == 6
    then "6"
    else if n == 7
    then "7"
    else if n == 8
    then "8"
    else "9"

-- `%d`: the first argument bounds the number of digits.
unfoldable pub decimal : ℕ → ℕ → String
unfolding digit
decimal zero n = ""
decimal (suc k) n =
    let rest = decimal k (n / 10) in if n / 10 == 0 then digit n else append rest (digit (n % 10))

-- `fmt.Sprintf("%s-%d", role, id)`.
unfoldable pub agent_name : String → ℕ → String
unfolding decimal
agent_name role id = append role (append "-" (decimal (suc id) id))

-- An agent as `Create` makes it.
unfoldable pub new_agent : Clock → String → String → String → List String → Avp
new_agent now agent_id task_id role deps = record no_avp {
  agent_id = agent_id;
  task_id = task_id;
  role = role;
  state = created;
  priority = pos 100;
  weight = pos 100;
  dependencies = deps;
  created_at = (now 0).unix_milli;
  updated_at = (now 1).unix_milli;
}

unfoldable pub create : Clock → String → String → List String → Manager → Manager × Avp
unfolding agent_name new_agent
create now task_id role deps m =
    let agent = new_agent now (agent_name role (suc m.next_id)) task_id role deps in
    (
      record { next_id = suc m.next_id; agents = insert dec_str agent.agent_id agent m.agents },
      agent,
    )

unfoldable pub get : String → Manager → Option Avp
get agent_id m = lookup dec_str agent_id m.agents

unfoldable list : Manager → List Avp
list m = map (λ (entry : String × Avp). entry.1) m.agents

pub data TransitionError : Type 0 where
  unknown_agent : String → TransitionError
  invalid_transition : AgentState → AgentState → TransitionError

-- The new manager, and the error, if any.
unfoldable pub transition : Clock → String → AgentState → Manager → Manager × Option TransitionError
transition now agent_id next m = elim (lookup dec_str agent_id m.agents) [
  | none ↦ (m, some (unknown_agent agent_id))
  | some agent ↦
      if valid_transition agent.state next
      then (
        record m {
          agents =
              insert dec_str agent_id
                (record agent { state = next; updated_at = (now 0).unix_milli }) m.agents;
        },
        none,
      )
      else (m, some (invalid_transition agent.state next))
]
