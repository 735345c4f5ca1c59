-- ===== src/Checkpoint.antt =====
-- internal/checkpoint/checkpoint.go: the snapshots of a task, which is the latest, and what a recovery
-- reports of it.
--
-- Reading and writing the files is not modelled: `Listing` is what `List` or `listTask` found, and
-- `Saved` what `Save` writes and where. `sort.Slice` is a stable sort here.
pub mod Latest
pub mod Recovery
mod Tests
use Prim.Native.Char.{code}
use Prim.Native.String.{◌++◌ as append}
use os_complete.Avp.{AgentState, AgentState-discrete, completed, failed, killed, Avp, decimal}
use os_complete.Base.{
  ℕ, zero, suc, ◌+◌, ◌-◌, String, List, [], ◌∷◌, ◌++◌, Option, none, some, Bool, true, false, ◌==◌,
  ◌||◌, length, insert, lookup, ite, dec_str, ltb, sort, if◌then◌else◌, ℤ, pos, negsuc, pos_part,
  neg_part, ltb_ℤ, map,
}
use os_complete.Base.Attempt.{Attempt, done, fails}
use os_complete.Dag.{before}

pub record Snapshot : Type 0 where
  pub task_id : String
  pub sequence : ℤ
  pub agents : List Avp
  pub page_tables : List (String × List String)
  pub scheduler_vruntime : List (String × ℕ)
  pub trace_offset : ℤ
  pub mode : String
  pub created_at : ℤ

pub record RecoveredTask : Type 0 where
  pub task_id : String
  pub sequence : ℤ
  pub status : String
  pub agent_count : ℕ
  pub completed_agents : List String
  pub ready_agents : List String
  pub page_table_refs : ℕ
  pub scheduler_vruntime : List (String × ℕ)
  pub created_at : ℤ

pub record RecoveryReport : Type 0 where
  pub mode : String
  pub degraded : Bool
  pub reason : String
  pub task_count : ℕ
  pub recovered_at : ℕ
  pub recovered_tasks : List RecoveredTask

-- The replacer of `safeName`: `/`, `\`, `:` and `..` become `_`.
unfoldable pub safe_name : String → String
safe_name String.[] = ""
safe_name (String.◌∷◌ c String.[]) = elim (code c == 0x2f || code c == 0x5c || code c == 0x3a) [
  | true ↦ "_"
  | false ↦ String.◌∷◌ c ""
]
safe_name (String.◌∷◌ c (String.◌∷◌ d rest)) =
    let next = safe_name (String.◌∷◌ d rest) in
    let after = safe_name rest in
    elim (code c == 0x2f || code c == 0x5c || code c == 0x3a) [
      | true ↦ append "_" next
      | false ↦ elim (code c == 0x2e) [
        | true ↦ elim (code d == 0x2e) [ true ↦ append "_" after | false ↦ String.◌∷◌ c next ]
        | false ↦ String.◌∷◌ c next
      ]
    ]

sequence_or_one : ℤ → ℤ
sequence_or_one (pos zero) = pos 1
sequence_or_one (pos (suc n)) = pos (suc n)
sequence_or_one (negsuc n) = pos 1

created_or : ℤ → ℤ → ℤ
created_or now (pos zero) = now
created_or now (pos (suc n)) = pos (suc n)
created_or now (negsuc n) = negsuc n

-- The defaults of `Save`.
unfoldable pub normalized : ℕ → Snapshot → Snapshot
unfolding sequence_or_one created_or
normalized now snapshot = record snapshot {
  sequence = sequence_or_one snapshot.sequence;
  mode = ite (dec_str snapshot.mode "") "runtime-state" snapshot.mode;
  created_at = created_or (pos now) snapshot.created_at;
}

pub record Saved : Type 0 where
  pub dir : String
  pub file : String
  pub snapshot : Snapshot

count_chars : String → ℕ
count_chars String.[] = 0
count_chars (String.◌∷◌ c rest) = suc (count_chars rest)

zeros : ℕ → String
zeros zero = ""
zeros (suc n) = append "0" (zeros n)

-- `%06d` of a number that is not negative.
six_digits : ℕ → String
unfolding count_chars zeros
six_digits n = let digits = decimal (suc n) n in append (zeros (6 - count_chars digits)) digits

-- `Save` up to the writing: the directory below the root, the file and its content.
unfoldable pub save : ℕ → Snapshot → Attempt Saved
unfolding normalized safe_name six_digits
save now snapshot = ite (dec_str snapshot.task_id "") (fails "task_id is required") (
    done (record {
      dir = safe_name snapshot.task_id;
      file = append (six_digits (pos_part (normalized now snapshot).sequence)) ".json";
      snapshot = normalized now snapshot;
    }))

abbrev pub eq_ℤ : ℤ → ℤ → Bool
eq_ℤ a b = pos_part a + neg_part b == pos_part b + neg_part a

-- The order of the snapshots of one task.
unfoldable pub sooner : Snapshot → Snapshot → Bool
sooner a b =
    if eq_ℤ a.sequence b.sequence
    then ltb_ℤ a.created_at b.created_at
    else ltb_ℤ a.sequence b.sequence

unfoldable pub precedes : Snapshot → Snapshot → Bool
unfolding sooner
precedes a b = ite (dec_str a.task_id b.task_id) (sooner a b) (before a.task_id b.task_id)

unfoldable pub sort_snapshots : List Snapshot → List Snapshot
unfolding precedes
sort_snapshots snapshots = sort precedes snapshots

-- What reading the files gives: nothing there, an error, or the snapshots in the order of the files.
pub data Listing : Type 0 where
  missing : Listing
  unreadable : String → Listing
  found : List Snapshot → Listing

-- `List`, and `listTask`.
unfoldable pub list_task : Listing → Attempt (List Snapshot)
unfolding sort_snapshots
list_task missing = done []
list_task (unreadable error) = fails error
list_task (found snapshots) = done (sort_snapshots snapshots)

unfoldable pub last_of : List Snapshot → Option Snapshot
last_of [] = none
last_of (snapshot ∷ []) = some snapshot
last_of (snapshot ∷ next ∷ rest) = last_of (next ∷ rest)

-- `quoted` is `%q`; the listing is that of the task's directory.
unfoldable pub load_latest : (String → String) → String → Listing → Attempt Snapshot
unfolding list_task last_of
load_latest quoted task_id listing =
    ite (dec_str task_id "") (fails "task_id is required") (elim (list_task listing) [
      | fails error ↦ fails error
      | done snapshots ↦ elim (last_of snapshots) [
        | none ↦ fails (append "no checkpoint for task " (quoted task_id))
        | some snapshot ↦ done snapshot
      ]
    ])

unfoldable pub latest_by_task : List Snapshot → List (String × Snapshot) → List (String × Snapshot)
latest_by_task [] latest = latest
latest_by_task (snapshot ∷ rest) latest =
    latest_by_task rest
      (ite (dec_str snapshot.task_id "") latest (insert dec_str snapshot.task_id snapshot latest))

unfoldable pub is_terminal : AgentState → Bool
is_terminal state = ite (AgentState-discrete state completed) true (
    ite (AgentState-discrete state failed) true (ite (AgentState-discrete state killed) true false))

-- The first loop of `summarizeRecovery`.
unfoldable pub page_refs : List (String × List String) → ℕ
page_refs [] = 0
page_refs ((agent_id, page_ids) ∷ rest) =
    let others = page_refs rest in ite (dec_str agent_id "") others (length page_ids + others)

-- One round of the second.
unfoldable pub count_agent : Avp → RecoveredTask → RecoveredTask
unfolding is_terminal
count_agent agent task =
    if is_terminal agent.state
    then ite (AgentState-discrete agent.state completed)
        (record task { completed_agents = task.completed_agents ++ agent.agent_id ∷ [] }) task
    else record task {
      status = "recovered";
      ready_agents = task.ready_agents ++ agent.agent_id ∷ [];
    }

unfoldable pub count_agents : List Avp → RecoveredTask → RecoveredTask
unfolding count_agent
count_agents [] task = task
count_agents (agent ∷ rest) task = count_agents rest (count_agent agent task)

-- The task before the second loop. `copyVRuntime` copies the map.
unfoldable pub unsummarized : Snapshot → RecoveredTask
unfolding page_refs
unsummarized snapshot = record {
  task_id = snapshot.task_id;
  sequence = snapshot.sequence;
  status = "completed";
  agent_count = length snapshot.agents;
  completed_agents = [];
  ready_agents = [];
  page_table_refs = page_refs snapshot.page_tables;
  scheduler_vruntime = snapshot.scheduler_vruntime;
  created_at = snapshot.created_at;
}

unfoldable pub summarize_recovery : Snapshot → RecoveredTask
unfolding unsummarized count_agents
summarize_recovery snapshot =
    let task = count_agents snapshot.agents (unsummarized snapshot) in
    record task {
      completed_agents = sort before task.completed_agents;
      ready_agents = sort before task.ready_agents;
    }

unfoldable pub keys : List (String × Snapshot) → List String
keys [] = []
keys ((task_id, snapshot) ∷ rest) = task_id ∷ keys rest

-- The loop of `RecoverAll`. Every id is a key of the map.
unfoldable pub summaries : List (String × Snapshot) → List String → List RecoveredTask
unfolding summarize_recovery
summaries latest [] = []
summaries latest (task_id ∷ rest) =
    let others = summaries latest rest in
    elim (lookup dec_str task_id latest) [
      | none ↦ others
      | some snapshot ↦ summarize_recovery snapshot ∷ others
    ]

unfoldable pub report_of : ℕ → List Snapshot → RecoveryReport
unfolding latest_by_task keys summaries
report_of now snapshots =
    let latest = latest_by_task snapshots [] in
    let tasks = summaries latest (sort before (keys latest)) in
    record {
      mode = "checkpoint-light";
      degraded = true;
      reason =
          "restored AVP table, scheduler vruntime, and CVM page references; page contents require the live CVM store or future durable page backing";
      task_count = length tasks;
      recovered_at = now;
      recovered_tasks = tasks;
    }

unfoldable pub recover_all : ℕ → Listing → Attempt RecoveryReport
unfolding list_task report_of
recover_all now listing = elim (list_task listing) [
  | fails error ↦ fails error
  | done snapshots ↦ done (report_of now snapshots)
]
