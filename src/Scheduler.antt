-- ===== src/Scheduler.antt =====
-- internal/scheduler/scheduler.go.
--
-- The policy is the text of its constant. `s.mu` is held over each operation, so an operation is a
-- function on the scheduler. The floating-point type is `Floats`. An agent id that occurs twice among
-- the candidates shares its entry in the maps, as in Go. `fifo` and `minVRuntime` index the first
-- element of a slice: `none` is the panic on an empty one.
pub mod Resources
pub mod Choice
pub mod Best
pub mod Totality
pub mod Charges
mod Tests
use os_complete.Avp.{Avp, AgentState-discrete, ready}
use os_complete.Base.{
  ℕ, suc, ◌+◌, String, List, [], ◌∷◌, ◌++◌, Option, none, some, Bool, true, false, lookup_or,
  insert, ite, dec_str, map,
}
use os_complete.Evidence.{is_valid_mode}
use os_complete.Events.{Clock}
use os_complete.Floats.{Floats}
use Resources.{ResourcePressure, CandidateDecision, normalize_resource_pressure, max_float, round3}
use Choice.{
  Reason, lowest_vruntime, earliest_ready_agent, low_pressure, ready_agents, fifo, min_vruntime,
  shared_pages, by_affinity, by_resources, scores,
}

abbrev pub policy_fifo : String
policy_fifo = "fifo"

abbrev pub policy_token_cfs : String
policy_token_cfs = "token-cfs"

abbrev pub policy_prefix_affinity : String
policy_prefix_affinity = "token-cfs-prefix-affinity"

abbrev pub policy_resource_aware : String
policy_resource_aware = "token-cfs-prefix-affinity-resource-aware"

-- `Policies`.
abbrev policies : List String
policies = policy_fifo ∷ policy_token_cfs ∷ policy_prefix_affinity ∷ policy_resource_aware ∷ []

module _ (fl : Floats) where
  open fl use {F, of_nat}

  pub record DecisionLog : Type 0 where
    pub id : String
    pub decision_id : String
    pub timestamp : String
    pub task_id : String
    pub selected_task : String
    pub candidates : List String
    pub candidate_details : List (CandidateDecision fl)
    pub selected_agent : String
    pub policy : String
    pub reason : Reason
    pub vruntime_before : List (String × ℕ)
    pub vruntime_after : List (String × ℕ)
    pub shared_pages : List (String × ℕ)
    pub vruntime_score : F
    pub context_affinity_score : F
    pub memory_pressure : F
    pub pids_pressure : F
    pub cpu_throttle_pressure : F
    pub psi_pressure : F
    pub dependency_ready : Bool
    pub spawn_priority : F
    pub final_score : F
    pub evidence_mode : String
    pub fallback_reason : String
    pub resource_pressure : ResourcePressure fl
    pub score_by_agent : List (String × CandidateDecision fl)
    pub created_at : ℕ

  pub record Scheduler : Type 0 where
    pub policy : String
    pub affinity_threshold : ℕ
    pub last : Option Avp
    pub decisions : List DecisionLog
    pub pressure : ResourcePressure fl

  -- `ResourcePressure{}`.
  abbrev no_pressure : ResourcePressure fl
  no_pressure = record {
    memory_pressure = of_nat 0;
    pids_pressure = of_nat 0;
    cpu_throttle_pressure = of_nat 0;
    psi_pressure = of_nat 0;
    evidence_mode = "";
    fallback_reason = "";
  }

  unfoldable pub new_scheduler : String → Scheduler
  new_scheduler policy = record {
    policy = ite (dec_str policy "") policy_fifo policy;
    affinity_threshold = 50;
    last = none;
    decisions = [];
    pressure = no_pressure;
  }

  is_policy : String → Bool
  is_policy policy = ite (dec_str policy policy_fifo) true (
      ite (dec_str policy policy_token_cfs) true (
        ite (dec_str policy policy_prefix_affinity) true
          (ite (dec_str policy policy_resource_aware) true false)))

  -- The scheduler, and whether the policy was accepted.
  unfoldable pub set_policy : String → Scheduler → Scheduler × Bool
  unfolding is_policy
  set_policy policy s = elim (is_policy policy) [
    | true ↦ (record s { policy = policy }, true)
    | false ↦ (s, false)
  ]

  unfoldable pub set_resource_pressure : ResourcePressure fl → Scheduler → Scheduler
  set_resource_pressure pressure s = record s { pressure = normalize_resource_pressure fl pressure }

  unfoldable pub set_affinity_threshold : ℕ → Scheduler → Scheduler
  set_affinity_threshold threshold s = record s { affinity_threshold = threshold }

  unfoldable pub remember_last : Avp → Scheduler → Scheduler
  remember_last agent s = record s { last = some agent }

  -- What `selectLocked` returns; `none` for its maps stands for `nil`.
  pub record Selection : Type 0 where
    pub selected : Avp
    pub reason : Reason
    pub shared : List (String × ℕ)
    pub by_agent : Option (List (String × CandidateDecision fl))

  chosen : Reason → Option Avp → Option Selection
  chosen reason none = none
  chosen reason (some agent) =
      some (record { selected = agent; reason = reason; shared = []; by_agent = none })

  select_prefix_affinity : Scheduler → List Avp → Option Avp → Option Selection
  select_prefix_affinity s candidates none = none
  select_prefix_affinity s candidates (some base) =
      let shared = shared_pages s.last candidates in
      let r = by_affinity fl s.affinity_threshold s.last candidates shared base in
      some (record { selected = r.0; reason = r.1; shared = shared; by_agent = none })

  select_resource_aware : Scheduler → List Avp → Option Selection
  select_resource_aware s candidates =
      let shared = shared_pages s.last candidates in
      elim (by_resources fl s.pressure shared candidates) [
        | none ↦ none
        | some best ↦ some (record {
          selected = best;
          reason = low_pressure;
          shared = shared;
          by_agent = some (scores fl s.pressure shared candidates []);
        })
      ]

  unfoldable pub select_locked : Scheduler → List Avp → Option Selection
  unfolding chosen select_prefix_affinity select_resource_aware
  select_locked s candidates =
      ite (dec_str s.policy policy_token_cfs) (chosen lowest_vruntime (min_vruntime candidates)) (
        ite (dec_str s.policy policy_prefix_affinity)
          (select_prefix_affinity s candidates (min_vruntime candidates))
          (ite (dec_str s.policy policy_resource_aware) (select_resource_aware s candidates)
            (chosen earliest_ready_agent (fifo candidates))))

  -- The vruntime of each candidate, by agent.
  unfoldable pub vruntimes : List Avp → List (String × ℕ) → List (String × ℕ)
  vruntimes [] out = out
  vruntimes (candidate ∷ rest) out =
      vruntimes rest (insert dec_str candidate.agent_id candidate.vruntime out)

  -- A missing score is the zero value.
  no_score : CandidateDecision fl
  no_score = record {
    agent_id = "";
    task_id = "";
    vruntime_score = of_nat 0;
    context_affinity_score = of_nat 0;
    memory_pressure = of_nat 0;
    pids_pressure = of_nat 0;
    cpu_throttle_pressure = of_nat 0;
    psi_pressure = of_nat 0;
    dependency_ready = false;
    spawn_priority = of_nat 0;
    final_score = of_nat 0;
  }

  -- What the loop of `makeDecisionLocked` over the scored candidates computes.
  pub record Details : Type 0 where
    pub details : List (CandidateDecision fl)
    pub selected_score : CandidateDecision fl
    pub pressure : ResourcePressure fl

  raise : ResourcePressure fl → CandidateDecision fl → ResourcePressure fl
  raise pressure score = record pressure {
    memory_pressure = max_float fl pressure.memory_pressure score.memory_pressure;
    pids_pressure = max_float fl pressure.pids_pressure score.pids_pressure;
    cpu_throttle_pressure = max_float fl pressure.cpu_throttle_pressure score.cpu_throttle_pressure;
    psi_pressure = max_float fl pressure.psi_pressure score.psi_pressure;
  }

  collect : List (String × CandidateDecision fl) → String → List Avp → Details → Details
  unfolding raise no_score
  collect by_agent selected [] d = d
  collect by_agent selected (candidate ∷ rest) d =
      let score = lookup_or dec_str no_score candidate.agent_id by_agent in
      collect by_agent selected rest (record {
        details = d.details ++ score ∷ [];
        selected_score = ite (dec_str candidate.agent_id selected) score d.selected_score;
        pressure = raise d.pressure score;
      })

  details_of : Option (List (String × CandidateDecision fl)) → Avp → List Avp → Details → Details
  unfolding collect
  details_of none selected candidates d = d
  details_of (some by_agent) selected candidates d = collect by_agent selected.agent_id candidates d

  -- `now` is the one reading of the clock; `utc` is it in UTC by RFC 3339.
  unfoldable pub make_decision_locked :
      Clock → String → String → Scheduler → List Avp → Selection → DecisionLog
  unfolding vruntimes details_of no_score
  make_decision_locked now utc task_id s candidates selection =
      let selected = selection.selected in
      let d = details_of selection.by_agent selected candidates (record {
        details = [];
        selected_score = record no_score {
          agent_id = selected.agent_id;
          task_id = selected.task_id;
          dependency_ready = ite (AgentState-discrete selected.state ready) true false;
        };
        pressure = normalize_resource_pressure fl s.pressure;
      }) in
      record {
        id = (now 0).formatted;
        decision_id = (now 0).formatted;
        timestamp = utc;
        task_id = task_id;
        selected_task = task_id;
        candidates = map (λ (c : Avp). c.agent_id) candidates;
        candidate_details = d.details;
        selected_agent = selected.agent_id;
        policy = s.policy;
        reason = selection.reason;
        vruntime_before = vruntimes candidates [];
        vruntime_after = vruntimes candidates [];
        shared_pages = selection.shared;
        vruntime_score = d.selected_score.vruntime_score;
        context_affinity_score = d.selected_score.context_affinity_score;
        memory_pressure = round3 fl d.pressure.memory_pressure;
        pids_pressure = round3 fl d.pressure.pids_pressure;
        cpu_throttle_pressure = round3 fl d.pressure.cpu_throttle_pressure;
        psi_pressure = round3 fl d.pressure.psi_pressure;
        dependency_ready = d.selected_score.dependency_ready;
        spawn_priority = d.selected_score.spawn_priority;
        final_score = d.selected_score.final_score;
        evidence_mode = d.pressure.evidence_mode;
        fallback_reason = d.pressure.fallback_reason;
        resource_pressure = d.pressure;
        score_by_agent = elim selection.by_agent [ none ↦ [] | some by_agent ↦ by_agent ];
        created_at = (now 0).unix_milli;
      }

  -- `Select`: the scheduler, and the agent with its decision. The outer `none` is a panic.
  unfoldable pub select :
      Clock
      → String
      → String
      → List Avp
      → Scheduler
      → Option (Scheduler × Option (Avp × DecisionLog))
  select now utc task_id candidates s = elim (ready_agents candidates) [
    | [] ↦ some (s, none)
    | agent ∷ rest ↦ elim (select_locked s (agent ∷ rest)) [
      | none ↦ none
      | some selection ↦
          let decision = make_decision_locked now utc task_id s (agent ∷ rest) selection in
          some (
            record s { last = some selection.selected; decisions = s.decisions ++ decision ∷ [] },
            some (selection.selected, decision),
          )
    ]
  ]
