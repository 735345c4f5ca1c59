-- ===== src/Scheduler/Choice.antt =====
-- internal/scheduler/scheduler.go: how each policy chooses among the ready agents.
use os_complete.Avp.{Avp, AgentState-discrete, ready}
use os_complete.Base.{
  ℕ, ◌+◌, String, List, [], ◌∷◌, ◌++◌, Option, none, some, Bool, true, false, ◌&&◌, ◌||◌, lookup_or,
  insert, ite, dec_str, ltb, leb, ◌==◌, if◌then◌else◌, sort,
}
use os_complete.Floats.{Floats}
use os_complete.Scheduler.Resources.{ResourcePressure, CandidateDecision, resource_aware_score}

-- The reasons that are logged, in the order of the source; `prefix_affinity` holds the two numbers of
-- its text.
pub data Reason : Type 0 where
  lowest_vruntime : Reason
  earliest_ready_agent : Reason
  no_previous_group : Reason
  prefix_affinity : ℕ → ℕ → Reason
  no_affinity_candidate : Reason
  low_pressure : Reason

unfoldable pub ready_agents : List Avp → List Avp
ready_agents [] = []
ready_agents (candidate ∷ rest) =
    ite (AgentState-discrete candidate.state ready) (candidate ∷ ready_agents rest)
      (ready_agents rest)

unfoldable pub earlier : Avp → Avp → Bool
earlier a b = ltb a.created_at b.created_at

unfoldable pub behind : Avp → Avp → Bool
behind a b =
    if a.vruntime == b.vruntime then ltb a.created_at b.created_at else ltb a.vruntime b.vruntime

-- `out[0]`.
unfoldable pub first : List Avp → Option Avp
first [] = none
first (agent ∷ rest) = some agent

unfoldable pub fifo : List Avp → Option Avp
unfolding first
fifo candidates = first (sort earlier candidates)

unfoldable pub min_vruntime : List Avp → Option Avp
unfolding first
min_vruntime candidates = first (sort behind candidates)

abbrev pub pages_of : Avp → List String
pages_of agent = agent.page_table ++ agent.context_pages

-- The set `lastPages`, as the list of its elements.
unfoldable pub holds : String → List String → Bool
holds page [] = false
holds page (x ∷ xs) = ite (dec_str x page) true (holds page xs)

-- The inner loop of `sharedPages`: one more for each page that the last agent had.
unfoldable pub count_shared :
    List String → String → List String → List (String × ℕ) → List (String × ℕ)
unfolding holds
count_shared last_pages agent_id [] out = out
count_shared last_pages agent_id (page ∷ pages) out = count_shared last_pages agent_id pages (
    if holds page last_pages
    then insert dec_str agent_id (lookup_or dec_str 0 agent_id out + 1) out
    else out)

unfoldable pub count_candidates : List String → List Avp → List (String × ℕ) → List (String × ℕ)
unfolding count_shared
count_candidates last_pages [] out = out
count_candidates last_pages (candidate ∷ rest) out =
    count_candidates last_pages rest
      (count_shared last_pages candidate.agent_id (pages_of candidate) out)

unfoldable pub shared_pages : Option Avp → List Avp → List (String × ℕ)
unfolding count_candidates
shared_pages none candidates = []
shared_pages (some last) candidates = count_candidates (pages_of last) candidates []

module _ (fl : Floats) where
  open fl use {F, of_nat, to_nat, sub, abs, lt, eq, neg_inf}

  unfoldable pub vruntime_distance : ℕ → ℕ → ℕ
  vruntime_distance left right = to_nat (abs (sub (of_nat left) (of_nat right)))

  -- The loop of `selectPrefixAffinity`: the best so far and its shared pages.
  unfoldable pub best_affinity : (String → ℕ) → (Avp → Bool) → List Avp → Avp → ℕ → Avp × ℕ
  best_affinity shared near [] best best_shared = (best, best_shared)
  best_affinity shared near (candidate ∷ rest) best best_shared =
      let better = ltb best_shared (shared candidate.agent_id) && near candidate in
      best_affinity shared near rest (if better then candidate else best)
        (if better then shared candidate.agent_id else best_shared)

  unfoldable pub within : ℕ → Avp → Avp → Bool
  unfolding vruntime_distance
  within threshold base candidate =
      leb (vruntime_distance candidate.vruntime base.vruntime) threshold

  -- `selectPrefixAffinity` once the base and the shared pages are known.
  unfoldable pub by_affinity : ℕ → Option Avp → List Avp → List (String × ℕ) → Avp → Avp × Reason
  unfolding best_affinity within
  by_affinity threshold none candidates shared base = (base, no_previous_group)
  by_affinity threshold (some last) candidates shared base =
      let count = λ (id : String). lookup_or dec_str 0 id shared in
      let best =
        best_affinity count (within threshold base) candidates base (count base.agent_id) in
      ite (dec_str best.0.agent_id base.agent_id) (base, no_affinity_candidate)
        (best.0, prefix_affinity best.1 threshold)

  -- The score of each candidate. The map is keyed by agent.
  unfoldable pub score : ResourcePressure fl → List (String × ℕ) → Avp → CandidateDecision fl
  unfolding resource_aware_score
  score pressure shared candidate =
      resource_aware_score fl pressure candidate (lookup_or dec_str 0 candidate.agent_id shared)

  unfoldable pub scores :
      ResourcePressure fl
      → List (String × ℕ)
      → List Avp
      → List (String × CandidateDecision fl)
      → List (String × CandidateDecision fl)
  unfolding score
  scores pressure shared [] out = out
  scores pressure shared (candidate ∷ rest) out =
      scores pressure shared rest
        (insert dec_str candidate.agent_id (score pressure shared candidate) out)

  -- The loop of `selectResourceAware`: the best so far and its score.
  unfoldable pub best_score : (Avp → F) → List Avp → Avp → F → Avp
  best_score value [] best best_value = best
  best_score value (candidate ∷ rest) best best_value =
      let better =
        lt best_value (value candidate)
        || (eq (value candidate) best_value && ltb candidate.created_at best.created_at) in
      best_score value rest (if better then candidate else best)
        (if better then value candidate else best_value)

  unfoldable pub by_resources : ResourcePressure fl → List (String × ℕ) → List Avp → Option Avp
  unfolding score best_score
  by_resources pressure shared [] = none
  by_resources pressure shared (candidate ∷ rest) =
      some (
        best_score (λ c. (score pressure shared c).final_score) (candidate ∷ rest) candidate
          neg_inf)
