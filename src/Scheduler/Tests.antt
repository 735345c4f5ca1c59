-- ===== src/Scheduler/Tests.antt =====
-- internal/scheduler/scheduler.go: the theorems at concrete agents, over a small number type in place
-- of `float64`: 0 is `-Inf`, and `suc n` is the number n, with operations that stop at the number 0.
use os_complete.Avp.{Avp, AgentState-discrete, no_avp, ready, running}
use os_complete.Base.{
  ℕ, suc, ◌+◌, ◌-◌, ◌*◌, ◌/◌, ◌<◌, ◌≤◌, ◌≡◌, ◌≢◌, ◌==◌, ◌⊎◌, refl, String, List, [], ◌∷◌, ◌++◌,
  some, none, ltb, dec_str, pos, ◌+ℤ◌, pos_part, All, IsFirstLeast, arith,
}
use os_complete.Events.{Clock}
use os_complete.Floats.{Floats, IsOrdered}
use os_complete.Scheduler.Best.{better, by_resources_first}
use os_complete.Scheduler.Charges.{charge_tokens, charge_tokens_progress, charge_tokens_weight}
use os_complete.Scheduler.Choice.{ready_agents, score, by_resources}
use os_complete.Scheduler.Resources.{ResourcePressure, resource_aware_score, round3}
use os_complete.Scheduler.Totality.{select_total, IsNext, select_token_cfs}
use os_complete.Scheduler.{
  Scheduler, DecisionLog, new_scheduler, select, policy_token_cfs, policy_resource_aware,
}

numbers : Floats
numbers = record {
  F = ℕ;
  of_nat = suc;
  of_int = λ n. suc (pos_part n);
  to_nat = λ a. a - 1;
  add = λ a b. suc (a - 1 + (b - 1));
  sub = λ a b. suc (a - 1 - (b - 1));
  mul = λ a b. suc ((a - 1) * (b - 1));
  div = λ a b. suc ((a - 1) / (b - 1));
  abs = λ a. a;
  round = λ a. a;
  neg_inf = 0;
  lt = ltb;
  eq = λ a b. a == b;
}

IsFinite : numbers.F → Type 0
unfolding numbers
IsFinite a = 0 < a

numbers-IsOrdered : IsOrdered numbers IsFinite
unfolding numbers IsFinite
numbers-IsOrdered = record {
  neg_inf_lt = λ a h. ground arith;
  lt_trans = λ a b c ha hb hc p q. ground arith;
  lt_asymm = λ a b ha hb p. ground arith;
  eq_of_not_lt = λ a b ha hb p q. ground arith;
  eq_iff = λ a h. ground arith;
  not_eq_of_lt = λ a b ha hb p. ground arith;
}

score-IsFinite :
    (pressure : ResourcePressure numbers) (shared : List (String × ℕ)) (a : Avp)
    → IsFinite (score numbers pressure shared a).final_score
unfolding score resource_aware_score numbers IsFinite round3
score-IsFinite pressure shared a = omega arith

abbrev clock : Clock
clock _ = record { formatted = "20260101000000.000000000"; unix_milli = 1767225600000 }

abbrev planner : Avp
planner = record no_avp {
  agent_id = "planner-1";
  task_id = "t";
  state = ready;
  weight = pos 100;
  vruntime = 3;
  page_table = "page-1" ∷ "page-2" ∷ [];
}

abbrev coder : Avp
coder = record no_avp {
  agent_id = "coder-2";
  task_id = "t";
  state = ready;
  weight = pos 200;
  vruntime = 3;
  created_at = 5;
  page_table = "page-1" ∷ "page-2" ∷ [];
}

abbrev busy : Avp
busy = record no_avp { agent_id = "busy-3"; task_id = "t"; state = running }

abbrev agents : List Avp
agents = busy ∷ coder ∷ planner ∷ []

two_ready : ready_agents agents ≡ coder ∷ planner ∷ []
unfolding ready_agents AgentState-discrete dec_str
two_ready = refl

some_ready : ready_agents agents ≢ []
some_ready e = absurd (ground (arith, two_ready))

OfTask : Avp → Type 0
OfTask a = a.task_id ≡ "t"

tasks_match : All OfTask (ready_agents agents)
unfolding OfTask
tasks_match = rw two_ready (refl, (refl, tt))

abbrev fair : Scheduler numbers
fair = record (new_scheduler numbers "") { policy = policy_token_cfs }

select_total_example :
    let s = new_scheduler numbers policy_resource_aware in
    ((ready_agents agents ≡ []) × (select numbers clock "" "t" agents s ≡ some (s, none)))
    ⊎ ((agent : Avp) × (decision : DecisionLog numbers) × (select numbers clock "" "t" agents s
          ≡ some (
            record s { last = some agent; decisions = s.decisions ++ decision ∷ [] },
            some (agent, decision),
          ))
        × (decision.selected_agent ≡ agent.agent_id)
        × (agent.state ≡ ready)
        × OfTask agent)
select_total_example =
    select_total OfTask numbers clock "" "t" agents (new_scheduler numbers policy_resource_aware)
      tasks_match

select_token_cfs_example :
    (agent : Avp) × (decision : DecisionLog numbers) × (select numbers clock "" "t" agents fair
      ≡ some (
        record fair { last = some agent; decisions = fair.decisions ++ decision ∷ [] },
        some (agent, decision),
      ))
    × IsNext agent (ready_agents agents)
select_token_cfs_example = select_token_cfs numbers clock "" "t" agents fair refl some_ready

abbrev two_shared : List (String × ℕ)
two_shared = ("coder-2", 2) ∷ ("planner-1", 1) ∷ []

by_resources_first_example :
    let pressure = (new_scheduler numbers "").pressure in
    (agent : Avp) × (by_resources numbers pressure [] (coder ∷ planner ∷ []) ≡ some agent)
    × IsFirstLeast
        (better numbers (λ a. (score numbers pressure [] a).final_score))
        agent
        (coder ∷ planner ∷ [])
by_resources_first_example =
    by_resources_first numbers IsFinite (new_scheduler numbers "").pressure [] coder (planner ∷ [])
      numbers-IsOrdered (score-IsFinite (new_scheduler numbers "").pressure [])

charge_tokens_progress_example :
    (planner.vruntime < (charge_tokens planner (pos 250)).vruntime)
    × ((charge_tokens planner (pos 250)).vruntime ≤ planner.vruntime + 250)
    × ((charge_tokens planner (pos 250)).consumed_tokens ≡ planner.consumed_tokens +ℤ pos 250)
charge_tokens_progress_example = charge_tokens_progress planner 249 (omega arith)

charge_tokens_weight_example :
    (charge_tokens coder (pos 250)).vruntime ≤ (charge_tokens planner (pos 250)).vruntime
charge_tokens_weight_example =
    charge_tokens_weight planner coder 249 99 199 refl refl refl (omega arith) (omega arith)
