-- ===== src/Avp/Tests.antt =====
-- internal/avp/manager.go: the theorems at a concrete manager.
use os_complete.Avp.States.{Source, valid_transition_iff}
use os_complete.Avp.Transitions.{state_of, requests, transition_lem, requests_final}
use os_complete.Avp.{
  AgentState, Manager, ready, running, completed, failed, valid_transition, create, transition,
  new_manager, new_agent, agent_name, decimal, digit, targets, is_among, AgentState-discrete,
}
use os_complete.Base.{
  ◌≡◌, ◌≢◌, ◌↔◌, ◌⊎◌, refl, inl, List, [], ◌∷◌, String, some, none, true, false, lookup, insert,
  dec_str,
}
use os_complete.Events.{Clock}

abbrev clock : Clock
clock _ = record { formatted = "20260101000000.000000000"; unix_milli = 1767225600000 }

-- One agent, `planner-1`.
abbrev planned : Manager
planned = (create clock "t" "planner" [] new_manager).0

abbrev to_completed : List (Clock × String × AgentState)
to_completed =
    (clock, "planner-1", ready)
    ∷ (clock, "planner-1", running)
    ∷ (clock, "planner-1", completed)
    ∷ []

abbrev done : Manager
done = requests to_completed planned

planner_done : state_of "planner-1" done ≡ some completed
unfolding state_of requests transition create new_agent agent_name decimal digit valid_transition
    targets is_among AgentState-discrete lookup insert dec_str new_manager
planner_done = refl

valid_transition_iff_example : (valid_transition failed ready ≡ true) ↔ Source failed ready
valid_transition_iff_example = valid_transition_iff failed ready

transition_lem_example :
    let r = transition clock "planner-1" ready planned in
    (((r.1 ≡ none)
        × (state_of "planner-1" r.0 ≡ some ready)
        × ((from : AgentState) × (state_of "planner-1" planned ≡ some from)
            × (valid_transition from ready ≡ true)))
      ⊎ ((r.1 ≢ none)
          × (r.0 ≡ planned)
          × ((from : AgentState)
              → state_of "planner-1" planned ≡ some from
              → valid_transition from ready ≡ false)))
    × ((j : String)
        → j ≢ "planner-1"
        → lookup dec_str j r.0.agents ≡ lookup dec_str j planned.agents)
transition_lem_example = transition_lem clock "planner-1" ready planned

requests_final_example : state_of "planner-1" (requests to_completed done) ≡ some completed
requests_final_example =
    requests_final to_completed "planner-1" completed done (inl refl) planner_done
