-- ===== src/Avp/States.antt =====
-- internal/avp/manager.go: the state machine of `validTransition`.
use os_complete.Base.{◌≡◌, true, ◌⊎◌, ◌↔◌, arith}
use os_complete.Avp.{
  AgentState, created, ready, running, waiting_llm, waiting_tool, waiting_ipc, suspended, completed,
  failed, killed, other, valid_transition,
}

-- Where each state can be entered from.
abbrev pub Source : AgentState → AgentState → Type 0
Source from ready =
    (from ≡ created)
    ⊎ (from ≡ waiting_llm)
    ⊎ (from ≡ waiting_tool)
    ⊎ (from ≡ waiting_ipc)
    ⊎ (from ≡ suspended)
    ⊎ (from ≡ failed)
Source from running = from ≡ ready
Source from waiting_llm = from ≡ running
Source from waiting_tool = from ≡ running
Source from waiting_ipc = from ≡ running
Source from suspended = from ≡ running
Source from completed = from ≡ running
Source from failed = from ≡ running
Source from killed = from ≡ failed
Source from created = ⊥
Source from (other text) = ⊥

-- `validTransition` admits exactly the moves of which the table `Source` tells: only a running agent
-- waits, completes or fails, only a ready one runs, only a failed one is killed, an agent is ready
-- again after it was created, waited, was suspended or failed, and nothing leads back to created.
pub valid_transition_iff :
    (from to : AgentState) → (valid_transition from to ≡ true) ↔ Source from to
unfolding valid_transition
valid_transition_iff created ready = ground arith
valid_transition_iff from to = ground arith
