-- ===== src/Registry/Tests.antt =====
-- internal/worker/registry.go: the theorems at concrete registries.
use mathlib.Core.Option
use os_complete.Avp.{Avp, no_avp, completed, running, valid_transition}
use os_complete.Base.{
  ◌≡◌, ◌≢◌, inl, inr, refl, String, [], ◌∷◌, none, some, lookup, insert, dec_str, false, arith,
}
use os_complete.Events.{Clock}
use os_complete.Registry.Heartbeats.{handle_message_lem, completed_lost, set_state_unknown}
use os_complete.Registry.Keys.{IsKeyed, Reachable, starts, creates, handles, Reachable-IsKeyed}
use os_complete.Registry.Entry.{Message, Registry, new_registry}
use os_complete.Registry.Sweep.{as_failed}
use os_complete.Registry.{create_agent, set_state, mark_heartbeat_lost, handle_message, heartbeat}

abbrev clock : Clock
clock _ = record { formatted = "20260101000000.000000000"; unix_milli = 1767225600000 }

abbrev beat : Message
beat = record {
  type = "heartbeat";
  request_id = "";
  agent_id = "coder-2";
  role = "coder";
  task_id = "t";
  pid = 71;
  status = "";
  name = "";
  args = none;
  payload = none;
}

abbrev begun : Registry
begun = (create_agent clock "planner-1" "planner" "t" (new_registry (some []))).0

abbrev beaten : Registry
beaten = (handle_message clock beat begun).0

-- A worker that completed, and was last heard of at 5.
abbrev finished : Registry
finished = record (new_registry none) {
  agents =
      (
        "tester-3",
        record no_avp { agent_id = "tester-3"; state = completed; pid = 72; last_seen = 5 },
      )
      ∷ [];
}

begun-Reachable : Reachable begun
begun-Reachable =
    creates clock "planner-1" "planner" "t" (new_registry (some [])) (starts (some []))

Reachable-IsKeyed_example : IsKeyed beaten
Reachable-IsKeyed_example = Reachable-IsKeyed beaten (handles clock beat begun begun-Reachable)

handle_message_lem_example :
    let r' = (handle_message clock beat beaten).0 in
    ((agent : Avp) × (lookup dec_str "coder-2" r'.agents ≡ some agent)
      × (agent.agent_id ≡ "coder-2")
      × (agent.last_seen ≡ (clock 1).unix_milli)
      × (beat.type ≡ "register" → agent.state ≡ running))
    × ((j : String) → j ≢ "coder-2" → lookup dec_str j r'.agents ≡ lookup dec_str j beaten.agents)
handle_message_lem_example =
    handle_message_lem clock beat beaten Reachable-IsKeyed_example (inr (inl refl))

tester : Avp
tester = record no_avp { agent_id = "tester-3"; state = completed; pid = 72; last_seen = 5 }

finished-tester : lookup dec_str "tester-3" finished.agents ≡ some tester
unfolding lookup dec_str tester
finished-tester = refl

completed_lost_example :
    (lookup dec_str "tester-3" (mark_heartbeat_lost clock 9000 6 finished).0.agents
      ≡ some (as_failed 9000 tester))
    × (valid_transition completed (as_failed 9000 tester).state ≡ false)
unfolding tester
completed_lost_example =
    completed_lost clock 9000 6 finished "tester-3" tester finished-tester refl (λ e. omega arith)
      (λ e. omega arith) (omega arith)

begun_without : lookup dec_str "coder-2" begun.agents ≡ none
unfolding create_agent new_registry lookup insert dec_str
begun_without = refl

beat_named : beat.agent_id ≢ ""
beat_named e = cc

set_state_unknown_example :
    let r' = set_state clock "coder-2" running begun in
    (agent : Avp) × (lookup dec_str "coder-2" r'.agents ≡ some agent)
    × (lookup dec_str "coder-2" (heartbeat clock beat r').agents ≡ some agent)
    × (agent.agent_id ≡ "")
    × (agent.last_seen ≡ 0)
set_state_unknown_example =
    set_state_unknown clock clock running beat begun begun_without beat_named
