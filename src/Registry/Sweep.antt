-- ===== src/Registry/Sweep.antt =====
-- internal/worker/registry.go: the loop of `MarkHeartbeatLost`.
use os_complete.Avp.{Avp, failed, killed, AgentState-discrete}
use os_complete.Base.{
  ℕ, ◌==◌, String, List, [], ◌∷◌, Option, ite, ltb, Bool, true, false, not, ◌&&◌, ◌||◌,
  if◌then◌else◌,
}
use os_complete.Events.{Clock, later, Event, end, field, text, num}
use os_complete.Registry.Entry.{state_text, publish_event}

-- The two tests of `MarkHeartbeatLost`: what is passed over, and what is lost.
unfoldable pub is_lost : ℕ → Avp → Bool
is_lost threshold agent =
    not (
      agent.pid == 0
      || agent.last_seen == 0
      || ite (AgentState-discrete agent.state failed) true false
      || ite (AgentState-discrete agent.state killed) true false)
    && ltb agent.last_seen threshold

unfoldable pub as_failed : ℕ → Avp → Avp
as_failed now agent = record agent { state = failed; updated_at = now }

-- The events of one lost agent.
unfoldable pub announce_lost : Clock → Avp → Option (List Event) → Option (List Event)
unfolding publish_event state_text
announce_lost now agent sink =
    publish_event (later 2 now) "agent.state_changed" agent
      (field "state" (text (state_text agent.state)) end)
      (publish_event now "agent.heartbeat_lost" agent (field "last_seen" (num agent.last_seen) end)
        sink)

pub record Lost : Type 0 where
  pub agents : List (String × Avp)
  pub failures : List Avp
  pub sink : Option (List Event)

-- The loop. `range` visits each key once, and the loop changes only the value at the key visited.
unfoldable pub mark_lost : Clock → ℕ → ℕ → List (String × Avp) → Option (List Event) → Lost
unfolding is_lost as_failed announce_lost
mark_lost clock now threshold [] sink = record { agents = []; failures = []; sink = sink }
mark_lost clock now threshold ((id, agent) ∷ rest) sink =
    let lost = as_failed now agent in
    let more = mark_lost (later 4 clock) now threshold rest (announce_lost clock lost sink) in
    let same = mark_lost clock now threshold rest sink in
    if is_lost threshold agent
    then record {
      agents = (id, lost) ∷ more.agents;
      failures = lost ∷ more.failures;
      sink = more.sink;
    }
    else record { agents = (id, agent) ∷ same.agents; failures = same.failures; sink = same.sink }
