-- ===== src/Replay/Tests.antt =====
-- internal/replay/replay.go: the theorem at a concrete trace, whose times are the lengths of texts.
use os_complete.Base.{
  ℕ, suc, ◌≡◌, ◌⊎◌, String, List, [], ◌∷◌, none, true, false, length, ltb, ite, dec_str,
}
use os_complete.Base.Attempt.{Attempt, done, fails}
use os_complete.Events.{end, field, text}
use os_complete.Replay.{TraceEvent, replay_events}
use os_complete.Replay.Verdict.{Chronological, final_status, replay_events_lem}

count : String → ℕ
count String.[] = 0
count (String.◌∷◌ c rest) = suc (count rest)

read_time : String → Attempt ℕ
read_time s = ite (dec_str s "") (fails "empty") (done (count s))

abbrev event : String → String → String → TraceEvent
event timestamp type status = record {
  event_id = "e";
  timestamp = timestamp;
  type = type;
  agent_id = "a";
  task_id = "t";
  payload = field "status" (text status) end;
}

abbrev trace : List TraceEvent
trace = event "1" "agent_completed" "ok" ∷ event "12" "agent_note" "busy" ∷ event "1" "note" "" ∷ []

replay_events_lem_example :
    let r = replay_events ℕ read_time ltb trace in
    (r.event_count ≡ length trace)
    × ((Chronological ℕ read_time ltb none trace
          × (r.divergence ≡ false)
          × (r.replay_success ≡ true)
          × (r.original_final_status ≡ final_status trace)
          × (r.replay_final_status ≡ r.original_final_status))
        ⊎ ((¬ Chronological ℕ read_time ltb none trace)
            × (r.divergence ≡ true)
            × (r.replay_success ≡ false)
            × (r.replay_final_status ≡ "diverged")))
replay_events_lem_example = replay_events_lem ℕ read_time ltb trace
