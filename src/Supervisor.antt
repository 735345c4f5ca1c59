-- ===== src/Supervisor.antt =====
-- internal/supervisor/supervisor.go: the log of faults.
--
-- `m.mu` is held for the append only, and the event follows: `append_record` and `publish_record` are
-- these two steps, and `record_fault` is `Record` when no other call comes between them.
mod Calls
pub mod Log
mod Tests
use os_complete.Base.{ℕ, String, List, [], ◌∷◌, ◌++◌, Option, none, some, ite, dec_str}
use os_complete.Events.{Clock, later, Event, Payload, end, field, text, object, null, new_event}

pub record Fault : Type 0 where
  pub type : String
  pub task_id : String
  pub agent_id : String
  pub recovery_action : String
  -- `nil` or a map.
  pub details : Option Payload

pub record FaultRecord : Type 0 where
  pub id : String
  pub type : String
  pub task_id : String
  pub agent_id : String
  pub status : String
  pub recovery_action : String
  pub details : Option Payload
  pub detected_at : ℕ

pub record Manager : Type 0 where
  pub sink : Option (List Event)
  pub records : List FaultRecord

unfoldable pub new_manager : Option (List Event) → Manager
new_manager sink = record { sink = sink; records = [] }

unfoldable pub status_of : Fault → String
status_of fault = ite (dec_str fault.recovery_action "") "OPEN" "RECOVERED"

unfoldable pub new_record : Clock → Fault → FaultRecord
unfolding status_of
new_record now fault = record {
  id = (now 0).formatted;
  type = fault.type;
  task_id = fault.task_id;
  agent_id = fault.agent_id;
  status = status_of fault;
  recovery_action = fault.recovery_action;
  details = fault.details;
  detected_at = (now 0).unix_milli;
}

unfoldable pub append_record : FaultRecord → Manager → Manager
append_record made m = record m { records = m.records ++ made ∷ [] }

unfoldable pub fault_payload : FaultRecord → Payload
fault_payload made = field "fault_type" (text made.type) (
    field "status" (text made.status) (
      field "recovery_action" (text made.recovery_action)
        (field "details" (elim made.details [ none ↦ null | some details ↦ object details ]) end)))

unfoldable pub publish_record : Clock → FaultRecord → Manager → Manager
unfolding fault_payload
publish_record now made m = elim m.sink [
  | none ↦ m
  | some log ↦ record m {
    sink = some (
        log
        ++ new_event now "supervisor.detected" made.task_id made.agent_id "supervisor"
            (fault_payload made)
          ∷ []);
  }
]

unfoldable pub record_fault : Clock → Fault → Manager → Manager × FaultRecord
unfolding new_record append_record publish_record
record_fault now fault m =
    let made = new_record now fault in
    (publish_record (later 1 now) made (append_record made m), made)
