-- ===== src/Supervisor/Calls.antt =====
-- internal/supervisor/supervisor.go: the interleaved calls of `Record`, and what they are to leave.
use mathlib.Core.List.{Perm}
use os_complete.Base.{◌≡◌, ◌≢◌, ◌⊎◌, ℕ, zero, suc, List, [], ◌∷◌, ◌++◌, Option, none, some}
use os_complete.Events.{Clock, Event, Payload, Value, field, end, text, null, object}
use os_complete.Supervisor.{
  Fault, FaultRecord, Manager, new_record, append_record, publish_record, record_fault,
}

-- A manager and the records of the calls that have appended theirs but not published it.
pub record Running : Type 0 where
  pub manager : Manager
  pub pending : List FaultRecord

-- A call of `Record` that appends its record, a call that goes on to publish its own, named by its
-- place among those that have not, or a call that nothing interrupts.
pub data Step : Type 0 where
  appends : Clock → Fault → Step
  publishes : ℕ → Clock → Step
  records : Clock → Fault → Step

unfoldable pub take_out : ℕ → List FaultRecord → Option (FaultRecord × List FaultRecord)
take_out n [] = none
take_out zero (made ∷ rest) = some (made, rest)
take_out (suc n) (made ∷ rest) = elim (take_out n rest) [
  | none ↦ none
  | some found ↦ some (found.0, made ∷ found.1)
]

unfoldable pub step : Step → Running → Running
unfolding take_out
step (appends now fault) s =
    let made = new_record now fault in
    record { manager = append_record made s.manager; pending = s.pending ++ made ∷ [] }
step (publishes n now) s = elim (take_out n s.pending) [
  | none ↦ s
  | some found ↦ record { manager = publish_record now found.0 s.manager; pending = found.1 }
]
step (records now fault) s = record s { manager = (record_fault now fault s.manager).0 }

unfoldable pub run : List Step → Running → Running
unfolding step
run [] s = s
run (next ∷ steps) s = run steps (step next s)

-- The calls that have begun, in the order in which they append.
unfoldable pub calls : List Step → List (Clock × Fault)
calls [] = []
calls (appends now fault ∷ steps) = (now, fault) ∷ calls steps
calls (publishes n now ∷ steps) = calls steps
calls (records now fault ∷ steps) = (now, fault) ∷ calls steps

-- What the record of a fault is.
pub record IsRecordOf (call : Clock × Fault) (made : FaultRecord) : Type 0 where
  pub id_is : made.id ≡ (call.0 0).formatted
  pub time_is : made.detected_at ≡ (call.0 0).unix_milli
  pub type_is : made.type ≡ call.1.type
  pub task_is : made.task_id ≡ call.1.task_id
  pub agent_is : made.agent_id ≡ call.1.agent_id
  pub action_is : made.recovery_action ≡ call.1.recovery_action
  pub details_are : made.details ≡ call.1.details
  pub status_is :
      ((call.1.recovery_action ≡ "") × (made.status ≡ "OPEN"))
      ⊎ ((call.1.recovery_action ≢ "") × (made.status ≡ "RECOVERED"))

-- What the event of a record is.
pub record Announces (made : FaultRecord) (event : Event) : Type 0 where
  pub type_is : event.type ≡ "supervisor.detected"
  pub source_is : event.source ≡ "supervisor"
  pub task_is : event.task_id ≡ made.task_id
  pub agent_is : event.agent_id ≡ made.agent_id
  pub details : Value
  pub details_are :
      ((made.details ≡ none) × (details ≡ null))
      ⊎ ((given : Payload) × (made.details ≡ some given) × (details ≡ object given))
  pub payload_is :
      event.payload
      ≡ field "fault_type" (text made.type) (
          field "status"
            (text made.status)
            (field "recovery_action" (text made.recovery_action) (field "details" details end)))

-- Two lists, element by element.
abbrev pub Pairs : {A B : Type 0} → (A → B → Type 0) → List A → List B → Type 0
Pairs P [] [] = Unit
Pairs P [] (y ∷ ys) = ⊥
Pairs P (x ∷ xs) [] = ⊥
Pairs P (x ∷ xs) (y ∷ ys) = P x y × Pairs P xs ys

-- The log has a record of each call, and the sink an event of each record but the pending ones.
pub record Logged (begun : List (Clock × Fault)) (s : Running) : Type 0 where
  pub recorded : Pairs IsRecordOf begun s.manager.records
  pub log : List Event
  pub sink_is : s.manager.sink ≡ some log
  pub told : List FaultRecord
  pub announced : Pairs Announces told log
  pub once : Perm s.manager.records (told ++ s.pending)
