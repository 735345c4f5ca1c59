-- ===== src/Supervisor/Tests.antt =====
-- internal/supervisor/supervisor.go: the theorem at three calls, of which two overlap.
use os_complete.Base.{List, [], ◌∷◌, some, none}
use os_complete.Events.{Clock, end}
use os_complete.Supervisor.Calls.{Step, appends, publishes, records, run, calls, Logged}
use os_complete.Supervisor.Log.{run-new_manager}
use os_complete.Supervisor.{Fault, new_manager}

abbrev clock : Clock
clock _ = record { formatted = "20260101000000.000000000"; unix_milli = 1767225600000 }

abbrev timeout : Fault
timeout = record {
  type = "TOOL_TIMEOUT";
  task_id = "t";
  agent_id = "coder-2";
  recovery_action = "retry";
  details = none;
}

abbrev lost : Fault
lost = record timeout { type = "AGENT_HEARTBEAT_LOST"; recovery_action = "" }

abbrev noted : Fault
noted = record timeout { details = some end }

abbrev steps : List Step
steps =
    appends clock timeout
    ∷ appends clock lost
    ∷ publishes 1 clock
    ∷ records clock noted
    ∷ publishes 7 clock
    ∷ publishes 0 clock
    ∷ []

run-new_manager_example :
    Logged (calls steps) (run steps (record { manager = new_manager (some []); pending = [] }))
run-new_manager_example = run-new_manager steps
