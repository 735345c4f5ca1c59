-- ===== src/Blackboard/Tests.antt =====
-- internal/ipc/blackboard.go: the theorems at a concrete run.
use os_complete.Blackboard.Delivery.{
  Call, publishes, polls, run, published, received, received_once,
}
use os_complete.Blackboard.{PublishRequest, new_blackboard, poll}
use os_complete.Base.{◌≡◌, String, List, [], ◌∷◌, ◌++◌, pos, negsuc, ℤ}
use os_complete.Events.{Clock}

abbrev clock : Clock
clock _ = record { formatted = "20260101000000.000000000"; unix_milli = 1767225600000 }

abbrev request : String → ℤ → PublishRequest
request topic size = record {
  topic = topic;
  publisher = "planner-1";
  page_id = "page-1";
  size_bytes = size;
  ipc_mode = "";
}

abbrev calls : List Call
calls =
    publishes clock (request "plan" (pos 7))
    ∷ polls "plan" "coder-2"
    ∷ publishes clock (request "review" (negsuc 3))
    ∷ publishes clock (request "plan" (pos 9))
    ∷ polls "plan" "tester-3"
    ∷ []

received_once_example :
    received "plan" "coder-2" calls new_blackboard
      ++ (poll "plan" "coder-2" (run calls new_blackboard)).1
    ≡ published "plan" calls
received_once_example = received_once "plan" "coder-2" calls
