-- ===== src/Gateway/State.antt =====
-- internal/syscall/gateway.go: the gateway, its requests and responses, and the world around it.
use Prim.Native.String.{◌++◌ as append}
use os_complete.Base.{
  ℕ, String, List, [], ◌∷◌, ◌++◌, Option, none, some, ite, dec_str, Bool, false, ℤ, pos, negsuc,
  zero, suc,
}
use os_complete.Blackboard.{Blackboard}
use os_complete.Cvm.Page as CvmPage
use os_complete.Cvm.Page.{Bytes, Codec}
use os_complete.Cvm.Store.{Store}
use os_complete.Events.{Clock, Event, Payload, new_event}
use os_complete.Gateway.Args.{Args}
use os_complete.Gateway.Paths.{Attempt}
use os_complete.Router.{Router}

pub record Request (F : Type 0) : Type 0 where
  pub request_id : String
  pub agent_id : String
  pub task_id : String
  pub name : String
  pub args : Args F

pub record Response : Type 0 where
  pub request_id : String
  pub status : String
  pub error : String
  -- `nil` or a map.
  pub payload : Option Payload

pub record Record : Type 0 where
  pub id : String
  pub agent_id : String
  pub name : String
  pub start_time : ℕ
  pub end_time : ℕ
  pub duration_ms : ℕ
  pub status : String
  pub error : String
  pub input_size : ℕ
  pub output_size : ℕ
  pub evidence : Option Payload

pub record Report (F : Type 0) : Type 0 where
  pub agent_id : String
  pub task_id : String
  pub status : String
  pub payload : Args F

pub record SpawnRequest : Type 0 where
  pub agent_id : String
  pub task_id : String
  pub parent_agent_id : String
  pub role : String
  pub reason : String
  pub dependencies : List String

pub record SpawnResult : Type 0 where
  pub agent_id : String
  pub role : String
  pub task_id : String
  pub state : String

pub record ExecObservation : Type 0 where
  pub task_id : String
  pub agent_id : String
  pub pid : ℕ
  pub command : String
  pub args : List String
  pub cgroup_path : String
  pub workspace : String
  pub status : String

-- The fields of `shm.SmokeResult` that the gateway reads.
pub record Shm : Type 0 where
  pub evidence_mode : String
  pub fallback_reason : String
  pub memfd_create_success : Bool
  pub mmap_success : Bool
  pub fd_passing_success : Bool

abbrev pub no_shm : Shm
no_shm = record {
  evidence_mode = "";
  fallback_reason = "";
  memfd_create_success = false;
  mmap_success = false;
  fd_passing_success = false;
}

-- What is left of a command: its output, whether its context met the deadline, and the error of `Run`
-- with the exit code, if it is an `ExitError`.
pub record ToolRun : Type 0 where
  pub pid : ℕ
  pub stdout : String
  pub stderr : String
  pub deadline_exceeded : Bool
  pub error : Option (String × Option ℤ)

-- What the gateway asks of the system, of the workspace runtime and of its callbacks, in order.
pub data Effect (F : Type 0) : Type 0 where
  asked_dir : String → Effect F
  committed : String → Effect F
  rolled_back : String → Effect F
  destroyed : String → Effect F
  made_dir : String → Effect F
  ran : String → List String → String → ℤ → Effect F
  observed : ExecObservation → Effect F
  reported : Report F → Effect F
  asked_spawn : SpawnRequest → Effect F

-- What the gateway does not implement. The answers of the system and of the runtime depend on all that
-- was asked so far; `quoted` is `%q`, `bytes_of` and `text_of` pass between texts and bytes, and
-- `json_args` and `json_payload` are the lengths of the encodings.
pub record World : Type 1 where
  pub F : Type 0
  pub Context : Type 0
  pub int_of : F → ℤ
  pub atoi : String → ℤ
  pub lower : String → String
  pub quoted : String → String
  pub bytes_of : String → Bytes
  pub text_of : Bytes → String
  pub json_args : Args F → ℕ
  pub json_payload : Option Payload → ℕ
  pub codec : Codec
  pub gzip_error : String
  pub gunzip_error : String
  pub cwd : Attempt String
  pub transfer : Bytes → Shm × Option String
  pub mkdir : List (Effect F) → String → Option String
  pub workspace_dir : List (Effect F) → String → Attempt String
  pub commit : List (Effect F) → String → Option String
  pub rollback : List (Effect F) → String → Option String
  pub destroy : List (Effect F) → String → Option String
  pub run : List (Effect F) → String → List String → String → ℤ → ToolRun
  pub spawn : List (Effect F) → SpawnRequest → Attempt SpawnResult

module _ (w : World) where
  open w use {F, Context, lower, quoted, gzip_error, gunzip_error}

  pub record Gateway : Type 0 where
    pub cvm : Option Store
    pub ipc : Option Blackboard
    pub llm : Option (Router Context lower)
    pub sink : Option (List Event)
    pub workspace_root : String
    pub workspace_runtime : Bool
    pub tool_timeout : ℤ
    pub reporter : Bool
    pub spawner : Bool
    pub exec_observer : Bool
    pub records : List Record
    pub effects : List (Effect F)

  -- The defaults of `NewGateway`: three seconds, and a directory below that of temporary files.
  unfoldable pub timeout_or_default : ℤ → ℤ
  timeout_or_default (pos zero) = pos 3_000_000_000
  timeout_or_default (pos (suc n)) = pos (suc n)
  timeout_or_default (negsuc n) = pos 3_000_000_000

  -- The argument is a gateway made of the fields of the configuration.
  unfoldable pub new_gateway : String → Gateway → Gateway
  unfolding timeout_or_default
  new_gateway default_root cfg = record cfg {
    tool_timeout = timeout_or_default cfg.tool_timeout;
    workspace_root = ite (dec_str cfg.workspace_root "") default_root cfg.workspace_root;
    records = [];
    effects = [];
  }

  unfoldable pub publish : Clock → String → Request F → Payload → Gateway → Gateway
  publish now event_type req payload g = elim g.sink [
    | none ↦ g
    | some log ↦ record g {
      sink = some (log ++ new_event now event_type req.task_id req.agent_id "syscall" payload ∷ []);
    }
  ]

  unfoldable pub note : Effect F → Gateway → Gateway
  note effect g = record g { effects = g.effects ++ effect ∷ [] }

  -- `Error()` of the errors of the store and of the router.
  unfoldable pub cvm_error : CvmPage.Error → String
  cvm_error CvmPage.Error.kind_required = "page kind is required"
  cvm_error (CvmPage.Error.unknown_page id) = append "unknown page " (quoted id)
  cvm_error (CvmPage.Error.missing_page id) =
      append "page " (append (quoted id) " missing from store")
  cvm_error CvmPage.Error.gzip_failed = gzip_error
  cvm_error CvmPage.Error.gunzip_failed = gunzip_error

-- A response without a payload, and one that is OK.
unfoldable pub refused : {F : Type 0} → Request F → String → String → Response
refused req status error = record {
  request_id = req.request_id;
  status = status;
  error = error;
  payload = none;
}

unfoldable pub accepted : {F : Type 0} → Request F → Payload → Response
accepted req payload = record {
  request_id = req.request_id;
  status = "OK";
  error = "";
  payload = some payload;
}
