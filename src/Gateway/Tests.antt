-- ===== src/Gateway/Tests.antt =====
-- internal/syscall/gateway.go: the theorems at a concrete world, whose tools say what they were given.
use os_complete.Base.{
  ◌≡◌, ◌≢◌, refl, String, List, [], ◌∷◌, Option, none, some, Bool, true, false, ℤ, pos, ℕ, ◌+◌,
  dec_str, lookup, ite,
}
use os_complete.Blackboard as Board
use os_complete.Blackboard.{Blackboard, new_blackboard, poll}
use os_complete.Cvm.Page.{Bytes}
use os_complete.Cvm.SmallCodec.{small, small-IsLawful}
use os_complete.Cvm.Store.{Store, new_store}
use os_complete.Cvm.Run.{creates, run}
use os_complete.Events.{Clock}
use os_complete.Gateway.Args.{Arg, text, string_arg, arg_of}
use os_complete.Gateway.{handle}
use os_complete.Gateway.Audit.{Audited, handle-Audited, Handled, serve, serve-IsValid}
use os_complete.Gateway.Confine.{StaysInside, confined_path-StaysInside}
use os_complete.Gateway.Exec.{Outcome, tool_exec-Outcome}
use os_complete.Gateway.Follows.{StoreIsValid}
use os_complete.Gateway.Ipc.{ipc_poll}
use os_complete.Gateway.Paths.{done}
use os_complete.Gateway.Poll.{Polled, ipc_poll-Polled}
use os_complete.Gateway.State.{World, Request, no_shm, Gateway}
use os_complete.Gateway.Tools.{tool_exec}

abbrev noon : Clock
noon i = record { formatted = "12:00"; unix_milli = 43_200_000 + i }

abbrev ticks : ℕ → Clock
ticks k = noon

bytes_in : String → Bytes
bytes_in String.[] = []
bytes_in (String.◌∷◌ c rest) = 1 ∷ bytes_in rest

-- A command named "false" fails with the exit code 1; everything else ends well.
exit_of : String → Option (String × Option ℤ)
exit_of command = ite (dec_str command "false") (some ("exit status 1", some (pos 1))) none

abbrev world : World
world = record {
  F = ℕ;
  Context = Unit;
  int_of = λ n. pos n;
  atoi = λ s. pos 0;
  lower = λ s. s;
  quoted = λ s. s;
  bytes_of = bytes_in;
  text_of = λ content. "content";
  json_args = λ args. 2;
  json_payload = λ payload. 4;
  codec = small;
  gzip_error = "gzip";
  gunzip_error = "gunzip";
  cwd = done "/srv";
  transfer = λ content. (no_shm, none);
  mkdir = λ effects path. none;
  workspace_dir = λ effects id. done "/work/agent/merged";
  commit = λ effects id. none;
  rollback = λ effects id. none;
  destroy = λ effects id. none;
  run = λ effects command args cwd timeout. record {
    pid = 7;
    stdout = command;
    stderr = "";
    deadline_exceeded = false;
    error = exit_of command;
  };
  spawn = λ effects wanted.
      done (record { agent_id = "a"; role = wanted.role; task_id = "t"; state = "RUNNING" });
}

abbrev request : String → List (String × Arg ℕ) → Request ℕ
request name args = record {
  request_id = "r1";
  agent_id = "planner";
  task_id = "t1";
  name = name;
  args = some args;
}

-- A page of the content [1, 1].
abbrev store : Store
store = run small ((noon, creates "task" (1 ∷ 1 ∷ [])) ∷ []) (new_store none)

abbrev gateway : Bool → Option Blackboard → Gateway world
gateway runtime board = record {
  cvm = some (new_store none);
  ipc = board;
  llm = none;
  sink = some [];
  workspace_root = "work";
  workspace_runtime = runtime;
  tool_timeout = pos 3_000_000_000;
  reporter = true;
  spawner = true;
  exec_observer = true;
  records = [];
  effects = [];
}

-- A message about a page that the store has not.
abbrev board : Blackboard
board =
    (Board.publish noon
      (record {
        topic = "plan";
        publisher = "coder";
        page_id = "bb";
        size_bytes = pos 2;
        ipc_mode = "";
      })
      new_blackboard).0

abbrev failing : Request ℕ
failing = request "tool.exec" (("command", text "false") ∷ ("cwd", text "sub/../dir") ∷ [])

abbrev polling : Request ℕ
polling = request "ipc.poll" (("topic", text "plan") ∷ [])

abbrev delta : Request ℕ
delta = request "context.write_delta" (("content", text "step one") ∷ [])

tool_exec-Outcome_example :
    Outcome world failing (gateway true none) (tool_exec world failing (gateway true none))
tool_exec-Outcome_example = tool_exec-Outcome world failing (gateway true none)

handle-Audited_example :
    Audited world ticks failing
      (gateway true none)
      (handle world tt ticks 0 failing (gateway true none))
handle-Audited_example = handle-Audited world small-IsLawful tt ticks 0 failing (gateway true none)

abbrev calls : List (Handled world)
calls = (tt, ticks, 0, delta) ∷ (tt, ticks, 3, polling) ∷ (tt, ticks, 12, failing) ∷ []

empty-IsValid : StoreIsValid small (some (new_store none))
unfolding new_store
empty-IsValid = record { distinct = tt; sound = tt; mapped = tt }

serve-IsValid_example : StoreIsValid small (serve world calls (gateway true (some board))).cvm
serve-IsValid_example =
    serve-IsValid world small-IsLawful calls (gateway true (some board)) empty-IsValid

confined_path-StaysInside_example : StaysInside (λ s. s) (done "/srv") "work/a/merged" "src/../../b"
confined_path-StaysInside_example =
    confined_path-StaysInside (λ s. s) (done "/srv") "work/a/merged" "src/../../b"

plan_named : (string_arg polling.args "topic").0 ≢ ""
unfolding string_arg arg_of lookup dec_str
plan_named e = cc

ipc_poll-Polled_example :
    let topic = (string_arg polling.args "topic").0 in
    Polled world polling topic board
      (new_store none)
      (ipc_poll world ticks polling (gateway true (some board)))
    × ((poll topic "planner" (poll topic "planner" board).0).1 ≡ [])
ipc_poll-Polled_example =
    ipc_poll-Polled world ticks polling board (gateway true (some board)) (new_store none) refl refl
      plan_named
