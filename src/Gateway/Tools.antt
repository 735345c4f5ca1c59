-- ===== src/Gateway/Tools.antt =====
-- internal/syscall/gateway.go: `tool.exec` and the workspaces of the agents.
--
-- `cmd.Run`, `os.MkdirAll` and the workspace runtime are fields of the world; each call of them is
-- noted, with what it was asked.
use os_complete.Base.{
  ℕ, zero, suc, ◌*◌, ◌%◌, ◌-◌, ◌^◌, String, List, [], ◌∷◌, Option, none, some, true, false, ite,
  dec_str, ℤ, pos, negsuc, ltb, if◌then◌else◌,
}
use os_complete.Events.{Payload, fields, text, texts, int}
use os_complete.Gateway.Args.{string_arg, string_slice_arg, int_arg}
use os_complete.Gateway.Paths.{
  Attempt, done, fails, absolute, join, render, confined_path, clean_agent_id,
}
use os_complete.Gateway.State.{
  World, Request, Response, ToolRun, Gateway, note, asked_dir, committed, rolled_back, destroyed,
  made_dir, ran, observed, refused,
}

-- `time.Duration(ms) * time.Millisecond`, for a positive `ms`: 64 bits.
unfoldable pub milliseconds : ℕ → ℤ
milliseconds ms =
    let n = (ms * 1_000_000) % 2 ^ 64 in if ltb n (2 ^ 63) then pos n else negsuc (2 ^ 64 - n - 1)

unfoldable pub timeout_of : ℤ → ℤ → ℤ
unfolding milliseconds
timeout_of (pos zero) tool_timeout = tool_timeout
timeout_of (pos (suc n)) tool_timeout = milliseconds (suc n)
timeout_of (negsuc n) tool_timeout = tool_timeout

unfoldable pub exit_code : Option ℤ → ℤ
exit_code (some code) = code
exit_code none = negsuc 0

-- What a command was called with.
pub record Call : Type 0 where
  pub command : String
  pub args : List String
  pub cwd : String

unfoldable pub tool_payload : Call → ToolRun → ℤ → Option String → Payload
tool_payload call result code none = fields (
    ("command", text call.command)
    ∷ ("args", texts call.args)
    ∷ ("cwd", text call.cwd)
    ∷ ("stdout", text result.stdout)
    ∷ ("stderr", text result.stderr)
    ∷ ("exit_code", int code)
    ∷ [])
tool_payload call result code (some error) = fields (
    ("command", text call.command)
    ∷ ("args", texts call.args)
    ∷ ("cwd", text call.cwd)
    ∷ ("stdout", text result.stdout)
    ∷ ("stderr", text result.stderr)
    ∷ ("exit_code", int code)
    ∷ ("workspace_error", text error)
    ∷ [])

unfoldable pub ended : {F : Type 0} → Request F → String → String → Payload → Response
ended req status error payload = record {
  request_id = req.request_id;
  status = status;
  error = error;
  payload = some payload;
}

module _ (w : World) where
  open w use {F, int_of, atoi, quoted, cwd, mkdir, workspace_dir, commit, rollback, destroy}

  unfoldable pub make_dir : String → Gateway w → Gateway w × Option String
  make_dir path g = (note w (made_dir path) g, mkdir g.effects path)

  -- The directory below the root, once it is made.
  unfoldable pub made_workspace : Gateway w → List String → Gateway w × Attempt String
  unfolding make_dir
  made_workspace g names =
      let m = make_dir (render names) g in
      (m.0, elim m.1 [ some error ↦ fails error | none ↦ done (render names) ])

  unfoldable pub workspace_below :
      String → Gateway w → Attempt (List String) → Gateway w × Attempt String
  unfolding made_workspace
  workspace_below agent_id g (fails error) = (g, fails error)
  workspace_below agent_id g (done root) =
      made_workspace g (join (join root (clean_agent_id agent_id)) "merged")

  unfoldable pub workspace_for_agent : String → Gateway w → Gateway w × Attempt String
  unfolding workspace_below
  workspace_for_agent agent_id g =
      ite (dec_str agent_id "") (g, fails "agent_id is required")
        (elim g.workspace_runtime [
          | true ↦ (note w (asked_dir agent_id) g, workspace_dir g.effects agent_id)
          | false ↦ workspace_below agent_id g (absolute cwd g.workspace_root)
        ])

  unfoldable pub commit_workspace : String → Gateway w → Gateway w × Option String
  commit_workspace agent_id g = elim g.workspace_runtime [
    | false ↦ (g, none)
    | true ↦ (note w (committed agent_id) g, commit g.effects agent_id)
  ]

  unfoldable pub rollback_workspace : String → Gateway w → Gateway w × Option String
  rollback_workspace agent_id g = elim g.workspace_runtime [
    | false ↦ (g, none)
    | true ↦ (note w (rolled_back agent_id) g, rollback g.effects agent_id)
  ]

  unfoldable pub destroy_agent : String → Gateway w → Gateway w × Option String
  destroy_agent agent_id g = elim g.workspace_runtime [
    | false ↦ (g, none)
    | true ↦ (note w (destroyed agent_id) g, destroy g.effects agent_id)
  ]

  unfoldable pub observe_exec : Request F → ℕ → Call → String → Gateway w → Gateway w
  observe_exec req pid call status g = elim g.exec_observer [
    | false ↦ g
    | true ↦
        note w
          (observed (record {
            task_id = req.task_id;
            agent_id = req.agent_id;
            pid = pid;
            command = call.command;
            args = call.args;
            cgroup_path = "";
            workspace = call.cwd;
            status = status;
          }))
          g
  ]

  -- A command that failed or ran out of time.
  unfoldable pub tool_undone :
      Request F → Call → ToolRun → String → ℤ → String → Gateway w → Gateway w × Response
  unfolding rollback_workspace observe_exec tool_payload ended
  tool_undone req call result status code error g =
      let r = rollback_workspace req.agent_id g in
      (
        observe_exec req result.pid call status r.0,
        ended req status error (tool_payload call result code r.1),
      )

  -- A command that ended with the code 0.
  unfoldable pub tool_done : Request F → Call → ToolRun → Gateway w → Gateway w × Response
  unfolding commit_workspace observe_exec tool_payload ended
  tool_done req call result g =
      let c = commit_workspace req.agent_id g in
      elim c.1 [
        | some error ↦ (
          observe_exec req result.pid call "ERROR" c.0,
          ended req "ERROR" error (tool_payload call result (pos 0) (some error)),
        )
        | none ↦ (
          observe_exec req result.pid call "OK" c.0,
          ended req "OK" "" (tool_payload call result (pos 0) none),
        )
      ]

  unfoldable pub tool_settled : Request F → Call → ToolRun → Gateway w → Gateway w × Response
  unfolding exit_code tool_undone tool_done
  tool_settled req call result g = elim result.deadline_exceeded [
    | false ↦ elim result.error [
      | none ↦ tool_done req call result g
      | some (error, exit) ↦ tool_undone req call result "ERROR" (exit_code exit) error g
    ]
    | true ↦ tool_undone req call result "TIMEOUT" (negsuc 0) "tool timeout" g
  ]

  unfoldable pub run_tool : Request F → Call → Gateway w → Gateway w × Response
  unfolding tool_settled timeout_of
  run_tool req call g =
      let timeout = timeout_of (int_arg int_of atoi req.args "timeout_ms") g.tool_timeout in
      tool_settled req call (w.run g.effects call.command call.args call.cwd timeout)
        (note w (ran call.command call.args call.cwd timeout) g)

  -- The directory of the command: the workspace, or one in it.
  unfoldable pub tool_cwd : String → String → Attempt String
  tool_cwd workspace requested =
      ite (dec_str requested "") (done workspace) (confined_path quoted cwd workspace requested)

  unfoldable pub tool_from : Request F → Call → Gateway w × Option String → Gateway w × Response
  unfolding run_tool
  tool_from req call (g, some error) = (g, refused req "ERROR" error)
  tool_from req call (g, none) = run_tool req call g

  unfoldable pub tool_at : Request F → String → Gateway w → Attempt String → Gateway w × Response
  unfolding make_dir tool_from
  tool_at req command g (fails error) = (g, refused req "DENIED" error)
  tool_at req command g (done dir) =
      tool_from req
        (record { command = command; args = string_slice_arg req.args "args"; cwd = dir })
        (make_dir dir g)

  unfoldable pub tool_in : Request F → String → Gateway w × Attempt String → Gateway w × Response
  unfolding tool_cwd tool_at
  tool_in req command (g, fails error) = (g, refused req "ERROR" error)
  tool_in req command (g, done workspace) =
      tool_at req command g (tool_cwd workspace (string_arg req.args "cwd").0)

  unfoldable pub tool_exec : Request F → Gateway w → Gateway w × Response
  unfolding workspace_for_agent tool_in
  tool_exec req g =
      let command = (string_arg req.args "command").0 in
      ite (dec_str command "") (g, refused req "DENIED" "command is required")
        (tool_in req command (workspace_for_agent req.agent_id g))
