-- ===== src/Gateway/Exec.antt =====
-- internal/syscall/gateway.go: `tool.exec` as a whole: when a command is called, and when none is.
use os_complete.Base.{◌≡◌, ◌≢◌, refl, sym, ◌⊎◌, inl, inr, String, Option, none, some, dec_str}
use os_complete.Gateway.Args.{string_arg, string_slice_arg, int_arg}
use os_complete.Gateway.Cases.{split_ite}
use os_complete.Gateway.Follows.{Answers, Follows-trans, note-Follows, answer}
use os_complete.Gateway.Paths.{Attempt, done, fails, confined_path}
use os_complete.Gateway.Prepares.{
  Prepares, Prepares-refl, Prepares-note, workspace_for_agent-Prepares,
}
use os_complete.Gateway.Settle.{Settled, tool_settled-Settled}
use os_complete.Gateway.State.{World, Request, Response, Gateway, note, made_dir, ran, refused}
use os_complete.Gateway.Tools.{
  Call, make_dir, workspace_for_agent, timeout_of, run_tool, tool_cwd, tool_from, tool_at, tool_in,
  tool_exec,
}

module _ (w : World) where
  open w use {F, int_of, atoi, quoted, cwd, mkdir}

  -- What the request asks for.
  abbrev pub named_command : Request F → String
  named_command req = (string_arg req.args "command").0

  abbrev pub named_dir : Request F → String
  named_dir req = (string_arg req.args "cwd").0

  -- The directory that the request names in a workspace: without a name, the workspace itself.
  abbrev pub IsDir : Request F → String → Attempt String → Type 0
  IsDir req workspace dir =
      ((named_dir req ≡ "") × (dir ≡ done workspace))
      ⊎ ((named_dir req ≢ "") × (dir ≡ confined_path quoted cwd workspace (named_dir req)))

  -- Why a request is refused.
  pub data Reason (req : Request F) (g : Gateway w) (status error : String) : Type 0 where
    unnamed :
        named_command req ≡ ""
        → status ≡ "DENIED"
        → error ≡ "command is required"
        → Reason req g status error
    homeless :
        (workspace_for_agent w req.agent_id g).1 ≡ fails error
        → status ≡ "ERROR"
        → Reason req g status error
    outside :
        (workspace : String)
        → (workspace_for_agent w req.agent_id g).1 ≡ done workspace
        → IsDir req workspace (fails error)
        → status ≡ "DENIED"
        → Reason req g status error
    unmade :
        (workspace dir : String)
        → (workspace_for_agent w req.agent_id g).1 ≡ done workspace
        → IsDir req workspace (done dir)
        → mkdir (workspace_for_agent w req.agent_id g).0.effects dir ≡ some error
        → status ≡ "ERROR"
        → Reason req g status error

  -- No command is called.
  pub record Unrun (req : Request F) (g : Gateway w) (r : Gateway w × Response) : Type 0 where
    pub prepares : Prepares w g r.0
    pub reason : Reason req g r.1.status r.1.error
    pub payload_is : r.1.payload ≡ none

  -- One command is called, in the workspace, and settled.
  pub record Ran (req : Request F) (g : Gateway w) (r : Gateway w × Response) : Type 0 where
    pub before : Gateway w
    pub prepares : Prepares w g before
    pub workspace : String
    pub call : Call
    pub home : (workspace_for_agent w req.agent_id g).1 ≡ done workspace
    pub named : (call.command ≢ "") × (call.command ≡ named_command req)
    pub given : call.args ≡ string_slice_arg req.args "args"
    pub inside : IsDir req workspace (done call.cwd)
    pub made : mkdir (workspace_for_agent w req.agent_id g).0.effects call.cwd ≡ none
    pub before_is : before ≡ note w (made_dir call.cwd) (workspace_for_agent w req.agent_id g).0
    pub settled :
        let timeout = timeout_of (int_arg int_of atoi req.args "timeout_ms") before.tool_timeout in
        Settled w req call
          (w.run before.effects call.command call.args call.cwd timeout)
          (note w (ran call.command call.args call.cwd timeout) before)
          r

  abbrev pub Outcome : Request F → Gateway w → Gateway w × Response → Type 0
  Outcome req g r = Unrun req g r ⊎ Ran req g r

  abbrev Both : Request F → Gateway w → Gateway w × Response → Type 0
  Both req g r = Outcome req g r × Answers w req g r

  unrun :
      (req : Request F) (g h : Gateway w) (status error : String)
      → Reason req g status error
      → Prepares w g h
      → Both req g (h, refused req status error)
  unfolding refused
  unrun req g h status error s p =
      (inl (record { prepares = p; reason = s; payload_is = refl }), answer w h _ p.follows refl)

  tool_from-Outcome :
      (req : Request F) (g h : Gateway w) (workspace : String) (call : Call) (made : Option String)
      → call.command ≢ ""
      → call.command ≡ named_command req
      → call.args ≡ string_slice_arg req.args "args"
      → (workspace_for_agent w req.agent_id g).1 ≡ done workspace
      → IsDir req workspace (done call.cwd)
      → ((error : String) → made ≡ some error → Reason req g "ERROR" error)
      → made ≡ mkdir (workspace_for_agent w req.agent_id g).0.effects call.cwd
      → h ≡ note w (made_dir call.cwd) (workspace_for_agent w req.agent_id g).0
      → Prepares w g h
      → Both req g (tool_from w req call (h, made))
  unfolding tool_from run_tool
  tool_from-Outcome req g h workspace call (some error) n c a e i why m b p =
      unrun req g h "ERROR" error (why error refl) p
  tool_from-Outcome req g h workspace call none n c a e i why m b p =
      let timeout = timeout_of (int_arg int_of atoi req.args "timeout_ms") h.tool_timeout in
      let result = w.run h.effects call.command call.args call.cwd timeout in
      let asked = note w (ran call.command call.args call.cwd timeout) h in
      let (s, t) = tool_settled-Settled w req call result asked in
      (
        inr (record {
          before = h;
          prepares = p;
          workspace = workspace;
          call = call;
          home = e;
          named = (n, c);
          given = a;
          inside = i;
          made = sym m;
          before_is = b;
          settled = s;
        }),
        answer w _ _
            (Follows-trans w g h _ p.follows
              (Follows-trans w h asked _ (note-Follows w _ h) t.follows))
            t.answers,
      )

  tool_at-Outcome :
      (req : Request F) (g : Gateway w) (workspace command : String) (dir : Attempt String)
      → command ≢ ""
      → command ≡ named_command req
      → (workspace_for_agent w req.agent_id g).1 ≡ done workspace
      → IsDir req workspace dir
      → Both req g (tool_at w req command (workspace_for_agent w req.agent_id g).0 dir)
  unfolding tool_at make_dir
  tool_at-Outcome req g workspace command (fails error) n c e i =
      unrun req g _ "DENIED" error (outside workspace e i refl)
        (workspace_for_agent-Prepares w req.agent_id g)
  tool_at-Outcome req g workspace command (done dir) n c e i =
      let h = (workspace_for_agent w req.agent_id g).0 in
      tool_from-Outcome req g (note w (made_dir dir) h) workspace _ _ n c refl e i
        (λ error failed. unmade workspace dir e i failed refl) refl refl
        (Prepares-note w g h _ tt (workspace_for_agent-Prepares w req.agent_id g))

  tool_cwd-IsDir :
      (req : Request F) (workspace : String)
      → IsDir req workspace (tool_cwd w workspace (named_dir req))
  unfolding tool_cwd
  tool_cwd-IsDir req workspace =
      split_ite (IsDir req workspace) (dec_str (named_dir req) "") (λ e. inl (e, refl))
        (λ n. inr (n, refl))

  tool_in-Outcome :
      (req : Request F) (g : Gateway w) (command : String) (home : Attempt String)
      → command ≢ ""
      → command ≡ named_command req
      → (workspace_for_agent w req.agent_id g).1 ≡ home
      → Both req g (tool_in w req command ((workspace_for_agent w req.agent_id g).0, home))
  unfolding tool_in
  tool_in-Outcome req g command (fails error) n c e =
      unrun req g _ "ERROR" error (homeless e refl) (workspace_for_agent-Prepares w req.agent_id g)
  tool_in-Outcome req g command (done workspace) n c e =
      tool_at-Outcome req g workspace command _ n c e (tool_cwd-IsDir req workspace)

  tool_exec-Both : (req : Request F) (g : Gateway w) → Both req g (tool_exec w req g)
  unfolding tool_exec
  tool_exec-Both req g =
      split_ite (Both req g) (dec_str (named_command req) "")
        (λ e.
          unrun req g g "DENIED" "command is required" (unnamed e refl refl) (Prepares-refl w g))
        (λ n. tool_in-Outcome req g (named_command req) _ n refl refl)

  -- A call of tool.exec comes to one of two things. It is refused without a payload, for one of four
  -- reasons: DENIED when it names no command or when confinedPath refuses the directory it names, ERROR
  -- when the agent has no workspace or the directory cannot be made; then directories at most were
  -- made or asked for, and neither a command was called nor a workspace settled. Or one command was
  -- called, the one asked for, in the workspace that workspaceForAgent returns for the agent if the
  -- request names no directory, else in the directory that confinedPath makes of the name in that
  -- workspace, and settled: the workspace runtime, if there is one, is asked to commit the workspace if
  -- the command ended in time without an error, else to roll it back, never both; the observer, if
  -- there is one, is told once, with the response's status; the status is TIMEOUT after the deadline,
  -- ERROR when the command or the commit failed, and else OK.
  pub tool_exec-Outcome : (req : Request F) (g : Gateway w) → Outcome req g (tool_exec w req g)
  tool_exec-Outcome req g = (tool_exec-Both req g).0

  pub tool_exec-Answers : (req : Request F) (g : Gateway w) → Answers w req g (tool_exec w req g)
  tool_exec-Answers req g = (tool_exec-Both req g).1
