-- ===== src/Gateway/Settle.antt =====
-- internal/syscall/gateway.go: how a command ends, and what becomes of the agent's workspace.
use os_complete.Base.{
  ◌≡◌, refl, sym, ap, ◌∙◌, ◌⊎◌, inl, inr, String, List, [], ◌∷◌, ◌++◌, Option, none, some, Bool,
  true, false, ℤ, pos, negsuc,
}
use mathlib.Core.List.{append-nil}
use os_complete.Gateway.Cases.{split_Bool, split_Option}
use os_complete.Gateway.Follows.{
  Follows, Answers, Follows-refl, Follows-trans, note-Follows, answer,
}
use os_complete.Gateway.State.{
  World, Request, Response, ToolRun, Effect, Gateway, note, committed, rolled_back, observed,
}
use os_complete.Gateway.Tools.{
  Call, exit_code, tool_payload, ended, commit_workspace, rollback_workspace, observe_exec,
  tool_undone, tool_done, tool_settled,
}

abbrev pub when : {A : Type 0} → Bool → A → List A
when false x = []
when true x = x ∷ []

module _ (w : World) where
  open w use {F}

  -- What the observer is told of a command.
  abbrev pub seen : Request F → Call → ToolRun → String → Effect F
  seen req call result status = observed (record {
    task_id = req.task_id;
    agent_id = req.agent_id;
    pid = result.pid;
    command = call.command;
    args = call.args;
    cgroup_path = "";
    workspace = call.cwd;
    status = status;
  })

  -- The workspace is rolled back: the deadline passed, or the command failed.
  pub record Undone (req : Request F) (call : Call) (result : ToolRun) (g : Gateway w)
      (r : Gateway w × Response) (status error : String) (code : ℤ) : Type 0 where
    pub status_is : r.1.status ≡ status
    pub error_is : r.1.error ≡ error
    pub payload_is :
        r.1.payload ≡ some (tool_payload call result code (rollback_workspace w req.agent_id g).1)
    pub effects_are :
        r.0.effects
        ≡ (g.effects ++ when g.workspace_runtime (rolled_back req.agent_id))
          ++ when g.exec_observer (seen req call result status)

  -- The workspace is committed, and the response says what came of it.
  pub record Kept (req : Request F) (call : Call) (result : ToolRun) (g : Gateway w)
      (r : Gateway w × Response) : Type 0 where
    pub outcome :
        ((r.1.status ≡ "OK") × ((commit_workspace w req.agent_id g).1 ≡ none))
        ⊎ ((error : String) × (r.1.status ≡ "ERROR")
            × (r.1.error ≡ error)
            × ((commit_workspace w req.agent_id g).1 ≡ some error))
    pub payload_is :
        r.1.payload ≡ some (tool_payload call result (pos 0) (commit_workspace w req.agent_id g).1)
    pub effects_are :
        r.0.effects
        ≡ (g.effects ++ when g.workspace_runtime (committed req.agent_id))
          ++ when g.exec_observer (seen req call result r.1.status)

  -- The three ways a command ends.
  abbrev pub Settled : Request F → Call → ToolRun → Gateway w → Gateway w × Response → Type 0
  Settled req call result g r =
      ((result.deadline_exceeded ≡ true)
        × Undone req call result g r "TIMEOUT" "tool timeout" (negsuc 0))
      ⊎ ((result.deadline_exceeded ≡ false)
          × (error : String) × (exit : Option ℤ) × (result.error ≡ some (error, exit))
          × Undone req call result g r "ERROR" error (exit_code exit))
      ⊎ ((result.deadline_exceeded ≡ false) × (result.error ≡ none) × Kept req call result g r)

  noted_if :
      {A : Type 0} (b : Bool) (effect : Effect F) (g : Gateway w) (x y : A)
      → let r : Gateway w × A = elim b [ false ↦ (g, x) | true ↦ (note w effect g, y) ] in
        Follows w g r.0
        × (r.0.effects ≡ g.effects ++ when b effect)
        × (r.0.exec_observer ≡ g.exec_observer)
  unfolding note
  noted_if false effect g x y = (Follows-refl w g, sym (append-nil g.effects), refl)
  noted_if true effect g x y = (note-Follows w effect g, refl, refl)

  observed_if :
      (b : Bool) (effect : Effect F) (g : Gateway w)
      → let g' : Gateway w = elim b [ false ↦ g | true ↦ note w effect g ] in
        Follows w g g' × (g'.effects ≡ g.effects ++ when b effect)
  unfolding note
  observed_if false effect g = (Follows-refl w g, sym (append-nil g.effects))
  observed_if true effect g = (note-Follows w effect g, refl)

  -- The workspace settled, and the observer told.
  observe_exec-effects :
      (req : Request F) (call : Call) (result : ToolRun) (status : String) (g h : Gateway w)
      (settled : List (Effect F))
      → h.effects ≡ g.effects ++ settled
      → h.exec_observer ≡ g.exec_observer
      → (observe_exec w req result.pid call status h).effects
        ≡ (g.effects ++ settled) ++ when g.exec_observer (seen req call result status)
  unfolding observe_exec
  observe_exec-effects req call result status g h settled e o =
      let effect = seen req call result status in
      (observed_if h.exec_observer effect h).1
      ∙ ap (λ effects. effects ++ when h.exec_observer effect) e
      ∙ ap (λ b. (g.effects ++ settled) ++ when b effect) o

  tool_undone-Undone :
      (req : Request F) (call : Call) (result : ToolRun) (status error : String) (code : ℤ)
      (g : Gateway w)
      → Undone req call result g
          (tool_undone w req call result status code error g)
          status
          error
          code
        × Answers w req g (tool_undone w req call result status code error g)
  unfolding tool_undone observe_exec rollback_workspace ended
  tool_undone-Undone req call result status error code g =
      let id = req.agent_id in
      let (f, e, o) =
        noted_if g.workspace_runtime (rolled_back id) g none (w.rollback g.effects id) in
      let h = (rollback_workspace w id g).0 in
      (
        record {
          status_is = refl;
          error_is = refl;
          payload_is = refl;
          effects_are = observe_exec-effects req call result status g h _ e o;
        },
        answer w _ _ (Follows-trans w g h _ f (observed_if h.exec_observer _ h).0) refl,
      )

  tool_done-Kept :
      (req : Request F) (call : Call) (result : ToolRun) (g : Gateway w)
      → Kept req call result g (tool_done w req call result g)
        × Answers w req g (tool_done w req call result g)
  unfolding tool_done observe_exec commit_workspace ended
  tool_done-Kept req call result g =
      let id = req.agent_id in
      let (f, e, o) = noted_if g.workspace_runtime (committed id) g none (w.commit g.effects id) in
      let c = commit_workspace w id g in
      let Both : (Gateway w × Response) → Type 0 =
        λ r. Kept req call result g r × Answers w req g r in
      split_Option Both c.1
        (λ committed_well. (
          record {
            outcome = inl (refl, committed_well);
            payload_is = ap (λ o. some (tool_payload call result (pos 0) o)) (sym committed_well);
            effects_are = observe_exec-effects req call result "OK" g c.0 _ e o;
          },
          answer w _ _ (Follows-trans w g c.0 _ f (observed_if c.0.exec_observer _ c.0).0) refl,
        ))
        (λ error failed. (
          record {
            outcome = inr (error, refl, refl, failed);
            payload_is = ap (λ o. some (tool_payload call result (pos 0) o)) (sym failed);
            effects_are = observe_exec-effects req call result "ERROR" g c.0 _ e o;
          },
          answer w _ _ (Follows-trans w g c.0 _ f (observed_if c.0.exec_observer _ c.0).0) refl,
        ))

  pub tool_settled-Settled :
      (req : Request F) (call : Call) (result : ToolRun) (g : Gateway w)
      → Settled req call result g (tool_settled w req call result g)
        × Answers w req g (tool_settled w req call result g)
  unfolding tool_settled
  tool_settled-Settled req call result g =
      let Both : (Gateway w × Response) → Type 0 =
        λ r. Settled req call result g r × Answers w req g r in
      split_Bool Both result.deadline_exceeded
        (λ in_time.
          split_Option Both result.error
            (λ well.
              let (k, a) = tool_done-Kept req call result g in (inr (inr (in_time, well, k)), a))
            (λ (error, exit) failed.
              let (u, a) = tool_undone-Undone req call result "ERROR" error (exit_code exit) g in
              (inr (inl (in_time, error, exit, failed, u)), a)))
        (λ late.
          let (u, a) = tool_undone-Undone req call result "TIMEOUT" "tool timeout" (negsuc 0) g in
          (inl (late, u), a))
