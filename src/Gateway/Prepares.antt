-- ===== src/Gateway/Prepares.antt =====
-- internal/syscall/gateway.go: what `tool.exec` does before it calls a command.
use os_complete.Base.{
  ◌≡◌, refl, sym, ap, ◌∙◌, String, List, [], ◌∷◌, ◌++◌, dec_str, All, All-append,
}
use mathlib.Core.List.{append_assoc, append-nil}
use os_complete.Gateway.Cases.{split_Bool, split_ite}
use os_complete.Gateway.Follows.{Follows, Follows-refl, Follows-trans, note-Follows}
use os_complete.Gateway.Paths.{Attempt, done, fails, absolute}
use os_complete.Gateway.State.{
  World, Effect, Gateway, note, asked_dir, made_dir, ran, committed, rolled_back, destroyed,
  observed, reported, asked_spawn,
}
use os_complete.Gateway.Tools.{make_dir, made_workspace, workspace_below, workspace_for_agent}

module _ (w : World) where
  open w use {F, int_of, atoi, quoted, cwd, mkdir}

  -- An effect that calls no command and settles no workspace.
  abbrev pub Quiet : Effect F → Type 0
  Quiet (asked_dir _) = Unit
  Quiet (made_dir _) = Unit
  Quiet (committed _) = ⊥
  Quiet (rolled_back _) = ⊥
  Quiet (destroyed _) = ⊥
  Quiet (ran _ _ _ _) = ⊥
  Quiet (observed _) = ⊥
  Quiet (reported _) = ⊥
  Quiet (asked_spawn _) = ⊥

  -- From one state to the next, directories at most are made or asked for.
  pub record Prepares (g h : Gateway w) : Type 0 where
    pub follows : Follows w g h
    pub setup : List (Effect F)
    pub quiet : All Quiet setup
    pub effects_are : h.effects ≡ g.effects ++ setup
    pub runtime_kept : h.workspace_runtime ≡ g.workspace_runtime
    pub observer_kept : h.exec_observer ≡ g.exec_observer
    pub timeout_kept : h.tool_timeout ≡ g.tool_timeout

  pub Prepares-refl : (g : Gateway w) → Prepares g g
  Prepares-refl g = record {
    follows = Follows-refl w g;
    setup = [];
    quiet = tt;
    effects_are = sym (append-nil g.effects);
    runtime_kept = refl;
    observer_kept = refl;
    timeout_kept = refl;
  }

  pub Prepares-note :
      (g h : Gateway w) (effect : Effect F)
      → Quiet effect
      → Prepares g h
      → Prepares g (note w effect h)
  unfolding note
  Prepares-note g h effect q p = record {
    follows = Follows-trans w g h _ p.follows (note-Follows w effect h);
    setup = p.setup ++ effect ∷ [];
    quiet = All-append Quiet p.setup (effect ∷ []) p.quiet (q, tt);
    effects_are =
        ap (λ effects. effects ++ effect ∷ []) p.effects_are
        ∙ append_assoc g.effects p.setup (effect ∷ []);
    runtime_kept = p.runtime_kept;
    observer_kept = p.observer_kept;
    timeout_kept = p.timeout_kept;
  }

  workspace_below-Prepares :
      (agent_id : String) (g : Gateway w) (root : Attempt (List String))
      → Prepares g (workspace_below w agent_id g root).0
  unfolding workspace_below made_workspace make_dir
  workspace_below-Prepares agent_id g (fails error) = Prepares-refl g
  workspace_below-Prepares agent_id g (done root) = Prepares-note g g _ tt (Prepares-refl g)

  pub workspace_for_agent-Prepares :
      (agent_id : String) (g : Gateway w) → Prepares g (workspace_for_agent w agent_id g).0
  unfolding workspace_for_agent
  workspace_for_agent-Prepares agent_id g =
      let Kept : (Gateway w × Attempt String) → Type 0 = λ r. Prepares g r.0 in
      split_ite Kept (dec_str agent_id "") (λ _. Prepares-refl g)
        (λ _.
          split_Bool Kept g.workspace_runtime
            (λ _. workspace_below-Prepares agent_id g (absolute cwd g.workspace_root))
            (λ _. Prepares-note g g _ tt (Prepares-refl g)))
