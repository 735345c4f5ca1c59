-- ===== src/Capsule/Killed.antt =====
-- internal/capsule/manager.go: what `Kill` does to an agent.
use Prim.Native.String.{◌++◌ as append}
use mathlib.Core.List.{append-nil}
use os_complete.Base.{
  ◌≡◌, refl, subst, String, List, [], ◌∷◌, ◌++◌, Option, none, some, ℤ, dec_str, lookup,
}
use os_complete.Base.Cases.{split_if, split_Option}
use os_complete.Capsule.Pids.{
  HasReal, AreTargets, fallback_pids-AreTargets, is_real-mode, not-is_real-mode, HasReal-same,
}
use os_complete.Capsule.Rounds.{Signalled, nobody, signal_pids-Signalled}
use os_complete.Capsule.{
  Act, wrote, System, Manager, KillResult, Runtime, is_real, fallback_pids, kill_pids, kill_by_pids,
  kill_real, kill_capsule, act,
}

module _ (sys : System) where
  -- The order that kills all processes of a cgroup.
  abbrev pub kill_file : Runtime → String
  kill_file rt = sys.join rt.cgroup_path "cgroup.kill"

  -- Why the agent is not killed by its cgroup, and what was tried.
  pub data Fallback (agent_id : String) (m : Manager) (tried : List Act) (reason : String)
      : Type 0 where
    unreal :
        ((rt : Runtime) → ¬ HasReal agent_id m rt)
        → tried ≡ []
        → reason ≡ ""
        → Fallback agent_id m tried reason
    failed :
        (rt : Runtime) (error : String)
        → HasReal agent_id m rt
        → sys.write m.acts (kill_file rt) "1\n" ≡ some error
        → tried ≡ wrote (kill_file rt) "1\n" ∷ []
        → reason ≡ append "cgroup.kill failed: " error
        → Fallback agent_id m tried reason

  -- What a kill comes to; of the manager only the log of acts changes.
  pub data Kills (agent_id : String) (m : Manager) (r : Manager × KillResult × Option String)
      : Type 0 where
    by_cgroup :
        (rt : Runtime)
        → HasReal agent_id m rt
        → sys.write m.acts (kill_file rt) "1\n" ≡ none
        → r.0 ≡ record m { acts = m.acts ++ wrote (kill_file rt) "1\n" ∷ [] }
        → r.1 ≡ record {
          agent_id = agent_id;
          kill_method = "cgroup.kill";
          evidence_mode = "real-cgroup-v2";
          fallback_reason = "";
        }
        → r.2 ≡ none
        → Kills agent_id m r
    by_pids :
        (tried : List Act) (reason : String) (pids : List ℤ) (acts : List Act)
        → Fallback agent_id m tried reason
        → AreTargets sys (m.acts ++ tried) agent_id m pids
        → Signalled sys m.cfg.signal_grace_period pids (m.acts ++ tried) (acts, r.2)
        → r.0 ≡ record m { acts = acts }
        → r.1 ≡ record {
          agent_id = agent_id;
          kill_method = "pid-signal-fallback";
          evidence_mode = "degraded";
          fallback_reason = reason;
        }
        → Kills agent_id m r

  -- The signals, whatever the pids.
  kill_pids-Signalled :
      (agent_id : String) (pids : List ℤ) (m : Manager)
      → Signalled sys m.cfg.signal_grace_period pids m.acts
          ((kill_pids sys agent_id pids m).0.acts, (kill_pids sys agent_id pids m).1)
        × ((kill_pids sys agent_id pids m).0
            ≡ record m { acts = (kill_pids sys agent_id pids m).0.acts })
  unfolding kill_pids
  kill_pids-Signalled agent_id [] m = (nobody _ refl refl, refl)
  kill_pids-Signalled agent_id (pid ∷ rest) m =
      (signal_pids-Signalled sys m.cfg.signal_grace_period (pid ∷ rest) m.acts (λ e. cc), refl)

  kill_by_pids-Kills :
      (agent_id reason : String) (rt : Option Runtime) (tried : List Act) (m : Manager)
      → lookup dec_str agent_id m.runtimes ≡ rt
      → Fallback agent_id m tried reason
      → Kills agent_id m (kill_by_pids sys agent_id rt reason (record m { acts = m.acts ++ tried }))
  unfolding kill_by_pids
  kill_by_pids-Kills agent_id reason rt tried m e f =
      let m1 : Manager = record m { acts = m.acts ++ tried } in
      let pids = fallback_pids sys m1.acts agent_id rt m1 in
      let (s, kept) = kill_pids-Signalled agent_id pids m1 in
      let t = fallback_pids-AreTargets sys m1.acts agent_id m1 rt e in
      by_pids tried reason pids _ f (record { once = t.once; exactly = t.exactly }) s kept refl

  -- Nothing was tried.
  kill_untried-Kills :
      (agent_id : String) (rt : Option Runtime) (m : Manager)
      → lookup dec_str agent_id m.runtimes ≡ rt
      → ((rt : Runtime) → ¬ HasReal agent_id m rt)
      → Kills agent_id m (kill_by_pids sys agent_id rt "" m)
  kill_untried-Kills agent_id rt m e n =
      subst (λ acts. Kills agent_id m (kill_by_pids sys agent_id rt "" (record m { acts = acts })))
        (append-nil m.acts) (kill_by_pids-Kills agent_id "" rt [] m e (unreal n refl refl))

  kill_real-Kills :
      (agent_id : String) (rt : Runtime) (m : Manager)
      → HasReal agent_id m rt
      → Kills agent_id m (kill_real sys agent_id rt m)
  unfolding kill_real act
  kill_real-Kills agent_id rt m has =
      split_Option (Kills agent_id m) (sys.write m.acts (kill_file rt) "1\n")
        (λ e. by_cgroup rt has e refl refl refl)
        (λ error e.
          kill_by_pids-Kills agent_id _ (some rt) (wrote (kill_file rt) "1\n" ∷ []) m has.0
            (failed rt error has e refl refl))

  -- Kill comes to one of two things. If the agent has a real capsule and its file cgroup.kill takes the
  -- order "1", that is all that is done, and the result says so. Else the result says that it is the
  -- fallback, with the error of cgroup.kill if it was tried, and signals go to the agent's processes:
  -- the pid it was prepared with and, with a real capsule, those that its cgroup lists, if positive,
  -- each once. Without any an error is returned. Each is told to end, in order; after the grace
  -- period, if it is positive, each is killed in the same order; the first signal that is refused for
  -- another reason than that the process is gone stops this, and its error is returned. Of the
  -- manager only the log of what was done changes.
  pub kill_capsule-Kills :
      (agent_id : String) (m : Manager) → Kills agent_id m (kill_capsule sys agent_id m)
  unfolding kill_capsule
  kill_capsule-Kills agent_id m =
      split_Option (Kills agent_id m) (lookup dec_str agent_id m.runtimes)
        (λ e. kill_untried-Kills agent_id none m e (λ rt has. cc (e, has.0)))
        (λ rt e.
          split_if (Kills agent_id m) (is_real (some rt))
            (λ real. kill_real-Kills agent_id rt m (e, is_real-mode rt real))
            (λ sham. kill_untried-Kills agent_id (some rt) m e (λ rt' has.
              not-is_real-mode rt sham
                (subst (λ q. q.mode ≡ "real") (HasReal-same agent_id m rt rt' e has) has.1))))
