-- ===== src/Capsule/Tests.antt =====
-- internal/capsule/manager.go: the theorem at a manager with one agent, whose cgroup cannot be killed.
use os_complete.Base.{[], ◌∷◌, none, some, pos, true, false}
use Prim.Native.String.{◌++◌ as append}
use os_complete.Capsule.{Manager, System, delivered, kill_capsule, new_manager, prepare}
use os_complete.Capsule.Killed.{Kills, kill_capsule-Kills}

abbrev system : System
system = record {
  join = λ a b. append a (append "/" b);
  itoa = λ n. "7";
  quoted = λ s. s;
  available = λ acts. none;
  enable_controllers = λ acts root. none;
  make_dir = λ acts path. none;
  write = λ acts path content. some "read-only";
  cgroup_pids = λ acts path. pos 9 ∷ pos 7 ∷ [];
  signal = λ acts pid sig. delivered;
  destroy_tree = λ acts path. none;
}

abbrev manager : Manager
manager =
    (prepare system (λ files. files) "coder" (pos 7)
      (new_manager (record {
        root = "";
        force_real = false;
        allow_degraded = true;
        memory_max = "";
        pids_max = "";
        cpu_max = "";
        signal_grace_period = pos 0;
      }))).0

kill_capsule-Kills_example : Kills system "coder" manager (kill_capsule system "coder" manager)
kill_capsule-Kills_example = kill_capsule-Kills system "coder" manager
