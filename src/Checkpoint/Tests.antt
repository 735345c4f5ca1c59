-- ===== src/Checkpoint/Tests.antt =====
-- internal/checkpoint/checkpoint.go: the theorems at concrete snapshots.
use os_complete.Base.{◌≡◌, ◌≢◌, refl, ℕ, String, List, [], ◌∷◌, none, some, pos}
use os_complete.Checkpoint.{Snapshot, found, load_latest, summarize_recovery, report_of}
use os_complete.Checkpoint.Latest.{Loads, load_latest-Loads}
use os_complete.Checkpoint.Recovery.{all_with, last_with, report_of_lem}

abbrev snapshot : String → ℕ → ℕ → Snapshot
snapshot task_id sequence created_at = record {
  task_id = task_id;
  sequence = pos sequence;
  agents = [];
  page_tables = ("planner", "p1" ∷ []) ∷ [];
  scheduler_vruntime = ("planner", 7) ∷ [];
  trace_offset = pos 0;
  mode = "runtime-state";
  created_at = pos created_at;
}

abbrev files : List Snapshot
files = snapshot "t" 1 30 ∷ snapshot "t" 3 10 ∷ snapshot "t" 2 20 ∷ []

t_named : ◌≢◌ {A = String} "t" ""
t_named e = cc

load_latest-Loads_example :
    Loads (λ s. s) "t" (found files) (load_latest (λ s. s) "t" (found files))
load_latest-Loads_example =
    load_latest-Loads (λ s. s) "t" (found files) t_named (refl, (refl, (refl, tt)))

report_of_lem_example :
    all_with "t" (report_of 50 (snapshot "s" 1 5 ∷ files)).recovered_tasks
    ≡ (elim (last_with none "t" (snapshot "s" 1 5 ∷ files)) [
      | none ↦ []
      | some s ↦ summarize_recovery s ∷ []
    ])
report_of_lem_example = report_of_lem 50 (snapshot "s" 1 5 ∷ files) "t" t_named
