-- ===== src/Capsule.antt =====
-- internal/capsule/manager.go: the capsules of the agents, their pids, and how an agent is killed.
--
-- The files of the cgroups and the signals are fields of `System`: functions of what was done before.
-- `available` and `destroyCgroupTree` are such fields too, and the files that `Prepare` writes come in
-- the order in which the map is gone through.
mod Pids
mod Rounds
pub mod Killed
mod Tests
use Prim.Native.Char.{code}
use Prim.Native.String.{◌++◌ as append}
use os_complete.Base.{
  ℕ, zero, suc, String, List, [], ◌∷◌, ◌++◌, Option, none, some, Bool, true, false, ◌||◌, ite,
  dec_str, lookup, lookup_or, insert, delete, ltb_ℤ, ℤ, pos, negsuc, if◌then◌else◌, pos_part,
  neg_part, ◌+◌, ◌==◌,
}

pub record Config : Type 0 where
  pub root : String
  pub force_real : Bool
  pub allow_degraded : Bool
  pub memory_max : String
  pub pids_max : String
  pub cpu_max : String
  pub signal_grace_period : ℤ

pub record Runtime : Type 0 where
  pub agent_id : String
  pub cgroup_path : String
  pub mode : String
  pub error : String

pub record KillResult : Type 0 where
  pub agent_id : String
  pub kill_method : String
  pub evidence_mode : String
  pub fallback_reason : String

pub data Signal : Type 0 where
  term kill : Signal

-- What is done to the system, in order.
pub data Act : Type 0 where
  made_dir : String → Act
  wrote : String → String → Act
  enabled : String → Act
  signalled : ℤ → Signal → Act
  slept : ℤ → Act
  removed : String → Act

-- `gone` is ESRCH.
pub data Sent : Type 0 where
  delivered : Sent
  gone : Sent
  refused : String → Sent

-- `join` is `filepath.Join` of two names, `itoa` `strconv.Itoa`.
pub record System : Type 0 where
  pub join : String → String → String
  pub itoa : ℤ → String
  pub quoted : String → String
  pub available : List Act → Option String
  pub enable_controllers : List Act → String → Option String
  pub make_dir : List Act → String → Option String
  pub write : List Act → String → String → Option String
  pub cgroup_pids : List Act → String → List ℤ
  pub signal : List Act → ℤ → Signal → Sent
  pub destroy_tree : List Act → String → Option String

pub record Manager : Type 0 where
  pub cfg : Config
  pub runtimes : List (String × Runtime)
  pub pids : List (String × ℤ)
  pub acts : List Act

-- The replacer of `safeName`: `/`, `:` and the space become `_`.
unfoldable pub safe_cgroup_name : String → String
safe_cgroup_name String.[] = ""
safe_cgroup_name (String.◌∷◌ c rest) = elim (code c == 0x2f || code c == 0x3a || code c == 0x20) [
  | true ↦ append "_" (safe_cgroup_name rest)
  | false ↦ String.◌∷◌ c (safe_cgroup_name rest)
]

or_default : String → String → String
or_default value default = ite (dec_str value "") default value

grace_or_default : ℤ → ℤ
grace_or_default (pos zero) = pos 500_000_000
grace_or_default (pos (suc n)) = pos (suc n)
grace_or_default (negsuc n) = negsuc n

unfoldable pub new_manager : Config → Manager
unfolding or_default grace_or_default
new_manager cfg = record {
  cfg = record cfg {
    root = or_default cfg.root "/sys/fs/cgroup/aort.slice";
    memory_max = or_default cfg.memory_max "256M";
    pids_max = or_default cfg.pids_max "64";
    cpu_max = or_default cfg.cpu_max "100000 100000";
    signal_grace_period = grace_or_default cfg.signal_grace_period;
  };
  runtimes = [];
  pids = [];
  acts = [];
}

unfoldable pub act : Act → Manager → Manager
act a m = record m { acts = m.acts ++ a ∷ [] }

unfoldable pub remember : String → ℤ → Runtime → Manager → Manager
remember agent_id pid rt m = record m {
  runtimes = insert dec_str agent_id rt m.runtimes;
  pids = insert dec_str agent_id pid m.pids;
}

unfoldable pub forget : String → Manager → Manager
forget agent_id m = record m {
  runtimes = delete dec_str agent_id m.runtimes;
  pids = delete dec_str agent_id m.pids;
}

unfoldable pub is_real : Option Runtime → Bool
is_real none = false
is_real (some rt) = ite (dec_str rt.mode "real") true false

-- `uniquePIDs`: the positive values, each once.
unfoldable pub seen_in : ℤ → List ℤ → Bool
seen_in value [] = false
seen_in value (other ∷ rest) =
    (pos_part value + neg_part other == pos_part other + neg_part value) || seen_in value rest

unfoldable pub unique_from : List ℤ → List ℤ → List ℤ
unfolding seen_in
unique_from seen [] = []
unique_from seen (value ∷ rest) =
    let skipped = unique_from seen rest in
    let kept = unique_from (value ∷ seen) rest in
    if ltb_ℤ (pos 0) value then (if seen_in value seen then skipped else value ∷ kept) else skipped

unfoldable pub unique_pids : List ℤ → List ℤ
unfolding unique_from
unique_pids values = unique_from [] values

-- The sleep between the two rounds.
unfoldable pub pause : ℤ → List Act
pause (pos zero) = []
pause (pos (suc n)) = slept (pos (suc n)) ∷ []
pause (negsuc n) = []

module _ (sys : System) where
  open sys use {join, itoa, quoted}

  unfoldable pub degraded_or_error : String → ℤ → String → Manager → Manager × Option String
  unfolding remember safe_cgroup_name
  degraded_or_error agent_id pid error m = elim m.cfg.allow_degraded [
    | false ↦ (m, some error)
    | true ↦ (
      remember agent_id pid
          (record {
            agent_id = agent_id;
            cgroup_path = append "degraded://" (safe_cgroup_name agent_id);
            mode = "degraded";
            error = error;
          })
          m,
      none,
    )
  ]

  -- The loop of `Prepare`: what is written, and the error that stops it.
  unfoldable pub write_files : String → List (String × String) → Manager → Manager × Option String
  unfolding act
  write_files path [] m = (m, none)
  write_files path ((name, value) ∷ rest) m =
      let content = append value "\n" in
      let next = write_files path rest (act (wrote (join path name) content) m) in
      elim (sys.write m.acts (join path name) content) [
        | some error ↦ (
          act (wrote (join path name) content) m,
          some (append "write " (append name (append ": " error))),
        )
        | none ↦ next
      ]

  unfoldable pub limits : Config → ℤ → List (String × String)
  limits cfg pid =
      ("memory.max", cfg.memory_max)
      ∷ ("pids.max", cfg.pids_max)
      ∷ ("cpu.max", cfg.cpu_max)
      ∷ ("cgroup.procs", itoa pid)
      ∷ []

  prepared : String → ℤ → String → Manager × Option String → Manager × Option String
  unfolding degraded_or_error remember
  prepared agent_id pid path (m, some error) = degraded_or_error agent_id pid error m
  prepared agent_id pid path (m, none) = (
    remember agent_id pid
        (record { agent_id = agent_id; cgroup_path = path; mode = "real"; error = "" }) m,
    none,
  )

  -- `Prepare`, where the map of the files is gone through as `visit` says.
  unfoldable pub prepare :
      (List (String × String) → List (String × String))
      → String
      → ℤ
      → Manager
      → Manager × Option String
  unfolding degraded_or_error write_files limits prepared act safe_cgroup_name
  prepare visit agent_id pid m = elim (if m.cfg.force_real then none else sys.available m.acts) [
    | some error ↦ degraded_or_error agent_id pid error m
    | none ↦ elim (sys.enable_controllers m.acts m.cfg.root) [
      | some error ↦
          degraded_or_error agent_id pid (append "enable cgroup subtree controllers: " error)
            (act (enabled m.cfg.root) m)
      | none ↦
          let path = join m.cfg.root (safe_cgroup_name agent_id) in
          let m1 = act (enabled m.cfg.root) m in
          elim (sys.make_dir m1.acts path) [
            | some error ↦
                degraded_or_error agent_id pid (append "create cgroup: " error)
                  (act (made_dir path) m1)
            | none ↦
                prepared agent_id pid path
                  (write_files path (visit (limits m.cfg pid)) (act (made_dir path) m1))
          ]
    ]
  ]

  unfoldable pub write_freeze : String → String → Manager → Manager × Option String
  unfolding is_real act
  write_freeze agent_id value m = elim (lookup dec_str agent_id m.runtimes) [
    | none ↦ (m, some (append "agent " (append (quoted agent_id) " has no capsule")))
    | some rt ↦ elim (is_real (some rt)) [
      | false ↦ (m, some (append "capsule degraded: " rt.error))
      | true ↦
          let path = join rt.cgroup_path "cgroup.freeze" in
          let content = append value "\n" in
          (act (wrote path content) m, sys.write m.acts path content)
    ]
  ]

  unfoldable pub freeze : String → Manager → Manager × Option String
  unfolding write_freeze
  freeze agent_id m = write_freeze agent_id "1" m

  unfoldable pub unfreeze : String → Manager → Manager × Option String
  unfolding write_freeze
  unfreeze agent_id m = write_freeze agent_id "0" m

  -- One signal to each pid: the log, and the error that stops it.
  unfoldable pub signal_all : Signal → List ℤ → List Act → List Act × Option String
  signal_all sig [] acts = (acts, none)
  signal_all sig (pid ∷ rest) acts =
      let next = signal_all sig rest (acts ++ signalled pid sig ∷ []) in
      elim (sys.signal acts pid sig) [
        | refused error ↦ (acts ++ signalled pid sig ∷ [], some error)
        | gone ↦ next
        | delivered ↦ next
      ]

  unfoldable pub kill_after : ℤ → List ℤ → List Act × Option String → List Act × Option String
  unfolding signal_all pause
  kill_after grace pids (acts, some error) = (acts, some error)
  kill_after grace pids (acts, none) = signal_all kill pids (acts ++ pause grace)

  unfoldable pub signal_pids : ℤ → List ℤ → List Act → List Act × Option String
  unfolding signal_all kill_after
  signal_pids grace pids acts = kill_after grace pids (signal_all term pids acts)

  unfoldable pub fallback_pids : List Act → String → Option Runtime → Manager → List ℤ
  unfolding is_real unique_pids
  fallback_pids acts agent_id none m = unique_pids (lookup_or dec_str (pos 0) agent_id m.pids ∷ [])
  fallback_pids acts agent_id (some rt) m =
      let primary = lookup_or dec_str (pos 0) agent_id m.pids in
      if is_real (some rt)
      then unique_pids (sys.cgroup_pids acts (join rt.cgroup_path "cgroup.procs") ++ primary ∷ [])
      else unique_pids (primary ∷ [])

  unfoldable pub kill_pids : String → List ℤ → Manager → Manager × Option String
  unfolding signal_pids
  kill_pids agent_id [] m = (m, some (append "agent " (append (quoted agent_id) " has no pid")))
  kill_pids agent_id (pid ∷ rest) m =
      let r = signal_pids m.cfg.signal_grace_period (pid ∷ rest) m.acts in
      (record m { acts = r.0 }, r.1)

  -- `Kill` without `cgroup.kill`, with the reason.
  unfoldable pub kill_by_pids :
      String → Option Runtime → String → Manager → Manager × KillResult × Option String
  unfolding fallback_pids kill_pids
  kill_by_pids agent_id rt reason m =
      let r = kill_pids agent_id (fallback_pids m.acts agent_id rt m) m in
      (
        r.0,
        record {
          agent_id = agent_id;
          kill_method = "pid-signal-fallback";
          evidence_mode = "degraded";
          fallback_reason = reason;
        },
        r.1,
      )

  unfoldable pub kill_real : String → Runtime → Manager → Manager × KillResult × Option String
  unfolding kill_by_pids act
  kill_real agent_id rt m =
      let path = join rt.cgroup_path "cgroup.kill" in
      let m1 = act (wrote path "1\n") m in
      elim (sys.write m.acts path "1\n") [
        | none ↦ (
          m1,
          record {
            agent_id = agent_id;
            kill_method = "cgroup.kill";
            evidence_mode = "real-cgroup-v2";
            fallback_reason = "";
          },
          none,
        )
        | some error ↦ kill_by_pids agent_id (some rt) (append "cgroup.kill failed: " error) m1
      ]

  unfoldable pub kill_capsule : String → Manager → Manager × KillResult × Option String
  unfolding kill_real kill_by_pids is_real
  kill_capsule agent_id m = elim (lookup dec_str agent_id m.runtimes) [
    | none ↦ kill_by_pids agent_id none "" m
    | some rt ↦
        if is_real (some rt) then kill_real agent_id rt m else kill_by_pids agent_id (some rt) "" m
  ]

  unfoldable pub destroy_capsule : String → Manager → Manager × Option String
  unfolding is_real forget act
  destroy_capsule agent_id m = elim (lookup dec_str agent_id m.runtimes) [
    | none ↦ (m, some (append "agent " (append (quoted agent_id) " has no capsule")))
    | some rt ↦ elim (is_real (some rt)) [
      | false ↦ (forget agent_id m, none)
      | true ↦
          let m1 = act (removed rt.cgroup_path) m in
          elim (sys.destroy_tree m.acts rt.cgroup_path) [
            | some error ↦ (m1, some (append "destroy cgroup: " error))
            | none ↦ (forget agent_id m1, none)
          ]
    ]
  ]
