-- ===== src/Evidence.antt =====
-- internal/evidence/evidence.go: the modes by which a piece of evidence is labelled. A mode is the
-- text of its constant. What `cgroupMode` asks of the operating system is a parameter.
use os_complete.Base.{
  String, List, [], ◌∷◌, Bool, true, false, none, some, lookup, dec_str, if◌then◌else◌, ◌&&◌,
}

-- `AllModes`.
unfoldable pub all_modes : List String
all_modes =
    "real" ∷ "real-cgroup-v2" ∷ "real-runtime" ∷ "real-api" ∷ "real-partial" ∷ "real-overlayfs"
    ∷ "real-ebpf" ∷ "real-shm-ipc" ∷ "degraded" ∷ "degraded-copy" ∷ "mock" ∷ "simulation"
    ∷ "planned" ∷ "missing" ∷ []

-- `validModes`, a map to `struct{}`.
unfoldable pub valid_modes : List (String × Unit {0})
valid_modes =
    ("real", tt)
    ∷ ("real-cgroup-v2", tt)
    ∷ ("real-runtime", tt)
    ∷ ("real-api", tt)
    ∷ ("real-partial", tt)
    ∷ ("real-overlayfs", tt)
    ∷ ("real-ebpf", tt)
    ∷ ("real-shm-ipc", tt)
    ∷ ("degraded", tt)
    ∷ ("degraded-copy", tt)
    ∷ ("mock", tt)
    ∷ ("simulation", tt)
    ∷ ("planned", tt)
    ∷ ("missing", tt)
    ∷ []

unfoldable pub is_valid_mode : String → Bool
unfolding valid_modes
is_valid_mode mode = elim (lookup dec_str mode valid_modes) [ none ↦ false | some _ ↦ true ]

-- `linux`: `runtime.GOOS` is "linux"; `found`: the controllers file can be read.
unfoldable pub cgroup_mode : Bool → Bool → String
cgroup_mode linux found = if linux && found then "real-cgroup-v2" else "degraded"

unfoldable pub competition_summary : Bool → Bool → List (String × String)
unfolding cgroup_mode
competition_summary linux found =
    ("cgroup_capsule", cgroup_mode linux found)
    ∷ ("worker_process", "real-runtime")
    ∷ ("cvm", "real-partial")
    ∷ ("ipc", "real-partial")
    ∷ ("llm", "mock")
    ∷ ("ebpf", "degraded")
    ∷ ("ipc_shm", "degraded")
    ∷ ("replay", "real-runtime")
    ∷ ("overlayfs", "degraded-copy")
    ∷ []
