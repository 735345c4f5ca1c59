-- ===== src/Scheduler/Resources.antt =====
-- internal/scheduler/scheduler.go: resource pressure and the resource-aware score.
use os_complete.Avp.{Avp, AgentState-discrete, ready}
use os_complete.Base.{
  ℕ, String, List, Option, none, some, Bool, true, false, lookup_or, ite, dec_str, if◌then◌else◌,
  pos,
}
use os_complete.Evidence.{is_valid_mode}
use os_complete.Floats.{Floats}

module _ (fl : Floats) where
  open fl use {F, of_nat, of_int, add, sub, mul, div, round, lt}

  pub record ResourcePressure : Type 0 where
    pub memory_pressure : F
    pub pids_pressure : F
    pub cpu_throttle_pressure : F
    pub psi_pressure : F
    pub evidence_mode : String
    pub fallback_reason : String

  pub record CandidateDecision : Type 0 where
    pub agent_id : String
    pub task_id : String
    pub vruntime_score : F
    pub context_affinity_score : F
    pub memory_pressure : F
    pub pids_pressure : F
    pub cpu_throttle_pressure : F
    pub psi_pressure : F
    pub dependency_ready : Bool
    pub spawn_priority : F
    pub final_score : F

  unfoldable pub clamp : F → F → F → F
  clamp value min_value max_value =
      if lt value min_value then min_value else if lt max_value value then max_value else value

  unfoldable pub max_float : F → F → F
  max_float left right = if lt right left then left else right

  unfoldable pub round3 : F → F
  round3 value = div (round (mul value (of_nat 1000))) (of_nat 1000)

  -- A pressure: between 0 and 1, to three decimals.
  unit : F → F
  unfolding clamp round3
  unit value = round3 (clamp value (of_nat 0) (of_nat 1))

  -- The mode after the two tests of `normalizeResourcePressure`.
  valid_or_degraded : String → String
  valid_or_degraded mode =
      let mode' = ite (dec_str mode "") "degraded" mode in
      if is_valid_mode mode' then mode' else "degraded"

  unfoldable pub normalize_resource_pressure : ResourcePressure → ResourcePressure
  unfolding unit valid_or_degraded
  normalize_resource_pressure pressure = record {
    memory_pressure = unit pressure.memory_pressure;
    pids_pressure = unit pressure.pids_pressure;
    cpu_throttle_pressure = unit pressure.cpu_throttle_pressure;
    psi_pressure = unit pressure.psi_pressure;
    evidence_mode = valid_or_degraded pressure.evidence_mode;
    fallback_reason =
        ite (dec_str (valid_or_degraded pressure.evidence_mode) "degraded")
          (ite (dec_str pressure.fallback_reason "")
            "resource pressure sampler not configured or local cgroup pressure files unavailable"
            pressure.fallback_reason)
          pressure.fallback_reason;
  }

  -- A quantity as a share of `full`, between 0 and 1.
  share : F → ℕ → F
  unfolding clamp
  share quantity full = clamp (div quantity (of_nat full)) (of_nat 0) (of_nat 1)

  cpu_throttle : F → Option (List (String × ℕ)) → F
  unfolding max_float share
  cpu_throttle global none = global
  cpu_throttle global (some stat) =
      max_float (max_float global (share (of_nat (lookup_or dec_str 0 "nr_throttled" stat)) 100))
        (share (of_nat (lookup_or dec_str 0 "throttled_usec" stat)) 10_000_000)

  unfoldable pub resource_aware_score : ResourcePressure → Avp → ℕ → CandidateDecision
  unfolding normalize_resource_pressure max_float round3 share cpu_throttle
  resource_aware_score pressure candidate shared =
      let global = normalize_resource_pressure pressure in
      let memory =
        max_float global.memory_pressure
          (share (of_int (pos candidate.memory_current)) 1_073_741_824) in
      let pids = max_float global.pids_pressure (share (of_int (pos candidate.pids_current)) 64) in
      let throttle = cpu_throttle global.cpu_throttle_pressure candidate.cpu_stat in
      let vruntime = div (of_nat 1000) (add (of_nat 1) (of_nat candidate.vruntime)) in
      let context = of_int (pos shared) in
      let priority = of_int candidate.priority in
      let final =
        sub
          (sub
            (sub
              (sub (add (add vruntime (mul context (of_nat 30))) (mul priority (of_nat 5)))
                (mul memory (of_nat 180)))
              (mul pids (of_nat 160)))
            (mul throttle (of_nat 120)))
          (mul global.psi_pressure (of_nat 90)) in
      record {
        agent_id = candidate.agent_id;
        task_id = candidate.task_id;
        vruntime_score = round3 vruntime;
        context_affinity_score = round3 context;
        memory_pressure = round3 memory;
        pids_pressure = round3 pids;
        cpu_throttle_pressure = round3 throttle;
        psi_pressure = round3 global.psi_pressure;
        dependency_ready = ite (AgentState-discrete candidate.state ready) true false;
        spawn_priority = round3 priority;
        final_score = round3 final;
      }
