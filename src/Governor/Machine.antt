-- ===== src/Governor/Machine.antt =====
-- The methods of `ResourceGovernor` (crates/resource-governor/src/lib.rs). A method on `&mut self`
-- returns the new governor; each returns `self.decision()` to its caller, `decision` of the result.
use local_search.Prelude.{
  ℕ, ◌+◌, ◌*◌, ◌/◌, ◌%◌, Bool, true, false, not, ◌&&◌, ◌||◌, Option, List, [], ◌∷◌, ltb, leb, ◌==◌,
  if◌then◌else◌, is_some_and, min, u64_max, saturating_add_u8, saturating_add_u64, saturating_sub,
}
use local_search.Governor.Types.{
  GovernorMode, SystemPressure, WorkloadState, GovernorConfig, DecisionReason, default_pressure,
}
use local_search.Governor.State.{ResourceGovernor, mode_eq, is_ac, is_battery, transition}

-- std::time::Duration: whole seconds and the nanoseconds below one second
pub record Duration : Type 0 where
  pub secs : ℕ  -- u64
  pub nanos : ℕ  -- u32, below 10^9

abbrev pub as_millis : Duration → ℕ
as_millis d = d.secs * 1000 + d.nanos / 1000000

unfoldable pub duration_millis_ceil : Duration → ℕ
duration_millis_ceil d =
    saturating_add_u64 (min (as_millis d) u64_max) (if d.nanos % 1000000 == 0 then 0 else 1)

unfoldable pub begin_interactive_request : ResourceGovernor → ResourceGovernor
begin_interactive_request g =
    let held = record g { interactive_remaining = g.config.interactive_hold_windows } in
    if g.resource_available && not g.resource_recovery_required
    then transition GovernorMode.active DecisionReason.user_active held
    else held

unfoldable pub report_search_latency : Duration → ResourceGovernor → ResourceGovernor
report_search_latency latency g =
    let held = record g { interactive_remaining = g.config.interactive_hold_windows } in
    if not g.resource_available || g.resource_recovery_required
    then held
    else transition GovernorMode.active
        (if ltb g.config.search_sla_millis (duration_millis_ceil latency)
          then DecisionReason.search_sla
          else DecisionReason.user_active)
        held

unfoldable pub is_critical : GovernorConfig → SystemPressure → Bool
is_critical config pressure =
    is_some_and pressure.available_memory_basis_points
      (λ value. leb value config.critical_memory_basis_points)

unfoldable pub is_pressured : GovernorConfig → SystemPressure → Bool
is_pressured config pressure =
    is_some_and pressure.available_memory_basis_points
      (λ value. leb value config.low_memory_basis_points)
    || is_some_and pressure.system_cpu_load_basis_points
        (λ value. leb config.high_cpu_basis_points value)
    || is_some_and pressure.disk_busy_basis_points
        (λ value. leb config.high_disk_basis_points value)

unfoldable pub wants_boost : WorkloadState → SystemPressure → Bool
wants_boost workload pressure =
    workload.user_idle && ltb 0 workload.backlog_mutations && is_ac pressure.power_source

abbrev pub desired_mode : Bool → GovernorMode
desired_mode boost = if boost then GovernorMode.idle_boost else GovernorMode.balanced

abbrev pub desired_reason : Bool → DecisionReason
desired_reason boost = if boost then DecisionReason.idle_backlog else DecisionReason.balanced

unfoldable pub count_recovery : Bool → ResourceGovernor → ResourceGovernor
count_recovery count_window g =
    if count_window
    then record g {
      recovery_streak = saturating_add_u8 g.recovery_streak 1;
      cooldown_remaining = saturating_sub g.cooldown_remaining 1;
    }
    else g

-- the end of `evaluate`, from the healthy window's count on
unfoldable pub evaluate_healthy : Bool → ResourceGovernor → ResourceGovernor
evaluate_healthy count_window g =
    let counted = count_recovery count_window g in
    let boost = wants_boost counted.workload counted.pressure in
    if mode_eq counted.mode (desired_mode boost)
    then record counted { reason = desired_reason boost }
    else if leb counted.config.recovery_windows counted.recovery_streak
        && counted.cooldown_remaining == 0
    then (let moved = transition (desired_mode boost) (desired_reason boost) counted in
        record moved { recovery_streak = 0 })
    else counted

-- `evaluate` after the pressure test: foreground work, energy saver, battery, health
unfoldable pub evaluate_workload : Bool → Bool → ResourceGovernor → ResourceGovernor
evaluate_workload pressured count_window g =
    if g.workload.user_active || ltb 0 g.interactive_remaining
    then transition GovernorMode.active DecisionReason.user_active
        (record g { recovery_streak = 0 })
    else if g.pressure.energy_saver
    then transition GovernorMode.battery DecisionReason.energy_saver g
    else if is_battery g.pressure.power_source
    then transition GovernorMode.battery DecisionReason.battery g
    else if pressured
    then g
    else evaluate_healthy count_window g

-- the streaks of a pressured window
unfoldable pub count_pressure : Bool → ResourceGovernor → ResourceGovernor
count_pressure count_window g = record g {
  pressure_streak =
      if count_window then saturating_add_u8 g.pressure_streak 1 else g.pressure_streak;
  recovery_streak = 0;
}

-- `evaluate` from the critical-memory test on
unfoldable pub evaluate_pressure : Bool → ResourceGovernor → ResourceGovernor
evaluate_pressure count_window g =
    let pressed = count_pressure count_window g in
    if is_critical g.config g.pressure
    then transition GovernorMode.pressure DecisionReason.critical_memory g
    else if is_pressured g.config g.pressure
    then (if leb g.config.pressure_windows pressed.pressure_streak
        then transition GovernorMode.pressure DecisionReason.system_pressure pressed
        else evaluate_workload true count_window pressed)
    else evaluate_workload false count_window (record g { pressure_streak = 0 })

-- the end of recovery from lost telemetry
unfoldable pub leave_recovery : ResourceGovernor → ResourceGovernor
leave_recovery g =
    transition GovernorMode.balanced DecisionReason.balanced
      (record g { resource_recovery_required = false; recovery_streak = 0 })

-- `evaluate` while recovery from lost telemetry is required
unfoldable pub evaluate_recovery : Bool → ResourceGovernor → ResourceGovernor
evaluate_recovery count_window g =
    let counted = count_recovery count_window g in
    if ltb counted.recovery_streak counted.config.recovery_windows
    then transition GovernorMode.pressure DecisionReason.resource_telemetry_unavailable counted
    else evaluate_pressure count_window (leave_recovery counted)

unfoldable pub evaluate : Bool → ResourceGovernor → ResourceGovernor
evaluate count_window g =
    if not g.resource_available
    then transition GovernorMode.pressure DecisionReason.resource_telemetry_unavailable g
    else if g.resource_recovery_required
    then evaluate_recovery count_window g
    else evaluate_pressure count_window g

-- `if self.interactive_remaining > 0 { self.interactive_remaining -= 1; }`
abbrev pub pass_window : ResourceGovernor → ResourceGovernor
pass_window g = record g { interactive_remaining = saturating_sub g.interactive_remaining 1 }

unfoldable pub report_system_pressure : SystemPressure → ResourceGovernor → ResourceGovernor
report_system_pressure pressure g =
    evaluate true (pass_window (record g { pressure = pressure; resource_available = true }))

unfoldable pub report_resource_unavailable : ResourceGovernor → ResourceGovernor
report_resource_unavailable g =
    transition GovernorMode.pressure DecisionReason.resource_telemetry_unavailable (record g {
      pressure = default_pressure;
      resource_available = false;
      resource_recovery_required = true;
      workload = record g.workload { user_idle = false };
      pressure_streak = 0;
      recovery_streak = 0;
      interactive_remaining = 0;
    })

unfoldable pub report_workload : WorkloadState → ResourceGovernor → ResourceGovernor
report_workload workload g =
    let loaded = record g { workload = workload } in
    if workload.user_active && g.resource_available && not g.resource_recovery_required
    then transition GovernorMode.active DecisionReason.user_active
        (record loaded { interactive_remaining = g.config.interactive_hold_windows })
    else loaded

-- the step back from `IdleBoost` of `report_backlog` and `report_user_idle_duration`
unfoldable pub cancel_boost : ResourceGovernor → ResourceGovernor
cancel_boost g =
    transition GovernorMode.balanced DecisionReason.balanced (record g { recovery_streak = 0 })

unfoldable pub report_backlog : ℕ → ResourceGovernor → ResourceGovernor
report_backlog backlog_mutations g =
    let loaded = record g {
      workload = record g.workload { backlog_mutations = backlog_mutations };
    } in
    if backlog_mutations == 0 && mode_eq g.mode GovernorMode.idle_boost
    then cancel_boost loaded
    else loaded

unfoldable pub set_user_idle : Option ℕ → ResourceGovernor → ResourceGovernor
set_user_idle user_idle_duration_millis g = record g {
  workload = record g.workload {
    user_idle =
        is_some_and user_idle_duration_millis (λ idle. leb g.config.idle_boost_after_millis idle);
  };
}

unfoldable pub report_user_idle_duration : Option ℕ → ResourceGovernor → ResourceGovernor
report_user_idle_duration user_idle_duration_millis g =
    let loaded = set_user_idle user_idle_duration_millis g in
    if not loaded.workload.user_idle && mode_eq g.mode GovernorMode.idle_boost
    then cancel_boost loaded
    else evaluate false loaded

unfoldable pub advance_window : ResourceGovernor → ResourceGovernor
advance_window g = evaluate true (pass_window g)

-- The calls that change a governor, and any sequence of them.
pub data Event : Type 0 where
  begin_interactive : Event
  search_latency : Duration → Event
  observed_pressure : SystemPressure → Event
  resource_unavailable : Event
  observed_workload : WorkloadState → Event
  observed_backlog : ℕ → Event
  observed_idle : Option ℕ → Event
  window : Event

unfoldable pub step : ResourceGovernor → Event → ResourceGovernor
step g begin_interactive = begin_interactive_request g
step g (search_latency latency) = report_search_latency latency g
step g (observed_pressure pressure) = report_system_pressure pressure g
step g resource_unavailable = report_resource_unavailable g
step g (observed_workload workload) = report_workload workload g
step g (observed_backlog backlog) = report_backlog backlog g
step g (observed_idle idle) = report_user_idle_duration idle g
step g window = advance_window g

unfoldable pub run : ResourceGovernor → List Event → ResourceGovernor
run g [] = g
run g (e ∷ es) = run (step g e) es
