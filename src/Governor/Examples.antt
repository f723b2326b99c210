-- ===== src/Governor/Examples.antt =====
-- The governor's theorems at concrete inputs, and runs of the source's own tests.
use local_search.Prelude.{
  ℕ, ◌+◌, ◌≤◌, ◌≡◌, ◌⊎◌, refl, inl, true, false, List, [], ◌∷◌, some, none, arith, replicate,
}
use local_search.Governor.Types.{GovernorMode, PowerSource, SystemPressure, default_config}
use local_search.Governor.State.{ResourceGovernor, budget, new, transition, decision}
use local_search.Governor.Machine.{
  Event, begin_interactive, observed_pressure, resource_unavailable, observed_backlog,
  observed_idle, window, begin_interactive_request, report_system_pressure,
  report_resource_unavailable, report_backlog, report_user_idle_duration, advance_window,
  wants_boost, is_critical, is_pressured, evaluate_healthy, evaluate_workload, evaluate_pressure,
  count_pressure, leave_recovery, count_recovery, set_user_idle, evaluate_recovery, evaluate, step,
  run,
}
use local_search.Governor.Budget.{IsPaused, IsAdmitted, IsWithin, MustPause, budget_all_or_nothing}
use local_search.Governor.Recovery.{recovery_needs_windows, recovery_counts_twice}
use local_search.Governor.Hold.{request_holds}
use local_search.Governor.Boost.{BoostAllowed, step_boost}
use local_search.Governor.Settle.{settles, target}
use local_search.Governor.Safety.{
  recovery_IsPaused, critical_memory_IsPaused, saving_IsReduced, IsReduced,
}
use local_search.Governor.Sequence.{sequence_bounds, sequence_tells_mode}

abbrev start : ResourceGovernor
start = new default_config

-- `pressure(memory, cpu, disk)` of the source's tests
abbrev sample : ℕ → ℕ → ℕ → SystemPressure
sample memory cpu disk = record {
  available_memory_basis_points = some memory;
  system_cpu_load_basis_points = some cpu;
  disk_busy_basis_points = some disk;
  power_source = PowerSource.ac;
  battery_percent = none;
  energy_saver = false;
}

abbrev healthy : Event
healthy = observed_pressure (sample 5000 1000 1000)

recovery_needs_windows_example :
    IsPaused (decision (run start (resource_unavailable ∷ replicate 4 healthy))).budget
unfolding new
recovery_needs_windows_example = recovery_needs_windows start (replicate 4 healthy) (omega arith)

recovery_ends :
    (run start (resource_unavailable ∷ replicate 5 healthy)).mode ≡ GovernorMode.balanced
unfolding run step new report_resource_unavailable report_system_pressure evaluate evaluate_recovery
    evaluate_pressure evaluate_workload evaluate_healthy leave_recovery count_recovery
    count_pressure transition is_critical is_pressured wants_boost
recovery_ends = refl

request_holds_example :
    IsPaused (decision (run start (begin_interactive ∷ window ∷ healthy ∷ []))).budget
unfolding new
request_holds_example =
    request_holds start begin_interactive (window ∷ healthy ∷ []) tt refl refl tt (omega arith)

-- An idle user on external power, with a backlog, after six healthy windows.
abbrev idle_backlog : List Event
idle_backlog = observed_backlog 40 ∷ observed_idle (some 400000) ∷ replicate 4 healthy

abbrev ready : ResourceGovernor
ready = run start idle_backlog

step_boost_example : BoostAllowed (step ready healthy)
unfolding run step new report_backlog report_user_idle_duration set_user_idle report_system_pressure
    evaluate evaluate_pressure evaluate_workload evaluate_healthy count_recovery transition
    is_critical is_pressured wants_boost
step_boost_example = step_boost ready healthy (λ e. cc) refl

-- The same user and backlog after telemetry was lost and has come back.
abbrev back : List Event
back = resource_unavailable ∷ healthy ∷ observed_backlog 40 ∷ observed_idle (some 400000) ∷ []

settles_example : (run (run start back) (replicate 20 window)).mode ≡ target (run start back)
unfolding run step new report_backlog report_user_idle_duration set_user_idle report_system_pressure
    report_resource_unavailable evaluate evaluate_recovery leave_recovery evaluate_pressure
    evaluate_workload evaluate_healthy count_recovery transition is_critical is_pressured
    wants_boost
settles_example =
    settles default_config back 20
      (record {
        available = refl;
        uncritical = refl;
        calm = refl;
        inactive = refl;
        no_saver = refl;
        no_battery = refl;
      })
      (omega arith) (omega arith)

recovery_IsPaused_example :
    IsPaused
      (decision (run (new default_config) (resource_unavailable ∷ begin_interactive ∷ []))).budget
unfolding run step new report_resource_unavailable begin_interactive_request transition
recovery_IsPaused_example =
    recovery_IsPaused default_config (resource_unavailable ∷ begin_interactive ∷ []) (inl refl)

critical_memory_IsPaused_example :
    IsPaused (decision (step start (observed_pressure (sample 400 1000 1000)))).budget
unfolding new
critical_memory_IsPaused_example = critical_memory_IsPaused start (sample 400 1000 1000) refl

abbrev on_battery : SystemPressure
on_battery = record {
  available_memory_basis_points = none;
  system_cpu_load_basis_points = none;
  disk_busy_basis_points = none;
  power_source = PowerSource.battery;
  battery_percent = some 80;
  energy_saver = false;
}

saving_IsReduced_example : IsReduced (step ready (observed_pressure on_battery)).mode
saving_IsReduced_example = saving_IsReduced ready on_battery refl

sequence_bounds_example :
    ((decision start).transition_sequence
      ≤ (decision (run start (resource_unavailable ∷ healthy ∷ []))).transition_sequence)
    × ((decision (run start (resource_unavailable ∷ healthy ∷ []))).transition_sequence
        ≤ (decision start).transition_sequence + 4)
unfolding new
sequence_bounds_example = sequence_bounds start (resource_unavailable ∷ healthy ∷ []) (omega arith)

sequence_tells_mode_example :
    (decision start).mode ≡ (decision (run start (healthy ∷ window ∷ []))).mode
unfolding run step new report_system_pressure advance_window decision evaluate evaluate_pressure
    evaluate_workload evaluate_healthy count_recovery transition is_critical is_pressured
    wants_boost
sequence_tells_mode_example = sequence_tells_mode start (healthy ∷ window ∷ []) (omega arith) refl

abbrev starved : ResourceGovernor
starved = run start (resource_unavailable ∷ replicate 4 (observed_pressure (sample 400 1000 1000)))

recovery_counts_twice_example :
    ((step starved window).mode ≡ starved.mode)
    × ((step starved window).transition_sequence ≡ starved.transition_sequence + 2)
unfolding run step new report_resource_unavailable report_system_pressure evaluate evaluate_recovery
    count_recovery transition is_critical
recovery_counts_twice_example =
    recovery_counts_twice starved refl refl refl refl (omega arith) (omega arith) (omega arith)

budget_all_or_nothing_example :
    let b = (decision start).budget in
    ((MustPause start.mode start.pressure.energy_saver × IsPaused b)
      ⊎ ((¬ (MustPause start.mode start.pressure.energy_saver)) × IsAdmitted b))
    × IsWithin b (budget GovernorMode.idle_boost start.pressure.energy_saver)
    × IsWithin (budget start.mode true) (budget start.mode false)
budget_all_or_nothing_example = budget_all_or_nothing start
