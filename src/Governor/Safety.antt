-- ===== src/Governor/Safety.antt =====
-- When the governor stops background work, and when it boosts it
-- (crates/resource-governor/src/lib.rs).
use local_search.Prelude.{◌≡◌, ◌⊎◌, inr, Bool, true, false, ◌||◌, List, arith, is_some_and, leb}
use local_search.Governor.Types.{GovernorMode, GovernorConfig, SystemPressure}
use local_search.Governor.State.{ResourceGovernor, new, transition, decision, is_battery}
use local_search.Governor.Machine.{
  Event, observed_pressure, report_system_pressure, is_critical, evaluate_workload,
  evaluate_pressure, count_pressure, leave_recovery, count_recovery, evaluate_recovery, evaluate,
  step, run,
}
use local_search.Governor.Invariant.{new-Inv, run-Inv}
use local_search.Governor.Budget.{IsPaused, IsQuiet-IsPaused}

-- After any calls on a new governor, as long as telemetry is lost or its recovery is not complete,
-- no background work is admitted.
pub recovery_IsPaused :
    (c : GovernorConfig) (es : List Event)
    → ((run (new c) es).resource_available ≡ false)
      ⊎ ((run (new c) es).resource_recovery_required ≡ true)
    → IsPaused (decision (run (new c) es)).budget
recovery_IsPaused c es h =
    IsQuiet-IsPaused (run (new c) es) (ground (arith, run-Inv (new c) es (new-Inv c)))

evaluate_pressure_critical :
    (b : Bool) (g : ResourceGovernor)
    → is_critical g.config g.pressure ≡ true
    → (evaluate_pressure b g).mode ≡ GovernorMode.pressure
unfolding evaluate_pressure transition
evaluate_pressure_critical b g h = ground arith

evaluate_critical :
    (b : Bool) (g : ResourceGovernor)
    → is_critical g.config g.pressure ≡ true
    → (evaluate b g).mode ≡ GovernorMode.pressure
unfolding evaluate evaluate_recovery transition leave_recovery count_recovery
evaluate_critical b g h = ground (
  arith,
  evaluate_pressure_critical b g,
  evaluate_pressure_critical b (leave_recovery (count_recovery b g)),
)

-- One observation of critically low memory pauses background work, in every state of the governor.
pub critical_memory_IsPaused :
    (g : ResourceGovernor) (p : SystemPressure)
    → is_some_and p.available_memory_basis_points
        (λ value. leb value g.config.critical_memory_basis_points)
      ≡ true
    → IsPaused (decision (step g (observed_pressure p))).budget
unfolding step report_system_pressure is_critical
critical_memory_IsPaused g p h =
    IsQuiet-IsPaused (step g (observed_pressure p)) (inr (evaluate_critical true _ h))

-- The modes that a governor on battery or in energy saver may be in.
abbrev pub IsReduced : GovernorMode → Type 0
IsReduced m = (m ≡ GovernorMode.active) ⊎ (m ≡ GovernorMode.pressure) ⊎ (m ≡ GovernorMode.battery)

abbrev pub saves_power : ResourceGovernor → Bool
saves_power g = g.pressure.energy_saver || is_battery g.pressure.power_source

evaluate_workload_saving :
    (p b : Bool) (g : ResourceGovernor)
    → saves_power g ≡ true
    → IsReduced (evaluate_workload p b g).mode
unfolding evaluate_workload transition
evaluate_workload_saving p b g h = ground arith

evaluate_pressure_saving :
    (b : Bool) (g : ResourceGovernor)
    → saves_power g ≡ true
    → IsReduced (evaluate_pressure b g).mode
unfolding evaluate_pressure transition count_pressure
evaluate_pressure_saving b g h = ground (
  arith,
  evaluate_workload_saving true b (count_pressure b g),
  evaluate_workload_saving false b (record g { pressure_streak = 0 }),
)

evaluate_saving :
    (b : Bool) (g : ResourceGovernor) → saves_power g ≡ true → IsReduced (evaluate b g).mode
unfolding evaluate evaluate_recovery transition leave_recovery count_recovery
evaluate_saving b g h = ground (
  arith,
  evaluate_pressure_saving b g,
  evaluate_pressure_saving b (leave_recovery (count_recovery b g)),
)

-- One observation of battery power or of the energy saver ends normal and boosted work: the mode is
-- then active, pressure or battery, in whatever state the governor was.
pub saving_IsReduced :
    (g : ResourceGovernor) (p : SystemPressure)
    → (p.energy_saver || is_battery p.power_source) ≡ true
    → IsReduced (step g (observed_pressure p)).mode
unfolding step report_system_pressure
saving_IsReduced g p h = evaluate_saving true _ h
