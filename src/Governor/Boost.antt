-- ===== src/Governor/Boost.antt =====
-- The conditions under which the governor enters idle boost
-- (crates/resource-governor/src/lib.rs).
use local_search.Prelude.{◌<◌, ◌≡◌, ◌≢◌, Bool, true, false, arith}
use local_search.Governor.Types.{GovernorMode, PowerSource}
use local_search.Governor.State.{ResourceGovernor, transition}
use local_search.Governor.Machine.{
  Event, begin_interactive, search_latency, observed_pressure, resource_unavailable,
  observed_workload, observed_backlog, observed_idle, window, begin_interactive_request,
  report_search_latency, report_system_pressure, report_resource_unavailable, report_workload,
  report_backlog, report_user_idle_duration, advance_window, wants_boost, is_critical, is_pressured,
  evaluate_healthy, evaluate_workload, evaluate_pressure, count_pressure, leave_recovery,
  count_recovery, cancel_boost, set_user_idle, evaluate_recovery, evaluate, step,
}
use local_search.Governor.Frame.{SameInputs, evaluate_pressure-SameInputs}

-- What holds of a governor that has just entered idle boost.
pub record BoostAllowed (g : ResourceGovernor) : Type 0 where
  pub available : g.resource_available ≡ true
  pub recovered : g.resource_recovery_required ≡ false
  pub idle : g.workload.user_idle ≡ true
  pub inactive : g.workload.user_active ≡ false
  pub backlog : 0 < g.workload.backlog_mutations
  pub external_power : g.pressure.power_source ≡ PowerSource.ac
  pub no_saver : g.pressure.energy_saver ≡ false
  pub released : g.interactive_remaining ≡ 0
  pub calm : is_pressured g.config g.pressure ≡ false
  pub uncritical : is_critical g.config g.pressure ≡ false
  pub cooling : g.cooldown_remaining ≡ g.config.cooldown_windows

-- The stages of `evaluate`, each with the tests that it has passed when the boost begins.
record HealthyEntry (g h : ResourceGovernor) : Type 0 where
  wanted : wants_boost g.workload g.pressure ≡ true
  recovery : h.resource_recovery_required ≡ g.resource_recovery_required
  cooling : h.cooldown_remaining ≡ g.config.cooldown_windows

record WorkloadEntry (g h : ResourceGovernor) : Type 0 where
  healthy : HealthyEntry g h
  inactive : g.workload.user_active ≡ false
  released : g.interactive_remaining ≡ 0
  no_saver : g.pressure.energy_saver ≡ false

record PressureEntry (g h : ResourceGovernor) : Type 0 where
  workload : WorkloadEntry g h
  calm : is_pressured g.config g.pressure ≡ false
  uncritical : is_critical g.config g.pressure ≡ false

abbrev Boosted : ResourceGovernor → Type 0
Boosted g = g.mode ≡ GovernorMode.idle_boost

evaluate_healthy_entry :
    (b : Bool) (g : ResourceGovernor)
    → ¬ Boosted g
    → Boosted (evaluate_healthy b g)
    → HealthyEntry g (evaluate_healthy b g)
unfolding evaluate_healthy transition count_recovery
evaluate_healthy_entry b g n m = ground arith

evaluate_workload_entry :
    (p b : Bool) (g : ResourceGovernor)
    → ¬ Boosted g
    → Boosted (evaluate_workload p b g)
    → WorkloadEntry g (evaluate_workload p b g) × (p ≡ false)
unfolding evaluate_workload transition
evaluate_workload_entry p b g n m = ground (arith, evaluate_healthy_entry b g n)

evaluate_pressure_entry :
    (b : Bool) (g : ResourceGovernor)
    → ¬ Boosted g
    → Boosted (evaluate_pressure b g)
    → PressureEntry g (evaluate_pressure b g)
unfolding evaluate_pressure transition count_pressure
evaluate_pressure_entry b g n m = ground (
  arith,
  evaluate_workload_entry true b (count_pressure b g) n,
  evaluate_workload_entry false b (record g { pressure_streak = 0 }) n,
)

-- Leaving recovery passes through balanced mode, so that a boost is entered after it, too.
leave_recovery_lem :
    (g : ResourceGovernor)
    → ((leave_recovery g).mode ≡ GovernorMode.balanced)
      × ((leave_recovery g).resource_recovery_required ≡ false)
unfolding leave_recovery transition
leave_recovery_lem g = ground arith

available-leave_recovery :
    (b : Bool) (g : ResourceGovernor)
    → (leave_recovery (count_recovery b g)).resource_available ≡ g.resource_available
unfolding leave_recovery count_recovery transition
available-leave_recovery b g = ground arith

allowed_of_entry :
    (g h : ResourceGovernor)
    → g.resource_available ≡ true
    → g.resource_recovery_required ≡ false
    → SameInputs g h
    → PressureEntry g h
    → BoostAllowed h
unfolding wants_boost
allowed_of_entry g h a r s e = ground arith

evaluate_pressure_boost :
    (b : Bool) (g : ResourceGovernor)
    → g.resource_available ≡ true
    → g.resource_recovery_required ≡ false
    → ¬ Boosted g
    → Boosted (evaluate_pressure b g)
    → BoostAllowed (evaluate_pressure b g)
evaluate_pressure_boost b g a r n m =
    allowed_of_entry g (evaluate_pressure b g) a r (evaluate_pressure-SameInputs b g)
      (evaluate_pressure_entry b g n m)

evaluate_boost :
    (b : Bool) (g : ResourceGovernor)
    → ¬ Boosted g
    → Boosted (evaluate b g)
    → BoostAllowed (evaluate b g)
unfolding evaluate evaluate_recovery transition
evaluate_boost b g n m =
    let counted = count_recovery b g in
    ground (
      arith,
      available-leave_recovery b g,
      leave_recovery_lem counted,
      evaluate_pressure_boost b g,
      evaluate_pressure_boost b (leave_recovery counted),
    )

-- A call that takes the governor into idle boost leaves it with trusted telemetry, an idle user and
-- no foreground work, a backlog, external power without energy saver, no critical and no sustained
-- pressure, and a full cooldown ahead.
pub step_boost :
    (g : ResourceGovernor) (e : Event)
    → g.mode ≢ GovernorMode.idle_boost
    → (step g e).mode ≡ GovernorMode.idle_boost
    → BoostAllowed (step g e)
unfolding step begin_interactive_request report_search_latency report_system_pressure
    report_resource_unavailable report_workload report_backlog report_user_idle_duration
    advance_window transition cancel_boost set_user_idle
step_boost g begin_interactive n m = ground arith
step_boost g (search_latency d) n m = ground arith
step_boost g (observed_pressure p) n m = evaluate_boost true _ n m
step_boost g resource_unavailable n m = ground arith
step_boost g (observed_workload w) n m = ground arith
step_boost g (observed_backlog k) n m = ground arith
step_boost g (observed_idle t) n m = ground (arith, evaluate_boost false (set_user_idle t g))
step_boost g window n m = evaluate_boost true _ n m
