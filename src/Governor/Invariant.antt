-- ===== src/Governor/Invariant.antt =====
-- What holds of a governor between two calls (crates/resource-governor/src/lib.rs).
use local_search.Prelude.{◌≤◌, ◌≡◌, Bool, true, false, List, [], ◌∷◌, arith, u8_max, u64_max}
use local_search.Governor.Types.{GovernorMode, GovernorConfig}
use local_search.Governor.State.{ResourceGovernor, new, transition}
use local_search.Governor.Machine.{
  Event, begin_interactive, search_latency, observed_pressure, resource_unavailable,
  observed_workload, observed_backlog, observed_idle, window, begin_interactive_request,
  report_search_latency, report_system_pressure, report_resource_unavailable, report_workload,
  report_backlog, report_user_idle_duration, advance_window, evaluate_healthy, evaluate_workload,
  evaluate_pressure, count_pressure, leave_recovery, count_recovery, cancel_boost, set_user_idle,
  evaluate_recovery, evaluate, step, run,
}

pub record Inv (g : ResourceGovernor) : Type 0 where
  pub recovery_pauses : g.resource_recovery_required ≡ true → g.mode ≡ GovernorMode.pressure
  pub unavailable_recovers : g.resource_available ≡ false → g.resource_recovery_required ≡ true
  pub cooldown_bounded : g.cooldown_remaining ≤ g.config.cooldown_windows
  pub hold_bounded : g.interactive_remaining ≤ g.config.interactive_hold_windows
  pub pressure_fits : g.pressure_streak ≤ u8_max
  pub recovery_fits : g.recovery_streak ≤ u8_max
  pub sequence_fits : g.transition_sequence ≤ u64_max

pub new-Inv : (c : GovernorConfig) → Inv (new c)
unfolding new
new-Inv c = ground arith

evaluate_healthy-Inv :
    (b : Bool) (g : ResourceGovernor)
    → g.resource_recovery_required ≡ false
    → Inv g
    → Inv (evaluate_healthy b g)
unfolding evaluate_healthy count_recovery transition
evaluate_healthy-Inv b g n h = ground arith

evaluate_workload-Inv :
    (p b : Bool) (g : ResourceGovernor)
    → g.resource_recovery_required ≡ false
    → Inv g
    → Inv (evaluate_workload p b g)
unfolding evaluate_workload transition
evaluate_workload-Inv p b g n h = ground (arith, evaluate_healthy-Inv b g)

count_pressure-Inv : (b : Bool) (g : ResourceGovernor) → Inv g → Inv (count_pressure b g)
unfolding count_pressure
count_pressure-Inv b g h = ground arith

evaluate_pressure-Inv :
    (b : Bool) (g : ResourceGovernor)
    → g.resource_recovery_required ≡ false
    → Inv g
    → Inv (evaluate_pressure b g)
unfolding evaluate_pressure transition count_pressure
evaluate_pressure-Inv b g n h = ground (
  arith,
  count_pressure-Inv b g,
  evaluate_workload-Inv true b (count_pressure b g),
  evaluate_workload-Inv false b (record g { pressure_streak = 0 }),
)

count_recovery-Inv : (b : Bool) (g : ResourceGovernor) → Inv g → Inv (count_recovery b g)
unfolding count_recovery
count_recovery-Inv b g h = ground arith

leave_recovery-Inv :
    (g : ResourceGovernor) → g.resource_available ≡ true → Inv g → Inv (leave_recovery g)
unfolding leave_recovery transition
leave_recovery-Inv g a h = ground arith

resource_recovery_required-leave_recovery :
    (g : ResourceGovernor) → (leave_recovery g).resource_recovery_required ≡ false
unfolding leave_recovery transition
resource_recovery_required-leave_recovery g = ground arith

evaluate_recovery-Inv :
    (b : Bool) (g : ResourceGovernor)
    → g.resource_available ≡ true
    → Inv g
    → Inv (evaluate_recovery b g)
unfolding evaluate_recovery count_recovery transition
evaluate_recovery-Inv b g a h = ground (
  arith,
  count_recovery-Inv b g,
  leave_recovery-Inv (count_recovery b g),
  resource_recovery_required-leave_recovery (count_recovery b g),
  evaluate_pressure-Inv b (leave_recovery (count_recovery b g)),
)

evaluate-Inv : (b : Bool) (g : ResourceGovernor) → Inv g → Inv (evaluate b g)
unfolding evaluate transition
evaluate-Inv b g h = ground (arith, evaluate_recovery-Inv b g, evaluate_pressure-Inv b g)

cancel_boost-Inv :
    (g : ResourceGovernor) → g.mode ≡ GovernorMode.idle_boost → Inv g → Inv (cancel_boost g)
unfolding cancel_boost transition
cancel_boost-Inv g m h = ground arith

pub step-Inv : (g : ResourceGovernor) (e : Event) → Inv g → Inv (step g e)
unfolding step begin_interactive_request report_search_latency report_system_pressure
    report_resource_unavailable report_workload report_backlog report_user_idle_duration
    advance_window transition cancel_boost set_user_idle
step-Inv g begin_interactive h = ground arith
step-Inv g (search_latency d) h = ground arith
step-Inv g (observed_pressure p) h = evaluate-Inv true _ (ground arith)
step-Inv g resource_unavailable h = ground arith
step-Inv g (observed_workload w) h = ground arith
step-Inv g (observed_backlog n) h = ground arith
step-Inv g (observed_idle t) h =
    ground (arith, evaluate-Inv false (set_user_idle t g), cancel_boost-Inv (set_user_idle t g))
step-Inv g window h = evaluate-Inv true _ (ground arith)

-- Whatever the calls, a governor started from any configuration satisfies the invariant.
pub run-Inv : (g : ResourceGovernor) (es : List Event) → Inv g → Inv (run g es)
unfolding run
run-Inv g [] h = h
run-Inv g (e ∷ es) h = run-Inv (step g e) es (step-Inv g e h)
