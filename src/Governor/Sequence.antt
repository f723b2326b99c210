-- ===== src/Governor/Sequence.antt =====
-- The transition counter (crates/resource-governor/src/lib.rs).
use local_search.Prelude.{
  ℕ, ◌+◌, ◌≤◌, ◌<◌, ◌≡◌, Bool, true, false, List, [], ◌∷◌, arith, u64_max, length, ◌*◌,
}
use local_search.Governor.State.{ResourceGovernor, transition, decision}
use local_search.Governor.Machine.{
  Event, begin_interactive, search_latency, observed_pressure, resource_unavailable,
  observed_workload, observed_backlog, observed_idle, window, begin_interactive_request,
  report_search_latency, report_system_pressure, report_resource_unavailable, report_workload,
  report_backlog, report_user_idle_duration, advance_window, evaluate_healthy, evaluate_workload,
  count_pressure, evaluate_pressure, leave_recovery, count_recovery, cancel_boost, set_user_idle,
  evaluate_recovery, evaluate, step, run, pass_window,
}

-- From `g` to `h` the counter grows by at most `n`; where it stands still below its ceiling, the
-- mode stands still.
record Counts (n : ℕ) (g h : ResourceGovernor) : Type 0 where
  grows : g.transition_sequence ≤ h.transition_sequence
  bounded : h.transition_sequence ≤ g.transition_sequence + n
  tells :
      g.transition_sequence ≡ h.transition_sequence
      → g.transition_sequence < u64_max
      → g.mode ≡ h.mode
  capped : h.transition_sequence ≤ u64_max

abbrev Fits : ResourceGovernor → Type 0
Fits g = g.transition_sequence ≤ u64_max

evaluate_healthy-Counts :
    (b : Bool) (g : ResourceGovernor) → Fits g → Counts 1 g (evaluate_healthy b g)
unfolding evaluate_healthy transition count_recovery
evaluate_healthy-Counts b g f = ground arith

evaluate_workload-Counts :
    (p b : Bool) (g : ResourceGovernor) → Fits g → Counts 1 g (evaluate_workload p b g)
unfolding evaluate_workload transition
evaluate_workload-Counts p b g f = ground (arith, evaluate_healthy-Counts b g)

evaluate_pressure-Counts :
    (b : Bool) (g : ResourceGovernor) → Fits g → Counts 1 g (evaluate_pressure b g)
unfolding evaluate_pressure transition count_pressure
evaluate_pressure-Counts b g f = ground (
  arith,
  evaluate_workload-Counts true b (count_pressure b g),
  evaluate_workload-Counts false b (record g { pressure_streak = 0 }),
)

leave_recovery-Counts : (g : ResourceGovernor) → Fits g → Counts 1 g (leave_recovery g)
unfolding leave_recovery transition
leave_recovery-Counts g f = ground arith

evaluate-Counts : (b : Bool) (g : ResourceGovernor) → Fits g → Counts 2 g (evaluate b g)
unfolding evaluate evaluate_recovery transition count_recovery
evaluate-Counts b g f = ground (
  arith,
  evaluate_pressure-Counts b g,
  leave_recovery-Counts (count_recovery b g),
  evaluate_pressure-Counts b (leave_recovery (count_recovery b g)),
)

step-Counts : (g : ResourceGovernor) (e : Event) → Fits g → Counts 2 g (step g e)
unfolding step begin_interactive_request report_search_latency report_system_pressure
    report_resource_unavailable report_workload report_backlog report_user_idle_duration
    advance_window transition cancel_boost set_user_idle
step-Counts g begin_interactive f = ground arith
step-Counts g (search_latency d) f = ground arith
step-Counts g (observed_pressure p) f = ground (
  arith,
  evaluate-Counts true (pass_window (record g { pressure = p; resource_available = true })),
)
step-Counts g resource_unavailable f = ground arith
step-Counts g (observed_workload w) f = ground arith
step-Counts g (observed_backlog k) f = ground arith
step-Counts g (observed_idle t) f = ground (arith, evaluate-Counts false (set_user_idle t g))
step-Counts g window f = ground (arith, evaluate-Counts true (pass_window g))

run-Counts :
    (g : ResourceGovernor) (es : List Event) → Fits g → Counts (length es + length es) g (run g es)
unfolding run
run-Counts g [] f = ground arith
run-Counts g (e ∷ es) f = ground (arith, step-Counts g e, run-Counts (step g e) es)

-- Over any calls the reported transition sequence never falls, and grows by at most two for each
-- call.
pub sequence_bounds :
    (g : ResourceGovernor) (es : List Event)
    → g.transition_sequence ≤ u64_max
    → ((decision g).transition_sequence ≤ (decision (run g es)).transition_sequence)
      × ((decision (run g es)).transition_sequence
          ≤ (decision g).transition_sequence + 2 * length es)
unfolding decision
sequence_bounds g es f = ground (arith, run-Counts g es f)

-- Two decisions of one governor that report the same sequence, below its ceiling, report the same
-- mode, whatever was called in between.
pub sequence_tells_mode :
    (g : ResourceGovernor) (es : List Event)
    → g.transition_sequence < u64_max
    → (decision g).transition_sequence ≡ (decision (run g es)).transition_sequence
    → (decision g).mode ≡ (decision (run g es)).mode
unfolding decision
sequence_tells_mode g es f e = ground (arith, run-Counts g es)
