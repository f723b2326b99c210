-- ===== src/Governor/Hold.antt =====
-- The hold after an interactive request (crates/resource-governor/src/lib.rs).
use local_search.Prelude.{ℕ, ◌+◌, ◌≤◌, ◌<◌, ◌≡◌, Bool, true, false, List, [], ◌∷◌, arith}
use local_search.Governor.Types.{GovernorMode}
use local_search.Governor.State.{ResourceGovernor, transition, decision}
use local_search.Governor.Machine.{
  Event, begin_interactive, search_latency, observed_pressure, resource_unavailable,
  observed_workload, observed_backlog, observed_idle, window, begin_interactive_request,
  report_search_latency, report_system_pressure, report_workload, report_backlog,
  report_user_idle_duration, advance_window, evaluate_workload, count_pressure, evaluate_pressure,
  cancel_boost, set_user_idle, evaluate, step, run,
}
use local_search.Governor.Windows.{weight, windows}
use local_search.Governor.Frame.{evaluate_pressure-SameInputs}
use local_search.Governor.Budget.{IsPaused, IsQuiet, IsQuiet-IsPaused}

-- No call reports that telemetry is lost.
abbrev pub KeepsTelemetry : List Event → Type 0
KeepsTelemetry [] = Unit
KeepsTelemetry (resource_unavailable ∷ es) = ⊥
KeepsTelemetry (_ ∷ es) = KeepsTelemetry es

head-KeepsTelemetry :
    (e : Event) (es : List Event) → KeepsTelemetry (e ∷ es) → KeepsTelemetry (e ∷ [])
head-KeepsTelemetry resource_unavailable es t = t
head-KeepsTelemetry _ es t = tt

tail-KeepsTelemetry : (e : Event) (es : List Event) → KeepsTelemetry (e ∷ es) → KeepsTelemetry es
tail-KeepsTelemetry resource_unavailable es t = absurd t
tail-KeepsTelemetry _ es t = t

-- Foreground work is protected for more than `k` windows yet.
record Held (k : ℕ) (g : ResourceGovernor) : Type 0 where
  available : g.resource_available ≡ true
  recovered : g.resource_recovery_required ≡ false
  quiet : IsQuiet g.mode
  ahead : k < g.interactive_remaining
  restored : g.interactive_remaining ≤ g.config.interactive_hold_windows

evaluate_workload_held :
    (p b : Bool) (g : ResourceGovernor)
    → 0 < g.interactive_remaining
    → ((evaluate_workload p b g).mode ≡ GovernorMode.active)
      × ((evaluate_workload p b g).resource_recovery_required ≡ g.resource_recovery_required)
unfolding evaluate_workload transition
evaluate_workload_held p b g h = ground arith

evaluate_pressure_held :
    (b : Bool) (g : ResourceGovernor)
    → 0 < g.interactive_remaining
    → IsQuiet (evaluate_pressure b g).mode
      × ((evaluate_pressure b g).resource_recovery_required ≡ g.resource_recovery_required)
unfolding evaluate_pressure transition count_pressure
evaluate_pressure_held b g h = ground (
  arith,
  evaluate_workload_held true b (count_pressure b g),
  evaluate_workload_held false b (record g { pressure_streak = 0 }),
)

evaluate-Held :
    (b : Bool) (k : ℕ) (g : ResourceGovernor)
    → g.resource_available ≡ true
    → g.resource_recovery_required ≡ false
    → k < g.interactive_remaining
    → g.interactive_remaining ≤ g.config.interactive_hold_windows
    → Held k (evaluate b g)
unfolding evaluate
evaluate-Held b k g a r l u =
    ground (arith, evaluate_pressure_held b g, evaluate_pressure-SameInputs b g)

step-Held :
    (k : ℕ) (g : ResourceGovernor) (e : Event)
    → Held (k + weight e) g
    → KeepsTelemetry (e ∷ [])
    → Held k (step g e)
unfolding step begin_interactive_request report_search_latency report_system_pressure
    report_workload report_backlog report_user_idle_duration advance_window transition cancel_boost
    set_user_idle
step-Held k g begin_interactive w t = ground arith
step-Held k g (search_latency d) w t = ground arith
step-Held k g (observed_pressure p) w t =
    evaluate-Held true k _ (ground arith) (ground arith) (omega arith) (omega arith)
step-Held k g resource_unavailable w t = absurd t
step-Held k g (observed_workload x) w t = ground arith
step-Held k g (observed_backlog n) w t = ground arith
step-Held k g (observed_idle i) w t = ground (arith, evaluate-Held false k (set_user_idle i g))
step-Held k g window w t =
    evaluate-Held true k _ (ground arith) (ground arith) (omega arith) (omega arith)

run-Held :
    (k : ℕ) (g : ResourceGovernor) (es : List Event)
    → KeepsTelemetry es
    → Held (k + windows es) g
    → Held k (run g es)
unfolding run
run-Held k g [] t h = ground arith
run-Held k g (e ∷ es) t h =
    run-Held k (step g e) es (tail-KeepsTelemetry e es t)
      (step-Held (k + windows es) g e (ground arith) (head-KeepsTelemetry e es t))

-- A foreground request: its start, or the report of its latency.
abbrev pub IsInteractive : Event → Type 0
IsInteractive begin_interactive = Unit
IsInteractive (search_latency d) = Unit
IsInteractive _ = ⊥

interactive-Held :
    (k : ℕ) (g : ResourceGovernor) (e : Event)
    → IsInteractive e
    → g.resource_available ≡ true
    → g.resource_recovery_required ≡ false
    → k < g.config.interactive_hold_windows
    → Held k (step g e)
unfolding step begin_interactive_request report_search_latency transition
interactive-Held k g begin_interactive i a r l = ground arith
interactive-Held k g (search_latency d) i a r l = ground arith
interactive-Held k g (observed_pressure p) i a r l = absurd i
interactive-Held k g resource_unavailable i a r l = absurd i
interactive-Held k g (observed_workload x) i a r l = absurd i
interactive-Held k g (observed_backlog n) i a r l = absurd i
interactive-Held k g (observed_idle t) i a r l = absurd i
interactive-Held k g window i a r l = absurd i

-- With trusted telemetry, a foreground request stops background work at once, and no call but a
-- loss of telemetry admits it again before the configured hold windows have passed.
pub request_holds :
    (g : ResourceGovernor) (e : Event) (es : List Event)
    → IsInteractive e
    → g.resource_available ≡ true
    → g.resource_recovery_required ≡ false
    → KeepsTelemetry es
    → windows es < g.config.interactive_hold_windows
    → IsPaused (decision (run g (e ∷ es))).budget
unfolding run
request_holds g e es i a r t l =
    IsQuiet-IsPaused (run (step g e) es)
      (run-Held 0 (step g e) es t (interactive-Held (0 + windows es) g e i a r (omega arith))).quiet
