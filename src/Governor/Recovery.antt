-- ===== src/Governor/Recovery.antt =====
-- Recovery from lost telemetry (crates/resource-governor/src/lib.rs).
use local_search.Prelude.{
  ℕ, ◌+◌, ◌≤◌, ◌<◌, ◌≡◌, Bool, true, false, List, [], ◌∷◌, arith, u64_max, if◌then◌else◌,
}
use local_search.Governor.Types.{GovernorMode}
use local_search.Governor.State.{ResourceGovernor, transition, decision}
use local_search.Governor.Machine.{
  Event, begin_interactive, search_latency, observed_pressure, resource_unavailable,
  observed_workload, observed_backlog, observed_idle, window, begin_interactive_request,
  report_search_latency, report_system_pressure, report_resource_unavailable, report_workload,
  report_backlog, report_user_idle_duration, advance_window, is_critical, evaluate_pressure,
  leave_recovery, count_recovery, cancel_boost, set_user_idle, evaluate_recovery, evaluate, step,
  run, pass_window,
}
use local_search.Governor.Windows.{weight, windows}
use local_search.Governor.Budget.{IsPaused, IsQuiet-IsPaused}

-- Recovery is required, and at most `k` windows of it have been counted.
record Waiting (k : ℕ) (g : ResourceGovernor) : Type 0 where
  required : g.resource_recovery_required ≡ true
  quiet : g.mode ≡ GovernorMode.pressure
  counted : g.recovery_streak ≤ k

evaluate-Waiting :
    (b : Bool) (k : ℕ) (g : ResourceGovernor)
    → Waiting k g
    → k < g.config.recovery_windows
    → (b ≡ true → k + 1 < g.config.recovery_windows)
    → (Waiting (if b then k + 1 else k) (evaluate b g)) × ((evaluate b g).config ≡ g.config)
unfolding evaluate evaluate_recovery count_recovery transition
evaluate-Waiting b k g w l m = ground arith

step-Waiting :
    (k : ℕ) (g : ResourceGovernor) (e : Event)
    → Waiting k g
    → k + weight e < g.config.recovery_windows
    → Waiting (k + weight e) (step g e) × ((step g e).config ≡ g.config)
unfolding step begin_interactive_request report_search_latency report_system_pressure
    report_resource_unavailable report_workload report_backlog report_user_idle_duration
    advance_window transition cancel_boost set_user_idle
step-Waiting k g begin_interactive w l = ground arith
step-Waiting k g (search_latency d) w l = ground arith
step-Waiting k g (observed_pressure p) w l =
    evaluate-Waiting true k _ (ground arith) (omega arith) (λ _. l)
step-Waiting k g resource_unavailable w l = ground arith
step-Waiting k g (observed_workload x) w l = ground arith
step-Waiting k g (observed_backlog n) w l = ground arith
step-Waiting k g (observed_idle t) w l =
    ground (arith, evaluate-Waiting false k (set_user_idle t g))
step-Waiting k g window w l = evaluate-Waiting true k _ (ground arith) (omega arith) (λ _. l)

run-Waiting :
    (k : ℕ) (g : ResourceGovernor) (es : List Event)
    → Waiting k g
    → k + windows es < g.config.recovery_windows
    → Waiting (k + windows es) (run g es)
unfolding run
run-Waiting k g [] w l = ground arith
run-Waiting k g (e ∷ es) w l =
    ground (arith, step-Waiting k g e w, run-Waiting (k + weight e) (step g e) es)

lost-Waiting : (g : ResourceGovernor) → Waiting 0 (step g resource_unavailable)
unfolding step report_resource_unavailable transition
lost-Waiting g = ground arith

config-lost : (g : ResourceGovernor) → (step g resource_unavailable).config ≡ g.config
unfolding step report_resource_unavailable transition
config-lost g = ground arith

-- Once telemetry is lost, background work stays paused through all calls, also through valid
-- observations and user requests, that count fewer windows than the configured recovery windows.
pub recovery_needs_windows :
    (g : ResourceGovernor) (es : List Event)
    → windows es < g.config.recovery_windows
    → IsPaused (decision (run g (resource_unavailable ∷ es))).budget
unfolding run
recovery_needs_windows g es l =
    IsQuiet-IsPaused (run (step g resource_unavailable) es) (
      ground
        (arith, config-lost g, run-Waiting 0 (step g resource_unavailable) es (lost-Waiting g)))

leave_recovery_sequence :
    (g : ResourceGovernor)
    → g.mode ≡ GovernorMode.pressure
    → g.transition_sequence < u64_max
    → ((leave_recovery g).transition_sequence ≡ g.transition_sequence + 1)
      × ((leave_recovery g).mode ≡ GovernorMode.balanced)
      × ((leave_recovery g).config ≡ g.config)
      × ((leave_recovery g).pressure ≡ g.pressure)
unfolding leave_recovery transition
leave_recovery_sequence g m s = ground arith

evaluate_critical_sequence :
    (b : Bool) (g : ResourceGovernor)
    → is_critical g.config g.pressure ≡ true
    → g.mode ≡ GovernorMode.balanced
    → g.transition_sequence < u64_max
    → ((evaluate_pressure b g).transition_sequence ≡ g.transition_sequence + 1)
      × ((evaluate_pressure b g).mode ≡ GovernorMode.pressure)
unfolding evaluate_pressure transition
evaluate_critical_sequence b g c m s = ground arith

-- The window that completes recovery under critically low memory leaves pressure mode and enters it
-- again: the caller sees the same mode before and after, and a sequence that has grown by two.
pub recovery_counts_twice :
    (g : ResourceGovernor)
    → g.resource_available ≡ true
    → g.resource_recovery_required ≡ true
    → g.mode ≡ GovernorMode.pressure
    → is_critical g.config g.pressure ≡ true
    → g.config.recovery_windows ≤ g.recovery_streak + 1
    → g.recovery_streak < 255
    → g.transition_sequence + 1 < u64_max
    → ((step g window).mode ≡ g.mode)
      × ((step g window).transition_sequence ≡ g.transition_sequence + 2)
unfolding step advance_window evaluate evaluate_recovery count_recovery
recovery_counts_twice g a r m c w f s =
    let counted = count_recovery true (pass_window g) in
    ground (
      arith,
      leave_recovery_sequence counted,
      evaluate_critical_sequence true (leave_recovery counted),
    )
