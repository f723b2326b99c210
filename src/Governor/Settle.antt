-- ===== src/Governor/Settle.antt =====
-- Under steady healthy conditions the governor reaches the mode that they call for
-- (crates/resource-governor/src/lib.rs).
use local_search.Prelude.{
  ℕ, zero, suc, ◌+◌, ◌-◌, ◌≤◌, ◌<◌, ◌≡◌, ◌⊎◌, inr, true, false, List, arith, max, u8_max, replicate,
  if◌then◌else◌, ◌∙◌, Bool-cases, inl,
}
use native.Mathlib.Decide.{dec_le}
use local_search.Governor.Types.{GovernorMode, GovernorConfig}
use local_search.Governor.State.{ResourceGovernor, new, transition, is_battery}
use local_search.Governor.Machine.{
  Event, window, advance_window, evaluate_healthy, evaluate_workload, evaluate_pressure, evaluate,
  step, run, is_critical, is_pressured, wants_boost, desired_mode, count_recovery, leave_recovery,
  evaluate_recovery, pass_window,
}
use local_search.Governor.Invariant.{Inv, new-Inv, step-Inv, run-Inv}

-- Telemetry is there, with no foreground user, no memory, CPU or disk pressure, and no power saving.
pub record IsCalm (g : ResourceGovernor) : Type 0 where
  pub available : g.resource_available ≡ true
  pub uncritical : is_critical g.config g.pressure ≡ false
  pub calm : is_pressured g.config g.pressure ≡ false
  pub inactive : g.workload.user_active ≡ false
  pub no_saver : g.pressure.energy_saver ≡ false
  pub no_battery : is_battery g.pressure.power_source ≡ false

-- The telemetry is trusted too.
record IsHealthy (g : ResourceGovernor) : Type 0 where
  available : g.resource_available ≡ true
  recovered : g.resource_recovery_required ≡ false
  uncritical : is_critical g.config g.pressure ≡ false
  calm : is_pressured g.config g.pressure ≡ false
  inactive : g.workload.user_active ≡ false
  no_saver : g.pressure.energy_saver ≡ false
  no_battery : is_battery g.pressure.power_source ≡ false

-- The mode that the observations call for.
abbrev pub target : ResourceGovernor → GovernorMode
target g = desired_mode (wants_boost g.workload g.pressure)

-- The windows that the hysteresis and the cooldown still ask for.
abbrev remaining : ResourceGovernor → ℕ
remaining g = max (g.config.recovery_windows - g.recovery_streak) g.cooldown_remaining

record Kept (g h : ResourceGovernor) : Type 0 where
  healthy : IsHealthy h
  target : target h ≡ target g
  recovery : h.config.recovery_windows ≡ g.config.recovery_windows
  cooldown : h.config.cooldown_windows ≡ g.config.cooldown_windows

evaluate_healthy_step :
    (g : ResourceGovernor)
    → IsHealthy g
    → g.config.recovery_windows ≤ u8_max
    → Kept g (evaluate_healthy true g)
      × ((evaluate_healthy true g).interactive_remaining ≡ g.interactive_remaining)
      × (((evaluate_healthy true g).mode ≡ target g)
          ⊎ ((remaining (evaluate_healthy true g) < remaining g)
              × (0 < remaining (evaluate_healthy true g))))
unfolding evaluate_healthy transition count_recovery
evaluate_healthy_step g h f = ground arith

evaluate_healthy_stays :
    (g : ResourceGovernor) → g.mode ≡ target g → (evaluate_healthy true g).mode ≡ target g
unfolding evaluate_healthy transition count_recovery
evaluate_healthy_stays g m = ground arith

abbrev released : ResourceGovernor → ResourceGovernor
released g = record g { interactive_remaining = 0; pressure_streak = 0 }

window_released :
    (g : ResourceGovernor)
    → IsHealthy g
    → g.interactive_remaining ≤ 1
    → step g window ≡ evaluate_healthy true (released g)
unfolding step advance_window evaluate evaluate_pressure evaluate_workload
window_released g h i = ground arith

window_holding :
    (g : ResourceGovernor)
    → IsHealthy g
    → 1 < g.interactive_remaining
    → Kept g (step g window) × ((step g window).interactive_remaining ≡ g.interactive_remaining - 1)
unfolding step advance_window evaluate evaluate_pressure evaluate_workload transition
window_holding g h i = ground arith

-- Once the hold is over, `n` windows suffice where at most `n` are asked for.
settle_released :
    (n : ℕ) (g : ResourceGovernor)
    → IsHealthy g
    → g.config.recovery_windows ≤ u8_max
    → g.interactive_remaining ≤ 1
    → (g.mode ≡ target g) ⊎ ((remaining g ≤ n) × (1 ≤ n))
    → (run g (replicate n window)).mode ≡ target g
unfolding run
settle_released zero g h f i m = ground arith
settle_released (suc n) g h f i m = ground (
  arith,
  window_released g h i,
  evaluate_healthy_step (released g),
  evaluate_healthy_stays (released g),
  settle_released n (step g window),
)

settle_holding :
    (n : ℕ) (g : ResourceGovernor)
    → IsHealthy g
    → Inv g
    → g.config.recovery_windows ≤ u8_max
    → g.interactive_remaining + max (max g.config.recovery_windows g.config.cooldown_windows) 1 ≤ n
    → (run g (replicate n window)).mode ≡ target g
unfolding run
settle_holding zero g h v f l = absurd (omega arith)
settle_holding (suc n) g h v f l = elim (dec_le g.interactive_remaining 1) [
  | yes i ↦ settle_released (suc n) g h f i (inr (omega arith, omega arith))
  | no i ↦
      let (kept, less) = window_holding g h (omega arith) in
      ground (arith, settle_holding n (step g window), step-Inv g window v)
]

-- The windows in which lost telemetry is trusted again.
abbrev pub recovering : ResourceGovernor → ℕ
recovering g = if g.resource_recovery_required then max g.config.recovery_windows 1 else 0

-- A window keeps the observations and the settings, and prolongs no hold.
record Keeps (g h : ResourceGovernor) : Type 0 where
  calm : IsCalm h
  target : target h ≡ target g
  recovery : h.config.recovery_windows ≡ g.config.recovery_windows
  cooldown : h.config.cooldown_windows ≡ g.config.cooldown_windows
  hold : h.interactive_remaining ≤ g.interactive_remaining

evaluate_pressure-Keeps :
    (g : ResourceGovernor)
    → IsCalm g
    → Keeps g (evaluate_pressure true g)
      × ((evaluate_pressure true g).resource_recovery_required ≡ g.resource_recovery_required)
unfolding evaluate_pressure evaluate_workload evaluate_healthy transition count_recovery
evaluate_pressure-Keeps g h = ground arith

abbrev passed : ResourceGovernor → ResourceGovernor
passed g = count_recovery true (pass_window g)

window_recovering :
    (g : ResourceGovernor)
    → IsCalm g
    → g.resource_recovery_required ≡ true
    → g.config.recovery_windows ≤ u8_max
    → Keeps g (step g window)
      × (((step g window).resource_recovery_required ≡ false)
          ⊎ (((step g window).resource_recovery_required ≡ true)
              × ((step g window).recovery_streak ≡ g.recovery_streak + 1)
              × ((step g window).recovery_streak < g.config.recovery_windows)))
unfolding step advance_window evaluate evaluate_recovery leave_recovery count_recovery transition
window_recovering g h r f = ground (arith, evaluate_pressure-Keeps (leave_recovery (passed g)))

calm-IsHealthy :
    (g : ResourceGovernor) → IsCalm g → g.resource_recovery_required ≡ false → IsHealthy g
calm-IsHealthy g h r = record {
  available = h.available;
  recovered = r;
  uncritical = h.uncritical;
  calm = h.calm;
  inactive = h.inactive;
  no_saver = h.no_saver;
  no_battery = h.no_battery;
}

settle_recovering :
    (n : ℕ) (g : ResourceGovernor)
    → IsCalm g
    → Inv g
    → g.resource_recovery_required ≡ true
    → g.config.recovery_windows ≤ u8_max
    → max (g.config.recovery_windows - g.recovery_streak) 1
        + (g.interactive_remaining
            + max (max g.config.recovery_windows g.config.cooldown_windows) 1)
      ≤ n
    → (run g (replicate n window)).mode ≡ target g
unfolding run
settle_recovering zero g h v r f l = absurd (omega arith)
settle_recovering (suc n) g h v r f l =
    let (kept, next) = window_recovering g h r f in
    let fits : (step g window).config.recovery_windows ≤ u8_max = omega (arith, kept.recovery, f) in
    elim next [
      | inl trusted ↦
          settle_holding n (step g window) (calm-IsHealthy (step g window) kept.calm trusted)
            (step-Inv g window v) fits (omega (arith, kept.recovery, kept.cooldown, kept.hold))
          ∙ kept.target
      | inr (still, counted, less) ↦
          settle_recovering n (step g window) kept.calm (step-Inv g window v) still fits
            (omega (arith, kept.recovery, kept.cooldown, kept.hold, counted, less))
          ∙ kept.target
    ]

-- After any calls on a new governor, let its telemetry be available and show no critical memory, no
-- sustained pressure, no energy saver and no battery, with no foreground user, and let nothing but
-- windows pass, without a new observation. Let its recovery windows fit their eight bits. Then the
-- governor is in the mode that its idle time, its backlog and its power call for, balanced or idle
-- boost, after the sum of the windows of the running hold, the longer of recovery and cooldown, at
-- least one, and where lost telemetry is still to be trusted again, once more those of recovery, at
-- least one.
pub settles :
    (c : GovernorConfig) (es : List Event) (n : ℕ)
    → IsCalm (run (new c) es)
    → (run (new c) es).config.recovery_windows ≤ u8_max
    → (run (new c) es).interactive_remaining
        + max
            (max (run (new c) es).config.recovery_windows (run (new c) es).config.cooldown_windows)
            1
        + recovering (run (new c) es)
      ≤ n
    → (run (run (new c) es) (replicate n window)).mode ≡ target (run (new c) es)
settles c es n h f l =
    let g = run (new c) es in
    let v = run-Inv (new c) es (new-Inv c) in
    elim (Bool-cases g.resource_recovery_required) [
      | inl r ↦ settle_recovering n g h v r f (ground (arith, r, l))
      | inr r ↦ settle_holding n g (calm-IsHealthy g h r) v f (ground (arith, r, l))
    ]
