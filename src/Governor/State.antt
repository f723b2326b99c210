-- ===== src/Governor/State.antt =====
-- The governor's state, its budget table and `transition` (crates/resource-governor/src/lib.rs).
use local_search.Prelude.{ℕ, ◌*◌, Bool, true, false, if◌then◌else◌, saturating_add_u64}
use local_search.Governor.Types.{
  GovernorMode, MaintenanceIntensity, IndexingBudget, PowerSource, SystemPressure, WorkloadState,
  GovernorConfig, DecisionReason, GovernorDecision, default_pressure,
}

pub record ResourceGovernor : Type 0 where
  pub config : GovernorConfig
  pub mode : GovernorMode
  pub reason : DecisionReason
  pub pressure : SystemPressure
  pub resource_available : Bool
  pub resource_recovery_required : Bool
  pub workload : WorkloadState
  pub pressure_streak : ℕ  -- u8
  pub recovery_streak : ℕ  -- u8
  pub cooldown_remaining : ℕ  -- u8
  pub interactive_remaining : ℕ  -- u8
  pub transition_sequence : ℕ  -- u64

unfoldable pub new : GovernorConfig → ResourceGovernor
new config = record {
  config = config;
  mode = GovernorMode.balanced;
  reason = DecisionReason.startup;
  pressure = default_pressure;
  resource_available = true;
  resource_recovery_required = false;
  workload = record { user_active = false; user_idle = false; backlog_mutations = 0 };
  pressure_streak = 0;
  recovery_streak = 0;
  cooldown_remaining = 0;
  interactive_remaining = 0;
  transition_sequence = 0;
}

-- `==` of the derived PartialEq
abbrev pub mode_eq : GovernorMode → GovernorMode → Bool
mode_eq GovernorMode.active GovernorMode.active = true
mode_eq GovernorMode.balanced GovernorMode.balanced = true
mode_eq GovernorMode.idle_boost GovernorMode.idle_boost = true
mode_eq GovernorMode.pressure GovernorMode.pressure = true
mode_eq GovernorMode.battery GovernorMode.battery = true
mode_eq _ _ = false

abbrev pub is_ac : PowerSource → Bool
is_ac PowerSource.ac = true
is_ac _ = false

abbrev pub is_battery : PowerSource → Bool
is_battery PowerSource.battery = true
is_battery _ = false

abbrev mib : ℕ
mib = 1024 * 1024

unfoldable pub budget : GovernorMode → Bool → IndexingBudget
budget GovernorMode.active energy_saver = record {
  maximum_batch_mutations = 0;
  maximum_batches = 0;
  maximum_run_time_millis = 0;
  writer_heap_bytes = 32 * mib;
  rebuild_page_size = 1000;
  projection_concurrency = 0;
  maintenance_intensity = MaintenanceIntensity.paused;
  background_paused = true;
}
budget GovernorMode.balanced energy_saver = record {
  maximum_batch_mutations = 5000;
  maximum_batches = 20;
  maximum_run_time_millis = 5000;
  writer_heap_bytes = 64 * mib;
  rebuild_page_size = 5000;
  projection_concurrency = 1;
  maintenance_intensity = MaintenanceIntensity.normal;
  background_paused = false;
}
budget GovernorMode.idle_boost energy_saver = record {
  maximum_batch_mutations = 10000;
  maximum_batches = 100;
  maximum_run_time_millis = 30000;
  writer_heap_bytes = 128 * mib;
  rebuild_page_size = 10000;
  projection_concurrency = 1;
  maintenance_intensity = MaintenanceIntensity.elevated;
  background_paused = false;
}
budget GovernorMode.pressure energy_saver = record {
  maximum_batch_mutations = 128;
  maximum_batches = 0;
  maximum_run_time_millis = 0;
  writer_heap_bytes = 32 * mib;
  rebuild_page_size = 500;
  projection_concurrency = 0;
  maintenance_intensity = MaintenanceIntensity.paused;
  background_paused = true;
}
budget GovernorMode.battery energy_saver = record {
  maximum_batch_mutations = if energy_saver then 0 else 256;
  maximum_batches = if energy_saver then 0 else 1;
  maximum_run_time_millis = if energy_saver then 0 else 250;
  writer_heap_bytes = 32 * mib;
  rebuild_page_size = 1000;
  projection_concurrency = if energy_saver then 0 else 1;
  maintenance_intensity =
      if energy_saver then MaintenanceIntensity.paused else MaintenanceIntensity.minimal;
  background_paused = energy_saver;
}

unfoldable pub get_indexing_budget : ResourceGovernor → IndexingBudget
unfolding budget
get_indexing_budget g = budget g.mode g.pressure.energy_saver

unfoldable pub decision : ResourceGovernor → GovernorDecision
unfolding get_indexing_budget
decision g = record {
  mode = g.mode;
  budget = get_indexing_budget g;
  reason = g.reason;
  transition_sequence = g.transition_sequence;
}

unfoldable pub transition : GovernorMode → DecisionReason → ResourceGovernor → ResourceGovernor
transition mode reason g = if mode_eq g.mode mode then record g { reason = reason } else record g {
  mode = mode;
  reason = reason;
  transition_sequence = saturating_add_u64 g.transition_sequence 1;
  cooldown_remaining = g.config.cooldown_windows;
}
