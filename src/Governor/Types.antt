-- ===== src/Governor/Types.antt =====
-- The data of crates/resource-governor/src/lib.rs and of crates/platform-core/src/resources.rs:
-- modes, budgets, observations, configuration. A number is a plain ℕ with its Rust width beside it.
use local_search.Prelude.{
  ℕ, ◌*◌, ◌/◌, Bool, false, Option, none, some, List, leb, ◌==◌, if◌then◌else◌, min, u16_max,
}

pub data GovernorMode : Type 0 where
  active balanced idle_boost pressure battery : GovernorMode

pub data MaintenanceIntensity : Type 0 where
  paused minimal normal elevated : MaintenanceIntensity

pub record IndexingBudget : Type 0 where
  pub maximum_batch_mutations : ℕ  -- u32
  pub maximum_batches : ℕ  -- u32
  pub maximum_run_time_millis : ℕ  -- u64
  pub writer_heap_bytes : ℕ  -- usize
  pub rebuild_page_size : ℕ  -- u32
  pub projection_concurrency : ℕ  -- u8
  pub maintenance_intensity : MaintenanceIntensity
  pub background_paused : Bool

pub data PowerSource : Type 0 where
  ac battery unknown : PowerSource

pub data StorageClass : Type 0 where
  hdd ssd nvme network removable unknown : StorageClass

pub record StorageResources : Type 0 where
  pub volume_id : ℕ  -- u128
  pub class : StorageClass
  pub capacity_bytes : Option ℕ  -- u64
  pub available_bytes : Option ℕ  -- u64

pub record SystemResources : Type 0 where
  pub logical_processors : ℕ  -- u32
  pub total_memory_bytes : Option ℕ  -- u64
  pub available_memory_bytes : Option ℕ  -- u64
  pub system_cpu_load_basis_points : Option ℕ  -- u16
  pub process_cpu_load_basis_points : Option ℕ  -- u16
  pub power_source : PowerSource
  pub battery_percent : Option ℕ  -- u8
  pub energy_saver : Bool
  pub storage_busy_basis_points : Option ℕ  -- u16
  pub user_idle_duration_millis : Option ℕ  -- u64
  pub storage : List StorageResources

pub record SystemPressure : Type 0 where
  pub available_memory_basis_points : Option ℕ  -- u16
  pub system_cpu_load_basis_points : Option ℕ  -- u16
  pub disk_busy_basis_points : Option ℕ  -- u16
  pub power_source : PowerSource
  pub battery_percent : Option ℕ  -- u8
  pub energy_saver : Bool

abbrev pub default_pressure : SystemPressure
default_pressure = record {
  available_memory_basis_points = none;
  system_cpu_load_basis_points = none;
  disk_busy_basis_points = none;
  power_source = PowerSource.unknown;
  battery_percent = none;
  energy_saver = false;
}

-- u16::try_from(n).ok()
abbrev try_u16 : ℕ → Option ℕ
try_u16 n = if leb n u16_max then some n else none

-- total.zip(available).and_then(|(total, available)| …); the quotient is taken in u128
unfoldable pub memory_basis_points : Option ℕ → Option ℕ → Option ℕ
memory_basis_points none available = none
memory_basis_points (some total) none = none
memory_basis_points (some total) (some available) =
    if total == 0 then none else try_u16 (min available total * 10000 / total)

unfoldable pub pressure_from : SystemResources → SystemPressure
pressure_from r = record {
  available_memory_basis_points = memory_basis_points r.total_memory_bytes r.available_memory_bytes;
  system_cpu_load_basis_points = r.system_cpu_load_basis_points;
  disk_busy_basis_points = r.storage_busy_basis_points;
  power_source = r.power_source;
  battery_percent = r.battery_percent;
  energy_saver = r.energy_saver;
}

pub record WorkloadState : Type 0 where
  pub user_active : Bool
  pub user_idle : Bool
  pub backlog_mutations : ℕ  -- u64

pub record GovernorConfig : Type 0 where
  pub search_sla_millis : ℕ  -- u64
  pub low_memory_basis_points : ℕ  -- u16
  pub critical_memory_basis_points : ℕ  -- u16
  pub high_cpu_basis_points : ℕ  -- u16
  pub high_disk_basis_points : ℕ  -- u16
  pub pressure_windows : ℕ  -- u8
  pub recovery_windows : ℕ  -- u8
  pub cooldown_windows : ℕ  -- u8
  pub interactive_hold_windows : ℕ  -- u8
  pub idle_boost_after_millis : ℕ  -- u64

abbrev pub default_config : GovernorConfig
default_config = record {
  search_sla_millis = 75;
  low_memory_basis_points = 1000;
  critical_memory_basis_points = 500;
  high_cpu_basis_points = 9000;
  high_disk_basis_points = 9000;
  pressure_windows = 2;
  recovery_windows = 5;
  cooldown_windows = 3;
  interactive_hold_windows = 3;
  idle_boost_after_millis = 5 * 60 * 1000;
}

pub data DecisionReason : Type 0 where
  startup user_active search_sla system_pressure critical_memory : DecisionReason
  resource_telemetry_unavailable battery energy_saver balanced idle_backlog : DecisionReason

pub record GovernorDecision : Type 0 where
  pub mode : GovernorMode
  pub budget : IndexingBudget
  pub reason : DecisionReason
  pub transition_sequence : ℕ  -- u64
