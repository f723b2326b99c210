-- ===== src/Governor/Budget.antt =====
-- The budgets that `budget` hands out (crates/resource-governor/src/lib.rs).
use local_search.Prelude.{ℕ, ◌≤◌, ◌≡◌, ◌⊎◌, Bool, true, false, arith}
use local_search.Governor.Types.{GovernorMode, MaintenanceIntensity, IndexingBudget}
use local_search.Governor.State.{ResourceGovernor, budget, decision, get_indexing_budget}

-- paused < minimal < normal < elevated
abbrev pub intensity : MaintenanceIntensity → ℕ
intensity MaintenanceIntensity.paused = 0
intensity MaintenanceIntensity.minimal = 1
intensity MaintenanceIntensity.normal = 2
intensity MaintenanceIntensity.elevated = 3

-- No background work is admitted.
pub record IsPaused (b : IndexingBudget) : Type 0 where
  pub paused : b.background_paused ≡ true
  pub no_batches : b.maximum_batches ≡ 0
  pub no_time : b.maximum_run_time_millis ≡ 0
  pub no_writer : b.projection_concurrency ≡ 0
  pub no_maintenance : b.maintenance_intensity ≡ MaintenanceIntensity.paused

-- Background work is admitted in every control: by one writer within positive limits, with some
-- maintenance.
pub record IsAdmitted (b : IndexingBudget) : Type 0 where
  pub admitted : b.background_paused ≡ false
  pub some_mutations : 1 ≤ b.maximum_batch_mutations
  pub some_batches : 1 ≤ b.maximum_batches
  pub some_time : 1 ≤ b.maximum_run_time_millis
  pub one_writer : b.projection_concurrency ≡ 1
  pub some_maintenance :
      (b.maintenance_intensity ≡ MaintenanceIntensity.minimal)
      ⊎ (b.maintenance_intensity ≡ MaintenanceIntensity.normal)
      ⊎ (b.maintenance_intensity ≡ MaintenanceIntensity.elevated)

-- No control of the first budget is above that of the second.
pub record IsWithin (b c : IndexingBudget) : Type 0 where
  pub mutations : b.maximum_batch_mutations ≤ c.maximum_batch_mutations
  pub batches : b.maximum_batches ≤ c.maximum_batches
  pub time : b.maximum_run_time_millis ≤ c.maximum_run_time_millis
  pub heap : b.writer_heap_bytes ≤ c.writer_heap_bytes
  pub page : b.rebuild_page_size ≤ c.rebuild_page_size
  pub writers : b.projection_concurrency ≤ c.projection_concurrency
  pub maintenance : intensity b.maintenance_intensity ≤ intensity c.maintenance_intensity

-- The modes in which no work is admitted, whatever the energy saver.
abbrev pub IsQuiet : GovernorMode → Type 0
IsQuiet m = (m ≡ GovernorMode.active) ⊎ (m ≡ GovernorMode.pressure)

-- Background work is to be paused: in active and pressure mode, and on battery with energy saver.
abbrev pub MustPause : GovernorMode → Bool → Type 0
MustPause m energy_saver = IsQuiet m ⊎ ((m ≡ GovernorMode.battery) × (energy_saver ≡ true))

-- A governor's budget is paused in exactly the cases that call for it. Then no batch, no run time, no
-- writer and no maintenance is allowed, whatever is left of the batch size. In all other cases it
-- admits work in every control: some mutations, batches and time, one writer, and maintenance that is
-- not paused. In both cases no control is above that of idle boost, and energy saver raises none.
pub budget_all_or_nothing :
    (g : ResourceGovernor)
    → let b = (decision g).budget in
      ((MustPause g.mode g.pressure.energy_saver × IsPaused b)
        ⊎ ((¬ (MustPause g.mode g.pressure.energy_saver)) × IsAdmitted b))
      × IsWithin b (budget GovernorMode.idle_boost g.pressure.energy_saver)
      × IsWithin (budget g.mode true) (budget g.mode false)
unfolding decision get_indexing_budget budget
budget_all_or_nothing g = ground arith

pub IsQuiet-IsPaused : (g : ResourceGovernor) → IsQuiet g.mode → IsPaused (decision g).budget
unfolding decision get_indexing_budget budget
IsQuiet-IsPaused g h = ground arith
