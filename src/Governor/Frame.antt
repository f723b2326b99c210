-- ===== src/Governor/Frame.antt =====
-- What `evaluate` leaves alone (crates/resource-governor/src/lib.rs): it decides the mode from the
-- configuration and the observations and changes neither.
use local_search.Prelude.{◌≡◌, Bool, true, false, arith}
use local_search.Governor.State.{ResourceGovernor, transition}
use local_search.Governor.Machine.{
  evaluate_healthy, evaluate_workload, evaluate_pressure, count_pressure, leave_recovery,
  count_recovery, evaluate_recovery, evaluate,
}

pub record SameInputs (g h : ResourceGovernor) : Type 0 where
  pub config : h.config ≡ g.config
  pub pressure : h.pressure ≡ g.pressure
  pub workload : h.workload ≡ g.workload
  pub available : h.resource_available ≡ g.resource_available
  pub interactive : h.interactive_remaining ≡ g.interactive_remaining

pub evaluate_healthy-SameInputs :
    (b : Bool) (g : ResourceGovernor) → SameInputs g (evaluate_healthy b g)
unfolding evaluate_healthy transition count_recovery
evaluate_healthy-SameInputs b g = ground arith

pub evaluate_workload-SameInputs :
    (p b : Bool) (g : ResourceGovernor) → SameInputs g (evaluate_workload p b g)
unfolding evaluate_workload transition
evaluate_workload-SameInputs p b g = ground (arith, evaluate_healthy-SameInputs b g)

pub evaluate_pressure-SameInputs :
    (b : Bool) (g : ResourceGovernor) → SameInputs g (evaluate_pressure b g)
unfolding evaluate_pressure transition count_pressure
evaluate_pressure-SameInputs b g = ground (
  arith,
  evaluate_workload-SameInputs true b (count_pressure b g),
  evaluate_workload-SameInputs false b (record g { pressure_streak = 0 }),
)

pub leave_recovery-SameInputs : (g : ResourceGovernor) → SameInputs g (leave_recovery g)
unfolding leave_recovery transition
leave_recovery-SameInputs g = ground arith

pub evaluate-SameInputs : (b : Bool) (g : ResourceGovernor) → SameInputs g (evaluate b g)
unfolding evaluate evaluate_recovery transition count_recovery
evaluate-SameInputs b g = ground (
  arith,
  evaluate_pressure-SameInputs b g,
  leave_recovery-SameInputs (count_recovery b g),
  evaluate_pressure-SameInputs b (leave_recovery (count_recovery b g)),
)
