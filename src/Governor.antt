-- ===== src/Governor.antt =====
-- The resource governor (crates/resource-governor/src/lib.rs): the deterministic state machine that
-- admits or pauses background indexing.
pub mod Types
pub mod State
pub mod Machine
pub mod Invariant
pub mod Frame
pub mod Budget
pub mod Windows
pub mod Recovery
pub mod Sequence
pub mod Hold
pub mod Settle
pub mod Measures
pub mod Safety
mod Examples
pub mod Boost
