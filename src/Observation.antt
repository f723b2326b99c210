-- ===== src/Observation.antt =====
-- The Agent's observation controller (crates/agent/src/observation.rs).
pub mod Selection
pub mod State
pub mod Outcomes
pub mod Controller
mod Decisions
mod Turns
mod Store
mod Ends
mod Calls
mod Scans
mod Gap
mod Examples
