-- ===== src/BrokerService.antt =====
-- The broker service (crates/fs-service/src/lib.rs): the replay window, the scan table and the
-- dispatch of requests. The provider is a parameter. A call runs with its locks held, so a service
-- is a value that each call replaces; a poisoned lock is not modelled.
pub mod Replay
mod ReplayHistory
mod ReplayLaws
pub mod Scans
mod Delivery
pub mod State
pub mod Service
mod Table
mod Answers
mod Replays
mod Examples
