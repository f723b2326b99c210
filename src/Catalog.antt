-- ===== src/Catalog.antt =====
-- The catalog's materialized index and its projection worker (crates/catalog-index/src).
pub mod Index
pub mod Types
pub mod Worker
pub mod Recovery
pub mod Replay
mod Cursor
mod Consistency
mod Runs
mod Pipeline
mod Examples
mod Fuel
