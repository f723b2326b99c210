-- ===== src/Graph.antt =====
-- The durable filesystem graph (crates/filesystem-graph): volumes, objects and links, the desired
-- catalog with its outbox, and the observation scans.
pub mod Rows
pub mod Types
pub mod Tables
pub mod Links
pub mod Paths
pub mod Projection
pub mod Batch
pub mod Examples
pub mod Outbox
pub mod Desired
pub mod Refresh
pub mod Scan
pub mod Sweep
pub mod Operations
