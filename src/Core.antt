-- ===== src/Core.antt =====
-- The shared domain (crates/core/src): identifiers and models.
pub mod Ids
pub mod Errors
pub mod Models
mod Examples
