-- ===== src/Windows.antt =====
-- The Windows change source (crates/windows-fs): the records of the USN journal.
pub mod Record
mod Examples
