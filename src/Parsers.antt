-- ===== src/Parsers.antt =====
-- src/reconcile/parsers
pub mod Base
pub mod Rows
pub mod Fields
pub mod Models
pub mod Readers
pub mod Complete
pub mod Crashes
pub mod Columns
pub mod NetAmounts
