-- ===== src/Reconciliation.antt =====
-- src/reconcile/reconciliation/
pub mod Sla
pub mod Matcher
pub mod Leftovers
pub mod Obligations
pub mod Matching
pub mod Rules
pub mod Routing
pub mod Classified
pub mod Building
