-- ===== src/Reconciliation/Matching.antt =====
-- What key matching guarantees (src/reconcile/reconciliation/matcher.py).
pub mod Steps
pub mod Candidates
pub mod Missed
pub mod Pairs
pub mod Conservation
pub mod Reasons
