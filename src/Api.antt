-- ===== src/Api.antt =====
-- src/reconcile/api/
pub mod Registry
pub mod Progress
pub mod Metrics
pub mod Routes
pub mod Pages
pub mod Uploads
