-- ===== src/Audit.antt =====
-- src/reconcile/audit/ and src/reconcile/models/db_models.py
pub mod Tables
pub mod Repository
pub mod Idempotency
pub mod Lifecycle
pub mod Resolution
