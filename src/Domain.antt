-- ===== src/Domain.antt =====
-- src/reconcile/models/domain.py
pub mod Enums
pub mod Records
pub mod Keys
pub mod Decimal
pub mod Reading
pub mod Money
