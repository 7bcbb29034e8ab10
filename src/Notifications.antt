-- ===== src/Notifications.antt =====
-- src/reconcile/notifications/
pub mod Service
pub mod Notifiers
pub mod Delivery
pub mod Rows
