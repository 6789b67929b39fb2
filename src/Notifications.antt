-- ===== src/Notifications.antt =====
-- ocg-server/src/services/notifications.rs: the emails that are queued in the database, and the
-- workers that enqueue reminders, deliver, and recover abandoned deliveries.
pub mod Types
pub mod Calls
pub mod Db
pub mod Content
pub mod Email
pub mod Delivery
pub mod Worker
mod Tests
