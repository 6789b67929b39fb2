-- ===== src/Recurrence.antt =====
-- ocg-server/src/handlers/dashboard/group/events/recurrence.rs: the events of a series that are
-- created with a base event.
pub mod Calendar
pub mod Monthly
pub mod Json
pub mod Shift
pub mod Refresh
pub mod Payloads
