-- ===== src/ActivityTracker.antt =====
-- ocg-server/src/activity_tracker.rs: page views are queued, aggregated into batches (Batches and
-- Aggregator), and written to the database in rows (Flusher).
pub mod Batches
pub mod Aggregator
pub mod Flusher
pub mod Delivery
mod Tests
mod OrderTests
