-- ===== src/Meetings.antt =====
-- ocg-server/src/services/meetings.rs: the meetings that are kept in step with a provider (Zoom),
-- and the workers that do it. The database (`DBMeetings`) and the providers (`MeetingsProvider`) are
-- interfaces, records of what they answer after a trace of calls.
pub mod Types
pub mod Calls
pub mod Db
pub mod Provider
pub mod Sync
pub mod AutoEnd
pub mod Recovery
pub mod Worker
mod Tests
