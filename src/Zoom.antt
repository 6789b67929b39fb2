-- ===== src/Zoom.antt =====
-- ocg-server/src/services/meetings/zoom.rs and zoom/client.rs: the meetings provider for Zoom, over a
-- client of its API that paces its requests and keeps an access token.
pub mod Types
pub mod World
pub mod Errors
pub mod Client
pub mod Provider
mod Tests
