-- ===== src/Redirector.antt =====
-- ocg-redirector/src: the service that redirects legacy URLs of communities to their pages.
pub mod Maps
pub mod Config
pub mod Router
pub mod Tables
mod Tests
