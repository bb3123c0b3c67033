-- ===== src/Push.antt =====
-- push/: the client of the push server, and the pushers with their manager.
pub mod Client
pub mod Pusher
pub mod Manager
