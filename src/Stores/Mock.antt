-- ===== src/Stores/Mock.antt =====
-- stores/mock.go: the store in memory.
pub mod State
pub mod Paging
pub mod Acl
pub mod Topics
pub mod Subs
pub mod Projects
pub mod Users
pub mod Registrations
pub mod Schemas
pub mod Instance
