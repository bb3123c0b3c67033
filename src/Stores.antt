-- ===== src/Stores.antt =====
-- stores/: what the service keeps, the interface of a store, and the store in memory.
pub mod Models
pub mod Times
pub mod Interface
pub mod Mock
pub mod Mongo
