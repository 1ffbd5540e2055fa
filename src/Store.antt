-- ===== src/Store.antt =====
-- crates/resp-store/src/lib.rs: the in-memory store. The data, the byte accounting with CLOCK-LRU
-- eviction, the operations, and what holds of them.
pub mod Types
pub mod Account
pub mod Keyspace
pub mod Values
pub mod Expire
pub mod Steady
