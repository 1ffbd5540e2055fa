-- ===== src/Sql.antt =====
-- crates/pg_resp/src/sql.rs: the cache writes that a transaction queues until it commits.
pub mod Queue
pub mod Savepoints
pub mod Info
pub mod Surface
pub mod Trigger
pub mod Delivery
