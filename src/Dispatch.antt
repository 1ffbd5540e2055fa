-- ===== src/Dispatch.antt =====
-- crates/pg_resp/src/dispatch.rs: from a command to its reply.
pub mod Verb
pub mod Runtime
pub mod Options
pub mod Strings
pub mod Server
pub mod Scanning
pub mod Connection
pub mod Run
