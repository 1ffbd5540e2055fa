-- ===== src/Server.antt =====
-- crates/pg_resp/src/lib.rs: the server thread's event loop and the worker that watches it.
pub mod Conn
pub mod Service
pub mod Loop
pub mod Watchdog
