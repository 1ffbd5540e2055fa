-- ===== src/Proto.antt =====
-- crates/resp-proto/src/lib.rs: the RESP2 wire protocol, both directions. A position in a buffer is
-- held as the bytes from there on, with the number of bytes before it beside them.
pub mod Frame
pub mod Command
pub mod Reply
pub mod Lines
pub mod RoundTrip
pub mod Replies
pub mod Progress
pub mod ReplyProgress
pub mod Fuzz
pub mod Stable
