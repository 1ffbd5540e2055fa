-- ===== src/Lib.antt =====
-- pg_resp: a Redis-compatible server that runs inside a Postgres background worker.
--
-- A client's bytes are parsed into a command (crates/resp-proto), `dispatch` runs the command on the
-- store (crates/pg_resp/src/dispatch.rs on crates/resp-store) and its reply is serialized again. The
-- store keeps expiring keys within a memory budget; SCAN keeps cursors beside it. One thread serves
-- all connections (crates/pg_resp/src/lib.rs), another probes it. SQL reaches the cache through a
-- client over TCP (crates/resp-client), its writes queued until the commit (crates/pg_resp/src/sql.rs).
--
-- Prelude      numbers, lists, signed integers, and the equality interface of map keys
-- HashMap      the standard library's HashMap as its entries in iteration order; a table may put its
--              entries in any order when a new key comes in, which is a parameter (`HashOrder`)
-- Decimal      `parse::<i64>`, `parse::<u64>` and `to_string`
-- Store        crates/resp-store/src/lib.rs. Types: the data. Account: `insert_accounted`,
--              `remove_accounted`, `expire_if_needed`, `evict_to_budget`, `active_expire_sweep`.
--              Values: `get`, `set`, `get_del`, `get_ex`, `incr_by`, `mget`, `mset`. Expire: `expire`,
--              `persist`, `ttl_seconds`, `pttl_millis`. Keyspace: `del`, `exists`, `scan`, `all_keys`,
--              `random_key`, `clear`, `stats`. Steady: what leaves the cursors and the budget
--              alone
-- Scan         crates/resp-store/src/scan.rs: the registry of SCAN cursors. Capacity, Pages, Registry,
--              Session: proofs
-- Proptests    crates/resp-store/src/proptests.rs: the property tests as functions of what they
--              generate, each with its theorem. Writes: what the tests write. Limit, Expired, Counter,
--              Scans: the tests. Scans.Churned, Restarted, Written: the theorems on SCAN
-- Proto        crates/resp-proto/src/lib.rs. Frame: lines, lengths, bulk data. Command: requests.
--              Reply: replies. Lines, RoundTrip, Replies, Progress, Stable, ReplyProgress: proofs.
--              Fuzz: the targets of crates/resp-proto/fuzz
-- Glob         crates/pg_resp/src/glob.rs: `glob_match`. Classes: the rules of bracketed
--              classes. Meaning: the rules of patterns. Decides: proofs
-- Dispatch     crates/pg_resp/src/dispatch.rs. Verb: the command names. Runtime: the context. Options:
--              the options of SET and GETEX. Strings, Server, Scanning: the arms. Connection: AUTH.
--              Run: `dispatch`
-- Sql          crates/pg_resp/src/sql.rs. Queue: `enqueue`, the callbacks of subtransactions,
--              `apply_queue`. Savepoints: a transaction as a list of events. Surface: `resp.get`,
--              `exists`, `ttl`, `keys`. Trigger: `resp.set`, `del`, `evict`. Info: `resp.stats`.
--              Delivery: the queue and the client together
-- Server       crates/pg_resp/src/lib.rs. Conn: a connection's buffers and `flush_writes`. Service:
--              `service_connection`. Loop: `server_loop`, an event at a time; its step ties the store
--              to the connections. Watchdog: the main thread's loop, the memory budget and the
--              loopback address. Flush, Drain, Fuel, Pipeline, Chunks, Bounds, Invariant, Isolation,
--              Closing, Strikes: proofs
-- Client       crates/resp-client/src/lib.rs. The errors, `dial` and `map_io`; Commands:
--              `ensure_connected`, `round_trip`, `command` and its variants. Retry, Answers, Login,
--              EndToEnd: proofs, the last of the client and the server together
-- Tests        sample stores, and the theorems at concrete inputs
--
-- A method of the source is a function that takes the store last and returns the store after the
-- call beside its result. Numbers are natural numbers with the wrap-around of the Rust type written
-- out; an `Instant` is a number of nanoseconds. What a client can see of a key at a time is
-- `Store.Account.View.visible`: its value and deadline, nothing once the deadline has come. A
-- store is `IsValid` if it holds no key twice and its byte count is the sum over the entries.
--
-- Loops that are not structural run on fuel. `evict_loop` gets as many rounds as there are entries,
-- and each round takes one out; `drop_oldest` likewise; `glob_rounds` gets one more than the length of
-- the pattern, of which each round takes a byte or more; `digits` gets more than the number of
-- digits; `parse_reply_at` counts the nesting that the source allows; `process` gets one more than the
-- length of the read buffer, of which each request takes a byte or more. Where it runs out, `process`
-- is `unfinished` and the call has `hung`, which is no result of the source.
--
-- The loops of the property tests run on the bounds that the tests assert; out of it a test fails. The
-- loops of the fuzz targets get one round more than there are bytes.
--
-- A socket is a script of what its calls return, in order. On the server's sockets, which do not
-- block, the end of the script is `WouldBlock`; on the client's, which have a timeout, it is the
-- timeout, so a peer that dribbles bytes for ever is left out. Tokens are the source's `usize`.
--
-- An addition to an `Instant` that leaves its range panics in Rust: such a command answers `panic`.
-- Case mapping and lossy decoding of text that is not ASCII are parameters of `Runtime`.
--
-- A transaction's events reach the callbacks of sql.rs in the order that Postgres documents, innermost
-- subtransaction first and with ids that grow. The client is a parameter of Queue; Delivery gives it.
--
-- Not modelled: the unit tests, the ranges of the generators of property tests, the sockets
-- themselves, the poll's choice of events, signals, the registration of settings and the worker's
-- life in Postgres (crates/pg_resp/src/lib.rs), the marshalling of Postgres values, error hints
-- and the counter in shared memory (crates/pg_resp/src/sql.rs), and the DEBUG arm, which only a
-- test build has.
mod Prelude
pub mod HashMap
pub mod Decimal
pub mod Store
pub mod Scan
pub mod Proptests
pub mod Proto
pub mod Glob
pub mod Dispatch
pub mod Sql
pub mod Server
pub mod Client
mod Tests
