-- ===== src/Client.antt =====
-- The RESP client (crates/resp-client/src/lib.rs). The sockets are scripts: what each of their calls
-- returns, in order, whatever the address and the timeout. Past its end a write succeeds, a read times out and no address resolves.
pub mod Commands
pub mod Retry
pub mod Answers
pub mod Login
pub mod EndToEnd
use pg_resp.Prelude.{
  ℕ, zero, suc, ◌+◌, Bool, true, false, not, ◌&&◌, Option, none, some, List, [], ◌∷◌, ◌++◌, Bytes,
  codes, is_some, if◌then◌else◌,
}
use pg_resp.Proto.Command.{encode_command}
use pg_resp.Proto.Reply.{
  Reply, simple, error, ReplyOutcome, complete, incomplete, invalid, parse_reply,
}

-- `std::io::Error`: two of its kinds, and any other with its text.
pub data IoError : Type 0 where
  would_block timed_out : IoError
  other : Bytes → IoError

pub data ClientError : Type 0 where
  connect io : IoError → ClientError
  timeout closed : ClientError
  protocol server auth : Bytes → ClientError

pub data Outcome (A : Type 0) : Type 0 where
  ok : A → Outcome A
  err : ClientError → Outcome A

abbrev pub is_fatal_to_connection : ClientError → Bool
is_fatal_to_connection (server msg) = false
is_fatal_to_connection (connect e) = true
is_fatal_to_connection (io e) = true
is_fatal_to_connection timeout = true
is_fatal_to_connection closed = true
is_fatal_to_connection (protocol msg) = true
is_fatal_to_connection (auth msg) = true

-- `Ok(n)` with the bytes read, none at the end of the stream; or an error.
pub data ReadResult : Type 0 where
  got : Bytes → ReadResult
  failed : IoError → ReadResult

-- `writes` are the results of `write_all` and `flush`, with `none` for `Ok`.
pub record Stream : Type 0 where
  pub writes : List (Option IoError)
  pub reads : List ReadResult

pub record Conn : Type 0 where
  pub stream : Stream
  pub read_buf : Bytes

pub record Client : Type 0 where
  pub addr : Bytes
  pub password : Option Bytes
  pub timeout : ℕ
  pub conn : Option Conn

abbrev pub nonempty_password : Option Bytes → Option Bytes
nonempty_password none = none
nonempty_password (some []) = none
nonempty_password (some (b ∷ bs)) = some (b ∷ bs)

-- in nanoseconds
abbrev pub default_timeout : ℕ
default_timeout = 1000000000

abbrev pub new_client : Bytes → Option Bytes → Client
new_client addr password = record {
  addr = addr;
  password = nonempty_password password;
  timeout = default_timeout;
  conn = none;
}

abbrev pub with_timeout : ℕ → Client → Client
with_timeout nanos c = record c { timeout = nanos }

abbrev pub is_connected : Client → Bool
is_connected c = is_some c.conn

abbrev pub disconnect : Client → Client
disconnect c = record c { conn = none }

-- `connect_timeout` on one address, then `set_read_timeout`, `set_write_timeout` and `set_nodelay`.
pub data Attempt : Type 0 where
  refused : IoError → Attempt
  connected : Option IoError → Option IoError → Option IoError → Stream → Attempt

-- What a call of `dial` meets.
pub data Dial : Type 0 where
  unresolved : IoError → Dial
  addresses : List Attempt → Dial

-- The calls of `dial` to come, and the requests that the sockets took, in order.
pub record World : Type 0 where
  pub dials : List Dial
  pub sent : List Bytes

-- The text that the standard library makes of bytes, replies and errors.
pub record Texts : Type 0 where
  pub from_utf8_lossy : Bytes → Bytes
  pub debug_reply : Reply → Bytes
  pub show_error : IoError → Bytes

abbrev pub configured : Option IoError → Option IoError → Option IoError → Stream → Outcome Stream
configured none none none s = ok s
configured (some e) b c s = err (connect e)
configured none (some e) c s = err (connect e)
configured none none (some e) s = err (connect e)

-- The `for` loop, with `last_err`.
abbrev pub first_stream : Option IoError → List Attempt → Outcome Stream
first_stream none [] = err (connect (other (codes "no addresses resolved")))
first_stream (some e) [] = err (connect e)
first_stream last_err (refused e ∷ rest) = first_stream (some e) rest
first_stream last_err (connected a b c s ∷ rest) = configured a b c s

abbrev pub dialled : Dial → Outcome Stream
dialled (unresolved e) = err (connect e)
dialled (addresses attempts) = first_stream none attempts

abbrev pub dial_from : List Dial → List Bytes → World × Outcome Stream
dial_from [] log = (record { dials = []; sent = log }, dialled (addresses []))
dial_from (d ∷ ds) log = (record { dials = ds; sent = log }, dialled d)

abbrev pub dial : World → World × Outcome Stream
dial w = dial_from w.dials w.sent

abbrev pub is_empty : Bytes → Bool
is_empty [] = true
is_empty (b ∷ bs) = false

-- `map_io(partial_reply_seen)`
abbrev pub map_io : Texts → Bool → IoError → ClientError
map_io x partial_reply_seen would_block = timeout
map_io x partial_reply_seen timed_out = timeout
map_io x true (other text) =
    protocol
      (codes "connection failed after a partial reply had arrived: " ++ x.show_error (other text))
map_io x false (other text) = io (other text)

abbrev pub reply_result : Texts → Reply → Outcome Reply
reply_result x (error msg) = err (server (x.from_utf8_lossy msg))
reply_result x (simple s) = ok (simple s)
reply_result x (Reply.integer n) = ok (Reply.integer n)
reply_result x (Reply.bulk b) = ok (Reply.bulk b)
reply_result x (Reply.array items) = ok (Reply.array items)
reply_result x Reply.null_array = ok Reply.null_array

-- `Display for ClientError`
abbrev pub show_client_error : Texts → ClientError → Bytes
show_client_error x (connect e) = codes "could not connect: " ++ x.show_error e
show_client_error x (io e) = codes "socket error: " ++ x.show_error e
show_client_error x timeout = codes "timed out waiting for a reply"
show_client_error x closed = codes "server closed the connection"
show_client_error x (protocol msg) = codes "protocol error: " ++ msg
show_client_error x (server msg) = msg
show_client_error x (auth msg) = codes "authentication failed: " ++ msg
