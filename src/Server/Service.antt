-- ===== src/Server/Service.antt =====
-- `service_connection` (crates/pg_resp/src/lib.rs): read what is there, run every complete command in
-- the buffer, flush the replies.
pub mod Fuel
pub mod Pipeline
pub mod Bounds
pub mod Chunks
use pg_resp.Prelude.{
  bytes_eq, ◌==◌, ℕ, zero, suc, ◌+◌, ◌-◌, ◌&&◌, Bool, true, false, not, Option, none, some, List,
  [], ◌∷◌, ◌++◌, Bytes, codes, map, length, drop, ltb, leb, if◌then◌else◌,
}
use pg_resp.Prelude.Int.{ℤ}
use pg_resp.Proto.Command.{ParseOutcome, complete, parse_command}
use pg_resp.Proto.Reply.{Reply, error, write_to}
use pg_resp.Store.Types.{Instant, Store}
use pg_resp.Dispatch.Runtime.{Runtime, Context, ConnState, Answer, reply, panic}
use pg_resp.Dispatch.Run.{dispatch}
use pg_resp.Server.Conn.{
  Conn, FlushOutcome, drained, pending, failed, WriteResult, flush_writes, unsent,
  max_pending_write_bytes,
}

-- `Ok(n)` with the bytes read, none for a peer that closed; `WouldBlock`; or another error.
pub data ReadResult : Type 0 where
  got : Bytes → ReadResult
  blocked broken : ReadResult

-- The first loop. `none` is `return false`.
unfoldable pub read_all : List ReadResult → Bytes → Option Bytes
read_all [] buf = some buf
read_all (got [] ∷ rs) buf = none
read_all (got (b ∷ bs) ∷ rs) buf = read_all rs (buf ++ (b ∷ bs))
read_all (blocked ∷ rs) buf = some buf
read_all (broken ∷ rs) buf = none

-- What the two clocks and the shared counter read as a command is run.
pub record Tick : Type 0 where
  pub sys_now : ℤ
  pub mono_now : Instant
  pub invalidations_lost : ℕ

abbrev pub context : Option Bytes → Tick → Context
context password t = record {
  sys_now = t.sys_now;
  mono_now = t.mono_now;
  required_password = password;
  invalidations_lost = t.invalidations_lost;
}

abbrev pub later : (ℕ → Tick) → ℕ → Tick
later clock k = clock (suc k)

abbrev pub ascii_lower : ℕ → ℕ
ascii_lower c = if leb b'A' c && leb c b'Z' then c + 32 else c

-- `eq_ignore_ascii_case(b"QUIT")`
unfoldable pub is_quit : Bytes → Bool
is_quit name = map ascii_lower name == map ascii_lower (codes "QUIT")

-- Where the second loop stops, or the store that a panic leaves; or the fuel ran out while it was
-- still running.
pub data Processed : Type 0 where
  stopped : Conn → Store → Processed
  panicked : Store → Processed
  unfinished : Conn → Store → Processed

abbrev pub consume : ℕ → Conn → Conn
consume n c = record c { read_buf = drop n c.read_buf }

abbrev pub push : Reply → Conn → Conn
push r c = record c { write_buf = write_to r c.write_buf }

abbrev pub closing : Conn → Conn
closing c = record c { close_after_flush = true }

abbrev pub protocol_error : Bytes → Reply
protocol_error msg = error (codes "ERR Protocol error: " ++ msg)

-- The reply of a command goes out; QUIT ends the loop, any other command is followed by `next`.
unfoldable pub answer :
    (Conn → Store → Processed) → Bool → Conn → Store × ConnState × Answer → Processed
answer next quit c (s, conn, reply r) =
    let c' = record (push r c) { conn_state = conn } in
    if quit then stopped (closing c') s else next c' s
answer next quit c (s, conn, panic) = panicked s

-- Whether the connection is kept, the connection, the store, and the bytes that were sent; or the
-- store that a panic leaves; or the call has not returned.
pub data Served : Type 0 where
  served : Bool → Conn → Store → Bytes → Served
  fenced : Store → Served
  hung : Store → Served

abbrev pub keep_open : FlushOutcome → Conn → Bool
keep_open drained c = not c.close_after_flush
keep_open pending c = true
keep_open failed c = false

abbrev pub flushed : Store → Conn × Bytes × FlushOutcome → Served
flushed s (c, sent, outcome) = served (keep_open outcome c) c s sent

unfoldable pub finish : List WriteResult → Processed → Served
finish writes (stopped c s) =
    if ltb max_pending_write_bytes (length c.write_buf - c.write_pos)
    then served false c s []
    else flushed s (flush_writes writes c)
finish writes (panicked s) = fenced s
finish writes (unfinished c s) = hung s

module _ (rt : Runtime) (password : Option Bytes) where
  unfoldable pub handle :
      (Conn → Store → Processed) → Tick → ParseOutcome → Conn → Store → Processed
  handle next t (complete [] n) c s = next (consume n c) s
  handle next t (complete (name ∷ args) n) c s =
      answer next (is_quit name) (consume n c)
        (dispatch rt (context password t) (name ∷ args) s c.conn_state)
  handle next t ParseOutcome.incomplete c s = stopped c s
  handle next t (ParseOutcome.invalid msg) c s = stopped (closing (push (protocol_error msg) c)) s

  -- The second loop, on fuel. Each round takes a byte or more off the buffer.
  unfoldable pub process : ℕ → (ℕ → Tick) → Conn → Store → Processed
  process zero clock c s = unfinished c s
  process (suc f) clock c s =
      handle (process f (later clock)) (clock 0) (parse_command c.read_buf) c s

  unfoldable pub serve_buffer : List WriteResult → (ℕ → Tick) → Option Bytes → Conn → Store → Served
  serve_buffer writes clock none c s = served false c s []
  serve_buffer writes clock (some buf) c s =
      finish writes (process (suc (length buf)) clock (record c { read_buf = buf }) s)

  unfoldable pub service_connection :
      List ReadResult → List WriteResult → (ℕ → Tick) → Conn → Store → Served
  service_connection reads writes clock c s =
      serve_buffer writes clock (read_all reads c.read_buf) c s
