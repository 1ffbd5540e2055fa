-- ===== src/Server/Conn.antt =====
-- A connection and its buffers: `Conn` and `flush_writes` (crates/pg_resp/src/lib.rs). What the
-- socket's calls return is a list, a result for each call; past its end the call would block.
pub mod Flush
pub mod Drain
use pg_resp.Prelude.{
  ℕ, zero, suc, ◌+◌, ◌-◌, Bool, true, false, List, [], ◌∷◌, ◌++◌, Bytes, length, take, drop, ltb,
  leb, if◌then◌else◌,
}
use pg_resp.Dispatch.Runtime.{ConnState}

abbrev pub max_pending_write_bytes : ℕ
max_pending_write_bytes = 67108864

abbrev pub write_prefix_reclaim_bytes : ℕ
write_prefix_reclaim_bytes = 65536

pub record Conn : Type 0 where
  pub read_buf : Bytes
  pub write_buf : Bytes
  pub write_pos : ℕ
  pub want_write : Bool
  pub close_after_flush : Bool
  pub conn_state : ConnState

-- The connection as `accept` makes it.
abbrev pub new_conn : Conn
new_conn = record {
  read_buf = [];
  write_buf = [];
  write_pos = 0;
  want_write = false;
  close_after_flush = false;
  conn_state = record { authenticated = false };
}

pub data FlushOutcome : Type 0 where
  drained pending failed : FlushOutcome

-- `Ok(n)`, `WouldBlock`, `Interrupted`, or another error.
pub data WriteResult : Type 0 where
  wrote : ℕ → WriteResult
  full interrupted broken : WriteResult

-- `&conn.write_buf[conn.write_pos..]`
abbrev pub unsent : Conn → Bytes
unsent c = drop c.write_pos c.write_buf

abbrev pub owes : Conn → Bool
owes c = ltb c.write_pos (length c.write_buf)

-- The sent prefix is reclaimed once it is large.
abbrev pub park : Conn → Conn
park c =
    if leb write_prefix_reclaim_bytes c.write_pos
    then record c { write_buf = unsent c; write_pos = 0 }
    else c

abbrev pub cleared : Conn → Conn
cleared c = record c { write_buf = []; write_pos = 0 }

-- The connection after the loop, the bytes that reached the kernel, and the outcome.
unfoldable pub flush_writes : List WriteResult → Conn → Conn × Bytes × FlushOutcome
flush_writes [] c = if owes c then (park c, [], pending) else (cleared c, [], drained)
flush_writes (wrote zero ∷ rs) c = if owes c then (c, [], failed) else (cleared c, [], drained)
flush_writes (wrote (suc n) ∷ rs) c =
    let (c', sent, outcome) = flush_writes rs (record c { write_pos = c.write_pos + suc n }) in
    if owes c then (c', take (suc n) (unsent c) ++ sent, outcome) else (cleared c, [], drained)
flush_writes (full ∷ rs) c = if owes c then (park c, [], pending) else (cleared c, [], drained)
flush_writes (interrupted ∷ rs) c =
    let again = flush_writes rs c in if owes c then again else (cleared c, [], drained)
flush_writes (broken ∷ rs) c = if owes c then (c, [], failed) else (cleared c, [], drained)
