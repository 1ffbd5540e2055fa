-- ===== src/Server/Loop.antt =====
-- `server_loop` (crates/pg_resp/src/lib.rs): one store, the connections, and an event at a time.
pub mod Invariant
pub mod Isolation
pub mod Closing
use pg_resp.Prelude.{
  nat_eq, ℕ, zero, suc, Bool, true, false, Option, none, some, List, [], ◌∷◌, Bytes, length, ltb,
  if◌then◌else◌,
}
use pg_resp.HashMap.{HashOrder, lookup, remove, modify, insert}
use pg_resp.Store.Types.{Instant, Store, wrapping_add}
use pg_resp.Store.Account.{new, with_max_memory, active_expire_sweep}
use pg_resp.Dispatch.Runtime.{Runtime}
use pg_resp.Server.Conn.{Conn, new_conn, WriteResult, flush_writes, owes}
use pg_resp.Server.Service.{
  ReadResult, Tick, Served, served, fenced, hung, flushed, service_connection,
}

abbrev pub active_expire_sample_size : ℕ
active_expire_sample_size = 20

pub record Server : Type 0 where
  pub store : Store
  pub conns : List (ℕ × Conn)
  pub next_token : ℕ

-- What the server thread runs in. The order of the connections' table is the hash's.
pub record Setup : Type 0 where
  pub runtime : Runtime
  pub password : Option Bytes
  pub order : HashOrder (ℕ × Conn)

abbrev pub first_store : Option ℕ → Store
first_store none = new
first_store (some bytes) = with_max_memory bytes

-- Token 0 is the listener's.
abbrev pub started : Option ℕ → Server
started max_memory_bytes = record {
  store = first_store max_memory_bytes;
  conns = [];
  next_token = 1;
}

-- The sweep of a poll tick; a connection that was accepted; and the two wakeups of a connection. The
-- Boolean is whether its (re)registration with the poll succeeds.
pub data Event : Type 0 where
  sweep : Instant → Event
  accepted : Bool → Event
  writable : ℕ → List WriteResult → Bool → Event
  readable : ℕ → List ReadResult → List WriteResult → (ℕ → Tick) → Bool → Event

-- The interest in WRITABLE follows whether the connection owes bytes.
unfoldable pub reconcile_interest : Bool → Conn → Conn
reconcile_interest registered c = if registered then record c { want_write = owes c } else c

abbrev pub drop_conn : ℕ → Server → Server
drop_conn token srv = record srv { conns = remove token srv.conns }

-- The connection is written back, or it is dropped. With the bytes that were sent on it. A call that
-- has not returned leaves the table alone.
unfoldable pub settle : ℕ → Bool → Server → Served → Server × Bytes
settle token registered srv (served true c s sent) = (
  record srv { store = s; conns = modify token (λ _. reconcile_interest registered c) srv.conns },
  sent,
)
settle token registered srv (served false c s sent) =
    (record (drop_conn token srv) { store = s }, sent)
settle token registered srv (fenced s) = (record (drop_conn token srv) { store = s }, [])
settle token registered srv (hung s) = (record srv { store = s }, [])

abbrev pub with_conn : ℕ → Bool → Server → Option Conn → (Conn → Served) → Server × Bytes
with_conn token registered srv none serve = (drop_conn token srv, [])
with_conn token registered srv (some c) serve = settle token registered srv (serve c)

unfoldable pub step : Setup → Event → Server → Server × Bytes
step setup (sweep now) srv =
    (record srv { store = (active_expire_sweep now active_expire_sample_size srv.store).0 }, [])
step setup (accepted registered) srv =
    let counted = record srv { next_token = wrapping_add srv.next_token 1 } in
    if registered
    then (record counted { conns = insert setup.order srv.next_token new_conn srv.conns }, [])
    else (counted, [])
step setup (writable token writes registered) srv =
    with_conn token registered srv (lookup token srv.conns)
      (λ c. flushed srv.store (flush_writes writes c))
step setup (readable token reads writes clock registered) srv =
    with_conn token registered srv (lookup token srv.conns)
      (λ c. service_connection setup.runtime setup.password reads writes clock c srv.store)

unfoldable pub run : Setup → List Event → Server → Server
run setup [] srv = srv
run setup (e ∷ es) srv = run setup es (step setup e srv).0
