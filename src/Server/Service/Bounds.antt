-- ===== src/Server/Service/Bounds.antt =====
-- What every call of `service_connection` keeps: the store's invariant and the cap on unsent bytes.
use pg_resp.Prelude.{
  ℕ, zero, suc, ◌-◌, ◌≤◌, ◌≡◌, ap, arith, Bool, true, false, Option, none, some, List, [], ◌∷◌,
  ◌++◌, Bytes, length, length-append, length-drop, ltb, if_intro,
}
use pg_resp.Proto.Command.{ParseOutcome, complete, parse_command}
use pg_resp.Store.Types.{Store}
use pg_resp.Store.Account.Valid.{IsValid}
use pg_resp.Dispatch.Runtime.{Runtime, ConnState, Answer, reply, panic}
use pg_resp.Dispatch.Run.{dispatch}
use pg_resp.Dispatch.Run.Laws.{dispatch-IsValid}
use pg_resp.Server.Conn.{
  Conn, FlushOutcome, WriteResult, flush_writes, unsent, max_pending_write_bytes,
}
use pg_resp.Server.Conn.Flush.{Flushed, flush_writes-Flushed}
use pg_resp.Server.Service.{
  ReadResult, read_all, Tick, context, later, is_quit, Processed, stopped, panicked, unfinished,
  consume, answer, handle, process, Served, served, fenced, hung, keep_open, flushed, finish,
  serve_buffer, service_connection,
}

abbrev pub store_of : Processed → Store
store_of (stopped c s) = s
store_of (panicked s) = s
store_of (unfinished c s) = s

abbrev pub served_store : Served → Store
served_store (served keep c s sent) = s
served_store (fenced s) = s
served_store (hung s) = s

-- A connection that is kept owes no more than the cap.
abbrev pub Capped : Served → Type 0
Capped (served true c s sent) = length (unsent c) ≤ max_pending_write_bytes
Capped (served false c s sent) = Unit
Capped (fenced s) = Unit
Capped (hung s) = Unit

answer-IsValid :
    (next : Conn → Store → Processed) (quit : Bool) (c : Conn) (r : Store × ConnState × Answer)
    → ((c' : Conn) (s : Store) → IsValid s → IsValid (store_of (next c' s)))
    → IsValid r.0
    → IsValid (store_of (answer next quit c r))
unfolding answer
answer-IsValid next quit c (s, conn, reply r) go v =
    if_intro (λ p. IsValid (store_of p)) quit (λ _. v) (λ _. go _ s v)
answer-IsValid next quit c (s, conn, panic) go v = v

module _ (rt : Runtime) (password : Option Bytes) where
  handle-IsValid :
      (next : Conn → Store → Processed) (t : Tick) (o : ParseOutcome) (c : Conn) (s : Store)
      → ((c' : Conn) (s' : Store) → IsValid s' → IsValid (store_of (next c' s')))
      → IsValid s
      → IsValid (store_of (handle rt password next t o c s))
  unfolding handle
  handle-IsValid next t (complete [] n) c s go v = go (consume n c) s v
  handle-IsValid next t (complete (name ∷ args) n) c s go v =
      answer-IsValid next (is_quit name) (consume n c)
        (dispatch rt (context password t) (name ∷ args) s c.conn_state) go
        (dispatch-IsValid rt (context password t) (name ∷ args) s c.conn_state v)
  handle-IsValid next t ParseOutcome.incomplete c s go v = v
  handle-IsValid next t (ParseOutcome.invalid msg) c s go v = v

  process-IsValid :
      (f : ℕ) (clock : ℕ → Tick) (c : Conn) (s : Store)
      → IsValid s
      → IsValid (store_of (process rt password f clock c s))
  unfolding process
  process-IsValid zero clock c s v = v
  process-IsValid (suc f) clock c s v =
      handle-IsValid (process rt password f (later clock)) (clock 0) (parse_command c.read_buf) c s
        (λ c' s' w. process-IsValid f (later clock) c' s' w) v

finish-IsValid :
    (ws : List WriteResult) (p : Processed)
    → IsValid (store_of p)
    → IsValid (served_store (finish ws p))
unfolding finish
finish-IsValid ws (stopped c s) v =
    if_intro (λ r. IsValid (served_store r))
      (ltb max_pending_write_bytes (length c.write_buf - c.write_pos)) (λ _. v) (λ _. v)
finish-IsValid ws (panicked s) v = v
finish-IsValid ws (unfinished c s) v = v

-- A flush does not add to what is owed.
owed-flush :
    (c : Conn) (r : Conn × Bytes × FlushOutcome)
    → Flushed c r
    → length (unsent r.0) ≤ length (unsent c)
owed-flush c r h =
    let whole : length (r.1 ++ unsent r.0) ≡ length (unsent c) = ap length h.in_order in
    omega (arith, whole, length-append r.1 (unsent r.0))

kept-Capped :
    (keep : Bool) (c : Conn) (s : Store) (sent : Bytes)
    → length (unsent c) ≤ max_pending_write_bytes
    → Capped (served keep c s sent)
kept-Capped true c s sent h = h
kept-Capped false c s sent h = tt

pub flushed-Capped :
    (ws : List WriteResult) (c : Conn) (s : Store)
    → length (unsent c) ≤ max_pending_write_bytes
    → Capped (flushed s (flush_writes ws c))
flushed-Capped ws c s h =
    let r = flush_writes ws c in
    kept-Capped (keep_open r.2 r.0) r.0 s r.1
      (omega (arith, h, owed-flush c r (flush_writes-Flushed ws c)))

finish-Capped : (ws : List WriteResult) (p : Processed) → Capped (finish ws p)
unfolding finish
finish-Capped ws (stopped c s) =
    if_intro Capped (ltb max_pending_write_bytes (length c.write_buf - c.write_pos)) (λ _. tt)
      (λ few.
        flushed-Capped ws c s (let size = length-drop c.write_pos c.write_buf in ground arith))
finish-Capped ws (panicked s) = tt
finish-Capped ws (unfinished c s) = tt

module _ (rt : Runtime) (password : Option Bytes) where
  serve_buffer-Capped :
      (ws : List WriteResult) (clock : ℕ → Tick) (o : Option Bytes) (c : Conn) (s : Store)
      → Capped (serve_buffer rt password ws clock o c s)
  unfolding serve_buffer
  serve_buffer-Capped ws clock none c s = tt
  serve_buffer-Capped ws clock (some buf) c s =
      finish-Capped ws
        (process rt password (suc (length buf)) clock (record c { read_buf = buf }) s)

  pub service_connection-Capped :
      (reads : List ReadResult) (ws : List WriteResult) (clock : ℕ → Tick) (c : Conn) (s : Store)
      → Capped (service_connection rt password reads ws clock c s)
  unfolding service_connection
  service_connection-Capped reads ws clock c s =
      serve_buffer-Capped ws clock (read_all reads c.read_buf) c s

  serve_buffer-IsValid :
      (ws : List WriteResult) (clock : ℕ → Tick) (o : Option Bytes) (c : Conn) (s : Store)
      → IsValid s
      → IsValid (served_store (serve_buffer rt password ws clock o c s))
  unfolding serve_buffer
  serve_buffer-IsValid ws clock none c s v = v
  serve_buffer-IsValid ws clock (some buf) c s v =
      finish-IsValid ws _
        (process-IsValid rt password (suc (length buf)) clock (record c { read_buf = buf }) s v)

  pub service_connection-IsValid :
      (reads : List ReadResult) (ws : List WriteResult) (clock : ℕ → Tick) (c : Conn) (s : Store)
      → IsValid s
      → IsValid (served_store (service_connection rt password reads ws clock c s))
  unfolding service_connection
  service_connection-IsValid reads ws clock c s v =
      serve_buffer-IsValid ws clock (read_all reads c.read_buf) c s v
