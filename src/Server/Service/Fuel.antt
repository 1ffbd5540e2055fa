-- ===== src/Server/Service/Fuel.antt =====
-- The loop over the buffered commands ends: the length of the buffer is enough fuel.
use pg_resp.Prelude.{
  ℕ, zero, suc, ◌≤◌, ◌<◌, ◌≡◌, ◌≢◌, ◌-◌, refl, ltb, if_intro, none, some, arith, Bool, true, false,
  Option, List, [], ◌∷◌, Bytes, length, length-drop,
}
use pg_resp.Proto.Command.{ParseOutcome, complete, parse_command}
use pg_resp.Proto.Progress.{parse_command-consumed}
use pg_resp.Store.Types.{Store}
use pg_resp.Dispatch.Runtime.{Runtime, ConnState, Answer, reply, panic}
use pg_resp.Dispatch.Run.{dispatch}
use pg_resp.Server.Conn.{Conn, WriteResult, max_pending_write_bytes}
use pg_resp.Server.Service.{
  ReadResult, read_all, hung, finish, serve_buffer, service_connection, Tick, context, later,
  is_quit, Processed, stopped, panicked, unfinished, consume, push, answer, handle, process,
}

-- The loop has come to its end: the fuel did not run out before.
abbrev pub Finished : Processed → Type 0
Finished (stopped c s) = Unit
Finished (panicked s) = Unit
Finished (unfinished c s) = ⊥

-- Two ways to go on that end and agree on every connection with a shorter buffer.
abbrev Agree : ℕ → (Conn → Store → Processed) → (Conn → Store → Processed) → Type 0
Agree size next next' =
    (c : Conn) (s : Store) → length c.read_buf < size → (next c s ≡ next' c s) × Finished (next c s)

answer-Agree :
    (next next' : Conn → Store → Processed) (quit : Bool) (c : Conn)
    (r : Store × ConnState × Answer) (size : ℕ)
    → Agree size next next'
    → length c.read_buf < size
    → (answer next quit c r ≡ answer next' quit c r) × Finished (answer next quit c r)
unfolding answer
answer-Agree next next' true c (s, conn, reply r) size agree short = (refl, tt)
answer-Agree next next' false c (s, conn, reply r) size agree short =
    agree (record (push r c) { conn_state = conn }) s short
answer-Agree next next' quit c (s, conn, panic) size agree short = (refl, tt)

module _ (rt : Runtime) (password : Option Bytes) where
  handle-Agree :
      (next next' : Conn → Store → Processed) (t : Tick) (o : ParseOutcome) (c : Conn) (s : Store)
      → ((args : List Bytes) (n : ℕ) → o ≡ complete args n → (0 < n) × (n ≤ length c.read_buf))
      → Agree (length c.read_buf) next next'
      → (handle rt password next t o c s ≡ handle rt password next' t o c s)
        × Finished (handle rt password next t o c s)
  unfolding handle
  handle-Agree next next' t (complete [] n) c s took agree =
      agree (consume n c) s (omega (arith, took [] n refl, length-drop n c.read_buf))
  handle-Agree next next' t (complete (name ∷ args) n) c s took agree =
      answer-Agree next next' (is_quit name) (consume n c)
        (dispatch rt (context password t) (name ∷ args) s c.conn_state) (length c.read_buf) agree
        (omega (arith, took (name ∷ args) n refl, length-drop n c.read_buf))
  handle-Agree next next' t ParseOutcome.incomplete c s took agree = (refl, tt)
  handle-Agree next next' t (ParseOutcome.invalid msg) c s took agree = (refl, tt)

  -- The loop over the buffered commands ends: with any fuel above the length of the read buffer it
  -- comes to its end before the fuel runs out, and all such fuels give the same result.
  pub process_fuel :
      (f g : ℕ) (clock : ℕ → Tick) (c : Conn) (s : Store)
      → length c.read_buf < f
      → length c.read_buf < g
      → (process rt password f clock c s ≡ process rt password g clock c s)
        × Finished (process rt password f clock c s)
  unfolding process
  process_fuel zero g clock c s p q = absurd (omega arith)
  process_fuel (suc f) zero clock c s p q = absurd (omega arith)
  process_fuel (suc f) (suc g) clock c s p q =
      handle-Agree (process rt password f (later clock)) (process rt password g (later clock))
        (clock 0) (parse_command c.read_buf) c s
        (λ args n e. parse_command-consumed c.read_buf args n e)
        (λ c' s' short.
          process_fuel f g (later clock) c' s' (omega (arith, short)) (omega (arith, short)))

  finish-returns :
      (ws : List WriteResult) (p : Processed) (s : Store) → Finished p → finish ws p ≢ hung s
  unfolding finish
  finish-returns ws (stopped c s') s h =
      if_intro (λ r. r ≢ hung s) (ltb max_pending_write_bytes (length c.write_buf - c.write_pos))
        (λ _ e. cc) (λ _ e. cc)
  finish-returns ws (panicked s') s h = λ e. cc
  finish-returns ws (unfinished c s') s h = absurd h

  serve_buffer-returns :
      (ws : List WriteResult) (clock : ℕ → Tick) (o : Option Bytes) (c : Conn) (s s' : Store)
      → serve_buffer rt password ws clock o c s ≢ hung s'
  unfolding serve_buffer
  serve_buffer-returns ws clock none c s s' = λ e. cc
  serve_buffer-returns ws clock (some buf) c s s' =
      let n = suc (length buf) in
      finish-returns ws (process rt password n clock (record c { read_buf = buf }) s) s'
        (process_fuel n n clock (record c { read_buf = buf }) s (omega arith) (omega arith)).1

  -- A call of `service_connection` returns, whatever its socket does.
  service_connection-returns :
      (reads : List ReadResult) (ws : List WriteResult) (clock : ℕ → Tick) (c : Conn) (s s' : Store)
      → service_connection rt password reads ws clock c s ≢ hung s'
  unfolding service_connection
  service_connection-returns reads ws clock c s s' =
      serve_buffer-returns ws clock (read_all reads c.read_buf) c s s'
