-- ===== src/Server/Service/Chunks.antt =====
-- How the bytes of a connection are cut into reads makes no difference to what is run.
use pg_resp.Prelude.{
  ℕ, zero, suc, ◌≤◌, ◌<◌, ◌≡◌, refl, sym, ap, arith, true, false, Bool, Option, List, [], ◌∷◌, ◌++◌,
  Bytes, length, length-append, length-drop, drop,
}
use mathlib.Core.Path.{subst}
use pg_resp.Proto.Command.{ParseOutcome, complete, parse_command}
use pg_resp.Proto.Progress.{parse_command-consumed}
use pg_resp.Proto.Stable.{parse_command-append, drop-longer}
use pg_resp.Store.Types.{Store}
use pg_resp.Dispatch.Runtime.{Runtime, ConnState, Answer, reply, panic}
use pg_resp.Dispatch.Run.{dispatch}
use pg_resp.Server.Conn.{Conn}
use pg_resp.Server.Service.{
  Tick, context, later, is_quit, Processed, stopped, panicked, unfinished, consume, push, answer,
  handle, process,
}
use pg_resp.Server.Service.Fuel.{process_fuel}

-- `more` has come behind what the connection has buffered.
abbrev pub receive : Bytes → Conn → Conn
receive more c = record c { read_buf = c.read_buf ++ more }

-- The whole requests, blank ones too, at the front of a buffer.
abbrev pub counted : (Bytes → ℕ) → Bytes → ParseOutcome → ℕ
counted rest buf (complete args n) = suc (rest (drop n buf))
counted rest buf ParseOutcome.incomplete = 0
counted rest buf (ParseOutcome.invalid msg) = 0

unfoldable pub requests_in : ℕ → Bytes → ℕ
requests_in zero buf = 0
requests_in (suc f) buf = counted (requests_in f) buf (parse_command buf)

abbrev pub requests_of : Bytes → ℕ
requests_of buf = requests_in (suc (length buf)) buf

-- The readings of the clocks from the `k`th on.
abbrev pub from : ℕ → (ℕ → Tick) → ℕ → Tick
from zero clock = clock
from (suc k) clock = from k (later clock)

module _ (rt : Runtime) (password : Option Bytes) where
  -- The loop on all that is buffered.
  abbrev pub process_all : (ℕ → Tick) → Conn → Store → Processed
  process_all clock c s = process rt password (suc (length c.read_buf)) clock c s

  -- `more`, come before the loop stopped as in `p` after `k` requests, would have been run from there
  -- on.
  abbrev Resumes : Bytes → (ℕ → Tick) → ℕ → Processed → Processed → Type 0
  Resumes more clock k (stopped c s) q =
      c.close_after_flush ≡ false → q ≡ process_all (from k clock) (receive more c) s
  Resumes more clock k (panicked s) q = q ≡ panicked s
  Resumes more clock k (unfinished c s) q = Unit

  Resumes-later :
      (more : Bytes) (clock : ℕ → Tick) (k : ℕ) (p q : Processed)
      → Resumes more (later clock) k p q
      → Resumes more clock (suc k) p q
  Resumes-later more clock k (stopped c s) q h = h
  Resumes-later more clock k (panicked s) q h = h
  Resumes-later more clock k (unfinished c s) q h = tt

  -- Two ways to go on, the second with `more` in the buffer, where the buffer is shorter than `size`.
  abbrev Goes :
      Bytes
      → (ℕ → Tick)
      → ℕ
      → (Bytes → ℕ)
      → (Conn → Store → Processed)
      → (Conn → Store → Processed)
      → Type 0
  Goes more clock size count next next' =
      (c : Conn) (s : Store)
      → length c.read_buf < size
      → Resumes more clock (count c.read_buf) (next c s) (next' (receive more c) s)

  answer-Resumes :
      (more : Bytes) (clock : ℕ → Tick) (size : ℕ) (count : Bytes → ℕ)
      (next next' : Conn → Store → Processed) (quit : Bool) (c : Conn)
      (r : Store × ConnState × Answer)
      → Goes more clock size count next next'
      → length c.read_buf < size
      → Resumes more clock
          (count c.read_buf)
          (answer next quit c r)
          (answer next' quit (receive more c) r)
  unfolding answer
  answer-Resumes more clock size count next next' true c (s, conn, reply r) go short = λ kept. cc
  answer-Resumes more clock size count next next' false c (s, conn, reply r) go short =
      go (record (push r c) { conn_state = conn }) s short
  answer-Resumes more clock size count next next' quit c (s, conn, panic) go short = refl

  consume-receive :
      (n : ℕ) (more : Bytes) (c : Conn)
      → n ≤ length c.read_buf
      → consume n (receive more c) ≡ receive more (consume n c)
  consume-receive n more c h = ap (λ b. record c { read_buf = b }) (drop-longer n c.read_buf more h)

  handle-Resumes :
      (more : Bytes) (clock : ℕ → Tick) (count : Bytes → ℕ) (next next' : Conn → Store → Processed)
      (o o' : ParseOutcome) (c : Conn) (s : Store)
      → o' ≡ parse_command (c.read_buf ++ more)
      → ((args : List Bytes) (n : ℕ)
          → o ≡ complete args n
          → (o' ≡ complete args n) × (0 < n) × (n ≤ length c.read_buf))
      → Goes more (later clock) (length c.read_buf) count next next'
      → (o ≡ ParseOutcome.incomplete
          → handle rt password next' (clock 0) o' (receive more c) s
            ≡ process_all clock (receive more c) s)
      → Resumes more clock
          (counted count c.read_buf o)
          (handle rt password next (clock 0) o c s)
          (handle rt password next' (clock 0) o' (receive more c) s)
  unfolding handle
  handle-Resumes more clock count next next' (complete [] n) o' c s read again go stop =
      let (same, some_n, within) = again [] n refl in
      let short : length (consume n c).read_buf < length c.read_buf =
        omega (arith, length-drop n c.read_buf, some_n, within) in
      let here =
        Resumes-later more clock (count (drop n c.read_buf)) _ _ (go (consume n c) s short) in
      rw (same, handle)
        (subst
          (λ d.
            Resumes more clock (suc (count (drop n c.read_buf))) (next (consume n c) s) (next' d s))
          (sym (consume-receive n more c within)) here)
  handle-Resumes more clock count next next' (complete (name ∷ args) n) o' c s read again go stop =
      let (same, some_n, within) = again (name ∷ args) n refl in
      let short : length (consume n c).read_buf < length c.read_buf =
        omega (arith, length-drop n c.read_buf, some_n, within) in
      let run = dispatch rt (context password (clock 0)) (name ∷ args) s c.conn_state in
      let here =
        answer-Resumes more (later clock) (length c.read_buf) count next next' (is_quit name)
          (consume n c) run go short in
      rw (same, handle)
        (subst
          (λ d.
            Resumes more clock (suc (count (drop n c.read_buf)))
              (answer next (is_quit name) (consume n c) run) (answer next' (is_quit name) d run))
          (sym (consume-receive n more c within))
          (Resumes-later more clock (count (drop n c.read_buf)) _ _ here))
  handle-Resumes more clock count next next' ParseOutcome.incomplete o' c s read again go stop =
      λ kept. stop refl
  handle-Resumes more clock count next next' (ParseOutcome.invalid msg) o' c s read again go stop =
      λ kept. cc

  process-Resumes :
      (more : Bytes) (f g : ℕ) (clock : ℕ → Tick) (c : Conn) (s : Store)
      → length c.read_buf < f
      → length (c.read_buf ++ more) < g
      → Resumes more clock
          (requests_in f c.read_buf)
          (process rt password f clock c s)
          (process rt password g clock (receive more c) s)
  unfolding process requests_in
  process-Resumes more zero g clock c s p q = absurd (omega arith)
  process-Resumes more (suc f) zero clock c s p q = absurd (omega arith)
  process-Resumes more (suc f) (suc g) clock c s p q =
      handle-Resumes more clock (requests_in f) (process rt password f (later clock))
        (process rt password g (later clock)) (parse_command c.read_buf)
        (parse_command (c.read_buf ++ more)) c s refl
        (λ args n e.
          let took = parse_command-consumed c.read_buf args n e in
          (parse_command-append c.read_buf more args n e, took.0, took.1))
        (λ c' s' short.
          process-Resumes more f g (later clock) c' s' (omega (arith, short, p)) (
            omega (arith, short, q, length-append c'.read_buf more, length-append c.read_buf more)))
        (λ e.
          (process_fuel rt password (suc g) (suc (length (c.read_buf ++ more))) clock
            (receive more c) s q (omega arith)).0)

  -- How the requests of a client are cut into reads makes no difference. Where the loop over the
  -- buffered requests has stopped and the connection is not to be closed, running it again with
  -- more bytes behind what is left gives what it gives with those bytes in the buffer from the
  -- start: the same connection, replies included, and the same store, or the same panic. The clocks
  -- are read on from where the requests that were in the buffer have left them.
  pub process-receive :
      (clock : ℕ → Tick) (c c' : Conn) (s s' : Store) (more : Bytes)
      → process_all clock c s ≡ stopped c' s'
      → c'.close_after_flush ≡ false
      → process_all clock (receive more c) s
        ≡ process_all (from (requests_of c.read_buf) clock) (receive more c') s'
  process-receive clock c c' s s' more e kept =
      let whole =
        process-Resumes more (suc (length c.read_buf)) (suc (length (c.read_buf ++ more))) clock c s
          (omega arith) (omega arith) in
      subst
        (λ p. Resumes more clock (requests_of c.read_buf) p (process_all clock (receive more c) s))
        e whole kept
