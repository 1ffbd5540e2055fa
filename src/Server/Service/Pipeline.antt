-- ===== src/Server/Service/Pipeline.antt =====
-- A pipeline of requests is a conversation: each is dispatched in turn and answered in turn.
use pg_resp.Prelude.{
  ℕ, zero, suc, ◌≤◌, ◌<◌, ◌≡◌, refl, sym, ap, ◌∙◌, arith, false, Option, List, [], ◌∷◌, ◌++◌,
  append_assoc, append-nil, Bytes, All, length, length-append, drop-append,
}
use pg_resp.Proto.Frame.{max_array_len}
use pg_resp.Proto.Command.{ParseOutcome, parse_command, encode_command, encode_command_into}
use pg_resp.Proto.Reply.{Reply, to_bytes, write_to}
use pg_resp.Proto.RoundTrip.{Small, parse_command-encode_command}
use pg_resp.Store.Types.{Store}
use pg_resp.Dispatch.Runtime.{Runtime, ConnState, Answer, reply, panic}
use pg_resp.Dispatch.Run.{dispatch}
use pg_resp.Server.Conn.{Conn}
use pg_resp.Server.Service.{
  Tick, context, later, is_quit, Processed, stopped, panicked, consume, answer, handle, process,
}

-- What the requests put on the wire, and what state they leave; or the store that a panic left.
pub data Talk : Type 0 where
  said : Bytes → ConnState → Store → Talk
  died : Store → Talk

abbrev pub before : Bytes → Talk → Talk
before b (said bs conn s) = said (b ++ bs) conn s
before b (died s) = died s

abbrev pub go_on : (ConnState → Store → Talk) → Store × ConnState × Answer → Talk
go_on k (s, conn, reply r) = before (to_bytes r) (k conn s)
go_on k (s, conn, panic) = died s

abbrev pub IsRequest : List Bytes → Type 0
IsRequest [] = ⊥
IsRequest (name ∷ args) =
    (is_quit name ≡ false) × (length (name ∷ args) ≤ max_array_len) × Small (name ∷ args)

abbrev pub encode_all : List (List Bytes) → Bytes
encode_all [] = []
encode_all (cmd ∷ cmds) = encode_command cmd ++ encode_all cmds

-- The connection behind the conversation, with `tail` still to be read.
abbrev pub told : Conn → Bytes → Talk → Processed
told c tail (said bs conn s) =
    stopped (record c { read_buf = tail; write_buf = c.write_buf ++ bs; conn_state = conn }) s
told c tail (died s) = panicked s

abbrev spoken : Conn → Reply → ConnState → Conn
spoken c r conn = record c { write_buf = c.write_buf ++ to_bytes r; conn_state = conn }

told-before :
    (c : Conn) (tail : Bytes) (r : Reply) (conn : ConnState) (t : Talk)
    → told (spoken c r conn) tail t ≡ told c tail (before (to_bytes r) t)
told-before c tail r conn (said bs conn' s) =
    ap (λ w. stopped (record c { read_buf = tail; write_buf = w; conn_state = conn' }) s)
      (append_assoc c.write_buf (to_bytes r) bs)
told-before c tail r conn (died s) = refl

answer-go_on :
    (next : Conn → Store → Processed) (k : ConnState → Store → Talk) (more tail : Bytes) (c : Conn)
    (r : Store × ConnState × Answer)
    → ((c' : Conn) (s : Store)
        → next (record c' { read_buf = more }) s ≡ told c' tail (k c'.conn_state s))
    → answer next false (record c { read_buf = more }) r ≡ told c tail (go_on k r)
unfolding answer write_to
answer-go_on next k more tail c (s, conn, reply r) go =
    go (spoken c r conn) s ∙ told-before c tail r conn (k conn s)
answer-go_on next k more tail c (s, conn, panic) go = refl

encode-length : (cmds : List (List Bytes)) → length cmds ≤ length (encode_all cmds)
unfolding encode_command encode_command_into
encode-length [] = omega arith
encode-length (cmd ∷ cmds) =
    omega (arith, encode-length cmds, length-append (encode_command cmd) (encode_all cmds))

module _ (rt : Runtime) (password : Option Bytes) where
  unfoldable pub converse : (ℕ → Tick) → List (List Bytes) → ConnState → Store → Talk
  converse clock [] conn s = said [] conn s
  converse clock (cmd ∷ cmds) conn s =
      go_on (converse (later clock) cmds) (dispatch rt (context password (clock 0)) cmd s conn)

  handle-request :
      (next : Conn → Store → Processed) (t : Tick) (cmd : List Bytes) (more : Bytes) (c : Conn)
      (s : Store)
      → IsRequest cmd
      → handle rt password next t
          (parse_command (encode_command cmd ++ more))
          (record c { read_buf = encode_command cmd ++ more })
          s
        ≡ answer next false
            (record c { read_buf = more })
            (dispatch rt (context password t) cmd s c.conn_state)
  unfolding handle
  handle-request next t [] more c s h = absurd h
  handle-request next t (name ∷ args) more c s (loud, few, small) =
      let cmd = name ∷ args in
      let c' = record c { read_buf = encode_command cmd ++ more } in
      ap (λ o. handle rt password next t o c' s) (parse_command-encode_command cmd more few small)
      ∙ ap
          (λ q.
            answer next q (consume (length (encode_command cmd)) c')
              (dispatch rt (context password t) cmd s c.conn_state))
          loud
      ∙ ap
          (λ b.
            answer next false (record c { read_buf = b })
              (dispatch rt (context password t) cmd s c.conn_state))
          (drop-append (encode_command cmd) more)

  process-converse :
      (f : ℕ) (clock : ℕ → Tick) (cmds : List (List Bytes)) (tail : Bytes) (c : Conn) (s : Store)
      → All IsRequest cmds
      → parse_command tail ≡ ParseOutcome.incomplete
      → length cmds < f
      → process rt password f clock (record c { read_buf = encode_all cmds ++ tail }) s
        ≡ told c tail (converse clock cmds c.conn_state s)
  unfolding process converse handle
  process-converse zero clock cmds tail c s h e p = absurd (omega arith)
  process-converse (suc f) clock [] tail c s h e p =
      ap
        (λ o.
          handle rt password (process rt password f (later clock)) (clock 0) o
            (record c { read_buf = tail }) s)
        e
      ∙ ap (λ w. stopped (record c { read_buf = tail; write_buf = w }) s)
          (sym (append-nil c.write_buf))
  process-converse (suc f) clock (cmd ∷ cmds) tail c s (h, hs) e p =
      let next = process rt password f (later clock) in
      let more = encode_all cmds ++ tail in
      ap (λ b. handle rt password next (clock 0) (parse_command b) (record c { read_buf = b }) s)
        (append_assoc (encode_command cmd) (encode_all cmds) tail)
      ∙ handle-request next (clock 0) cmd more c s h
      ∙ answer-go_on next (converse (later clock) cmds) more tail c
          (dispatch rt (context password (clock 0)) cmd s c.conn_state)
          (λ c' s'. process-converse f (later clock) cmds tail c' s' hs e (omega arith))

  -- A buffer that holds requests, none of them QUIT, and then bytes that are no whole request: the
  -- loop dispatches each request in turn on the state that the one before it left, appends the replies
  -- in that order, and leaves the other bytes in the buffer. A panic ends it and keeps its store.
  pub process-pipeline :
      (clock : ℕ → Tick) (cmds : List (List Bytes)) (tail : Bytes) (c : Conn) (s : Store)
      → All IsRequest cmds
      → parse_command tail ≡ ParseOutcome.incomplete
      → process rt password
          (suc (length (encode_all cmds ++ tail)))
          clock
          (record c { read_buf = encode_all cmds ++ tail })
          s
        ≡ told c tail (converse clock cmds c.conn_state s)
  process-pipeline clock cmds tail c s h e =
      process-converse (suc (length (encode_all cmds ++ tail))) clock cmds tail c s h e
        (omega (arith, encode-length cmds, length-append (encode_all cmds) tail))
