-- ===== src/Client/Commands.antt =====
-- The calls of the RESP client (crates/resp-client/src/lib.rs): connect and authenticate, one round
-- trip, and `command` with its retry.

use pg_resp.Prelude.{
  Bool, true, false, not, ◌&&◌, Option, none, some, List, [], ◌∷◌, ◌++◌, Bytes, codes, drop,
  is_some, if◌then◌else◌,
}
use pg_resp.Proto.Command.{encode_command}
use pg_resp.Proto.Reply.{Reply, simple, ReplyOutcome, complete, parse_reply}
use pg_resp.Client.{
  IoError, ClientError, connect, io, timeout, closed, protocol, server, auth, Outcome, ok, err,
  is_fatal_to_connection, ReadResult, got, failed, Stream, Conn, Client, disconnect, World, dial,
  Texts, is_empty, map_io, reply_result,
}

abbrev pub Reading : Type 0
Reading = List ReadResult × Bytes × Outcome Reply

-- What the parser finds in the buffer; `more` is the read that an incomplete reply waits for.
unfoldable pub judge : Texts → List ReadResult → Bytes → Reading → ReplyOutcome → Reading
judge x reads buf more (complete reply consumed) = (reads, drop consumed buf, reply_result x reply)
judge x reads buf more (ReplyOutcome.invalid msg) = (reads, buf, err (protocol msg))
judge x reads buf more ReplyOutcome.incomplete = more

abbrev pub closed_early : Bytes → ClientError
closed_early buf =
    if is_empty buf then closed else protocol (codes "server closed the connection mid-reply")

abbrev pub after_read : Texts → (Bytes → Reading) → ReadResult → List ReadResult → Bytes → Reading
after_read x next (got []) rs buf = (rs, buf, err (closed_early buf))
after_read x next (got (b ∷ bs)) rs buf = next (buf ++ b ∷ bs)
after_read x next (failed e) rs buf = (rs, buf, err (map_io x (not (is_empty buf)) e))

-- The loop of `round_trip`: the reads that are left, the buffer, and the result.
unfoldable pub read_reply : Texts → List ReadResult → Bytes → Reading
read_reply x [] buf = judge x [] buf ([], buf, err timeout) (parse_reply buf)
read_reply x (r ∷ rs) buf =
    judge x (r ∷ rs) buf (after_read x (read_reply x rs) r rs buf) (parse_reply buf)

abbrev pub pop : List (Option IoError) → List (Option IoError) × Option IoError
pop [] = ([], none)
pop (r ∷ rs) = (rs, r)

abbrev pub with_writes : List (Option IoError) → Conn → Conn
with_writes ws c = record c { stream = record { writes = ws; reads = c.stream.reads } }

abbrev pub answered : List (Option IoError) → Reading → Conn × Outcome Reply
answered ws (reads, buf, o) =
    (record { stream = record { writes = ws; reads = reads }; read_buf = buf }, o)

abbrev pub after_flush :
    Texts → Conn → List (Option IoError) × Option IoError → Conn × Outcome Reply
after_flush x c (ws, some e) = (with_writes ws c, err (map_io x false e))
after_flush x c (ws, none) = answered ws (read_reply x c.stream.reads c.read_buf)

abbrev pub log_sent : Bytes → World → World
log_sent request w = record w { sent = w.sent ++ request ∷ [] }

abbrev pub after_write :
    Texts
    → Bytes
    → Conn
    → World
    → List (Option IoError) × Option IoError
    → Conn × World × Outcome Reply
after_write x request c w (ws, some e) = (with_writes ws c, w, err (map_io x false e))
after_write x request c w (ws, none) =
    let (c', o) = after_flush x c (pop ws) in (c', log_sent request w, o)

abbrev pub Call : Type 0 → Type 0
Call A = Client × World × Outcome A

abbrev pub leftover : ClientError
leftover =
    protocol (codes "unexpected leftover bytes from a previous reply (stream desynchronized)")

abbrev pub round_trip_on : Texts → List Bytes → Client → World → Option Conn → Call Reply
round_trip_on x args cl w none = (cl, w, err (protocol (codes "not connected")))
round_trip_on x args cl w (some c) =
    if not (is_empty c.read_buf)
    then (cl, w, err leftover)
    else let (c', w', o) = after_write x (encode_command args) c w (pop c.stream.writes) in
      (record cl { conn = some c' }, w', o)

abbrev pub round_trip : Texts → List Bytes → Client → World → Call Reply
round_trip x args cl w = round_trip_on x args cl w cl.conn

abbrev pub auth_error : ClientError → ClientError
auth_error (server msg) = auth msg
auth_error e = e

-- How the reply to AUTH is read.
abbrev pub auth_result : Texts → Call Reply → Call Unit
auth_result x (cl, w, ok (simple s)) = (cl, w, ok tt)
auth_result x (cl, w, ok other) =
    (disconnect cl, w, err (auth (codes "unexpected AUTH reply: " ++ x.debug_reply other)))
auth_result x (cl, w, err e) = (disconnect cl, w, err (auth_error e))

abbrev pub authenticate : Texts → Option Bytes → Client → World → Call Unit
authenticate x none cl w = (cl, w, ok tt)
authenticate x (some password) cl w =
    auth_result x (round_trip x (codes "AUTH" ∷ password ∷ []) cl w)

abbrev pub fresh : Stream → Conn
fresh stream = record { stream = stream; read_buf = [] }

abbrev pub opened : Texts → Client → World × Outcome Stream → Call Unit
opened x cl (w, err e) = (cl, w, err e)
opened x cl (w, ok stream) = authenticate x cl.password (record cl { conn = some (fresh stream) }) w

unfoldable pub ensure_connected : Texts → Client → World → Call Unit
ensure_connected x cl w = if is_some cl.conn then (cl, w, ok tt) else opened x cl (dial w)

abbrev pub then_round_trip : Texts → List Bytes → Call Unit → Call Reply
then_round_trip x args (cl, w, ok u) = round_trip x args cl w
then_round_trip x args (cl, w, err e) = (cl, w, err e)

unfoldable pub attempt : Texts → List Bytes → Client → World → Call Reply
attempt x args cl w = then_round_trip x args (ensure_connected x cl w)

abbrev pub discard : ClientError → Client → Client
discard e cl = if is_fatal_to_connection e then disconnect cl else cl

abbrev pub is_retryable : ClientError → Bool
is_retryable (io e) = true
is_retryable closed = true
is_retryable (connect e) = true
is_retryable e = false

abbrev pub or_retry : Texts → List Bytes → Bool → Call Reply → Call Reply
or_retry x args was_reused (cl, w, ok r) = (cl, w, ok r)
or_retry x args was_reused (cl, w, err e) =
    if was_reused && is_retryable e
    then attempt x args (discard e cl) w
    else (discard e cl, w, err e)

unfoldable pub command : Texts → List Bytes → Client → World → Call Reply
command x args cl w = or_retry x args (is_some cl.conn) (attempt x args cl w)

abbrev pub or_discard : Call Reply → Call Reply
or_discard (cl, w, ok r) = (cl, w, ok r)
or_discard (cl, w, err e) = (discard e cl, w, err e)

unfoldable pub command_no_retry : Texts → List Bytes → Client → World → Call Reply
command_no_retry x args cl w = or_discard (attempt x args cl w)

-- Any reply is a sign of life.
abbrev pub alive : Outcome Reply → Outcome Unit
alive (ok r) = ok tt
alive (err (server msg)) = ok tt
alive (err e) = err e

unfoldable pub probe : Texts → Client → World → Call Unit
probe x cl w = let (cl', w', o) = command x (codes "PING" ∷ []) cl w in (cl', w', alive o)
