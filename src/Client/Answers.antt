-- ===== src/Client/Answers.antt =====
-- Which reply `command` hands back.
use pg_resp.Prelude.{
  suc, ◌≤◌, ◌≡◌, refl, ap, sym, ◌∙◌, arith, Bool, true, false, Option, none, some, List, [], ◌∷◌,
  Bytes, drop-all, length, append-nil,
}
use pg_resp.Proto.Command.{encode_command}
use pg_resp.Proto.Reply.{
  Reply, simple, error, to_bytes, max_reply_depth, complete, parse_reply, parse_reply_at,
}
use pg_resp.Proto.Replies.{depth, Sendable, parse_reply-to_bytes}
use pg_resp.Client.{
  IoError, timed_out, timeout, Outcome, err, ReadResult, got, failed, Stream, Client, World,
  connected, addresses, Texts, reply_result,
}
use pg_resp.Client.Commands.{
  judge, read_reply, attempt, ensure_connected, or_retry, command, log_sent, answered,
}
use pg_resp.Client.Retry.{holding}

read_whole :
    (x : Texts) (buf : Bytes) (r : Reply) (rs : List ReadResult)
    → parse_reply buf ≡ complete r (length buf)
    → read_reply x (got buf ∷ rs) [] ≡ (rs, [], reply_result x r)
unfolding read_reply judge parse_reply parse_reply_at
read_whole x [] r rs e = cc
read_whole x (b ∷ bs) r [] e =
    rw e (ap (λ d. ([], d, reply_result x r)) (drop-all (length (b ∷ bs)) (b ∷ bs) (omega arith)))
read_whole x (b ∷ bs) r (q ∷ rs) e =
    rw e
      (ap (λ d. (q ∷ rs, d, reply_result x r)) (drop-all (length (b ∷ bs)) (b ∷ bs) (omega arith)))

read_reply-to_bytes :
    (x : Texts) (r : Reply) (rs : List ReadResult)
    → depth r ≤ suc max_reply_depth
    → Sendable r
    → read_reply x (got (to_bytes r) ∷ rs) [] ≡ (rs, [], reply_result x r)
read_reply-to_bytes x r rs deep fit =
    read_whole x (to_bytes r) r rs
      (ap parse_reply (sym (append-nil (to_bytes r))) ∙ parse_reply-to_bytes r [] deep fit)

or_retry-reply :
    (x : Texts) (args : List Bytes) (reused : Bool) (cl : Client) (w : World) (r : Reply)
    → or_retry x args reused (cl, w, reply_result x r) ≡ (cl, w, reply_result x r)
or_retry-reply x args true cl w (error msg) = refl
or_retry-reply x args false cl w (error msg) = refl
or_retry-reply x args reused cl w (simple s) = refl
or_retry-reply x args reused cl w (Reply.integer n) = refl
or_retry-reply x args reused cl w (Reply.bulk b) = refl
or_retry-reply x args reused cl w (Reply.array items) = refl
or_retry-reply x args reused cl w Reply.null_array = refl

-- A reply that arrives in one read is the result, an error reply as `Server`; the request was sent
-- once, the buffer is empty again and the connection is kept.
pub command-to_bytes :
    (x : Texts) (args : List Bytes) (cl : Client) (w : World) (ws : List (Option IoError))
    (r : Reply) (rs : List ReadResult)
    → depth r ≤ suc max_reply_depth
    → Sendable r
    → command x args (holding cl (none ∷ none ∷ ws) (got (to_bytes r) ∷ rs)) w
      ≡ (holding cl ws rs, log_sent (encode_command args) w, reply_result x r)
unfolding command attempt ensure_connected
command-to_bytes x args cl w ws r rs deep fit =
    ap
      (λ p. or_retry x args true (
        record cl { conn = some (answered ws p).0 },
        log_sent (encode_command args) w,
        (answered ws p).1,
      ))
      (read_reply-to_bytes x r rs deep fit)
    ∙ or_retry-reply x args true (holding cl ws rs) (log_sent (encode_command args) w) r

-- A server that answers a request after the client's timeout.
abbrev pub late : Reply → Stream
late r = record {
  writes = none ∷ none ∷ none ∷ none ∷ [];
  reads = failed timed_out ∷ got (to_bytes r) ∷ [];
}

abbrev pub meets : Stream → World → World
meets s w = record w { dials = addresses (connected none none none s ∷ []) ∷ w.dials }

abbrev anonymous : Client → Client
anonymous cl = record cl { password = none }

stale_first :
    (x : Texts) (args : List Bytes) (cl : Client) (w : World) (r : Reply) (rs : List ReadResult)
    → command x args (holding (anonymous cl) [] (got [] ∷ rs)) (meets (late r) w) ≡ (
      holding (anonymous cl) (none ∷ none ∷ []) (got (to_bytes r) ∷ []),
      log_sent (encode_command args) (log_sent (encode_command args) w),
      err timeout,
    )
unfolding command attempt ensure_connected read_reply judge parse_reply parse_reply_at
stale_first x args cl w r rs = refl

abbrev pub stale : Texts → List Bytes → List Bytes → Client → World → Reply → Outcome Reply
stale x args next cl w r =
    let (cl', w', o) =
      command x args (holding (anonymous cl) [] (got [] ∷ [])) (meets (late r) w) in
    (command x next cl' w').2

-- The retry of `command` does not discard a connection that fails: when the kept connection is found
-- closed and the answer to the second try comes after the timeout, then the next command, whatever it
-- asks, is given that answer for its own.
pub command-stale :
    (x : Texts) (args next : List Bytes) (cl : Client) (w : World) (r : Reply)
    → depth r ≤ suc max_reply_depth
    → Sendable r
    → stale x args next cl w r ≡ reply_result x r
command-stale x args next cl w r deep fit =
    ap (λ c. (command x next c.0 c.1).2) (stale_first x args cl w r [])
    ∙ ap (λ c. c.2)
        (command-to_bytes x next (anonymous cl)
          (log_sent (encode_command args) (log_sent (encode_command args) w)) [] r [] deep fit)
