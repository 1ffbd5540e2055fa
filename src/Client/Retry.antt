-- ===== src/Client/Retry.antt =====
-- When `command` sends a request again, and what it sends.
use pg_resp.Prelude.{
  ℕ, ◌≡◌, refl, ap, Bool, true, false, Option, none, some, List, [], ◌∷◌, ◌++◌, Bytes,
}
use pg_resp.Proto.Command.{encode_command}
use pg_resp.Proto.Reply.{Reply, simple, error, ReplyOutcome, complete, parse_reply, parse_reply_at}
use pg_resp.Client.{
  IoError, timeout, Outcome, ok, err, ReadResult, got, failed, Client, World, Texts, map_io,
  reply_result,
}
use pg_resp.Client.Commands.{
  judge, Reading, read_reply, closed_early, attempt, ensure_connected, is_retryable, or_retry,
  command, log_sent, answered,
}

-- An outcome after which `command` does not try again.
abbrev Final : Outcome Reply → Type 0
Final (ok r) = Unit
Final (err e) = is_retryable e ≡ false

reply_result-Final : (x : Texts) (r : Reply) → Final (reply_result x r)
reply_result-Final x (error msg) = refl
reply_result-Final x (simple s) = tt
reply_result-Final x (Reply.integer n) = tt
reply_result-Final x (Reply.bulk b) = tt
reply_result-Final x (Reply.array items) = tt
reply_result-Final x Reply.null_array = tt

judge-Final :
    (x : Texts) (reads : List ReadResult) (buf : Bytes) (more : Reading) (o : ReplyOutcome)
    → Final more.2
    → Final (judge x reads buf more o).2
unfolding judge
judge-Final x reads buf more (complete r n) h = reply_result-Final x r
judge-Final x reads buf more (ReplyOutcome.invalid msg) h = refl
judge-Final x reads buf more ReplyOutcome.incomplete h = h

map_io-Final : (x : Texts) (e : IoError) → is_retryable (map_io x true e) ≡ false
map_io-Final x IoError.would_block = refl
map_io-Final x IoError.timed_out = refl
map_io-Final x (IoError.other text) = refl

read_reply-Final :
    (x : Texts) (reads : List ReadResult) (b : ℕ) (bs : Bytes)
    → Final (read_reply x reads (b ∷ bs)).2
unfolding read_reply
read_reply-Final x [] b bs =
    judge-Final x [] (b ∷ bs) ([], b ∷ bs, err timeout) (parse_reply (b ∷ bs)) refl
read_reply-Final x (got [] ∷ rs) b bs =
    judge-Final x (got [] ∷ rs) (b ∷ bs) (rs, b ∷ bs, err (closed_early (b ∷ bs)))
      (parse_reply (b ∷ bs)) refl
read_reply-Final x (got (d ∷ ds) ∷ rs) b bs =
    judge-Final x (got (d ∷ ds) ∷ rs) (b ∷ bs) (read_reply x rs (b ∷ bs ++ d ∷ ds))
      (parse_reply (b ∷ bs)) (read_reply-Final x rs b (bs ++ d ∷ ds))
read_reply-Final x (failed e ∷ rs) b bs =
    judge-Final x (failed e ∷ rs) (b ∷ bs) (rs, b ∷ bs, err (map_io x true e))
      (parse_reply (b ∷ bs)) (map_io-Final x e)

or_retry-Final :
    (x : Texts) (args : List Bytes) (reused : Bool) (cl : Client) (w : World) (o : Outcome Reply)
    → Final o
    → (or_retry x args reused (cl, w, o)).1 ≡ w
or_retry-Final x args reused cl w (ok r) h = refl
or_retry-Final x args false cl w (err e) h = refl
or_retry-Final x args true cl w (err e) h = rw h refl

abbrev pub holding : Client → List (Option IoError) → List ReadResult → Client
holding cl ws reads = record cl {
  conn = some (record { stream = record { writes = ws; reads = reads }; read_buf = [] });
}

-- Once a byte of the answer has arrived the request is not sent again, whatever comes after it: more
-- of the answer, a reset, the end of the stream, a timeout or bytes that are no RESP.
pub command-answered :
    (x : Texts) (args : List Bytes) (cl : Client) (w : World) (ws : List (Option IoError)) (b : ℕ)
    (bs : Bytes) (rs : List ReadResult)
    → (command x args (holding cl (none ∷ none ∷ ws) (got (b ∷ bs) ∷ rs)) w).1.sent
      ≡ w.sent ++ encode_command args ∷ []
unfolding command attempt ensure_connected read_reply judge parse_reply parse_reply_at
command-answered x args cl w ws b bs rs =
    ap (λ v. v.sent)
      (or_retry-Final x args true
        (record cl { conn = some (answered ws (read_reply x rs (b ∷ bs))).0 })
        (log_sent (encode_command args) w) (read_reply x rs (b ∷ bs)).2
        (read_reply-Final x rs b bs))
