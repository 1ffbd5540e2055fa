-- ===== src/Sql/Surface/Laws.antt =====
-- What the answer of a read says of the cache.
use pg_resp.Prelude.{
  ◌≡◌, refl, ap, ◌∙◌, arith, Bool, true, false, not, ◌&&◌, Option, none, some, List, [], ◌∷◌, Bytes,
  codes, if_intro,
}
use pg_resp.Proto.Command.{encode_command}
use pg_resp.Proto.Reply.{Reply, bulk, to_bytes, simple, error}
use pg_resp.Proto.Replies.{Sendable}
use pg_resp.Client.{
  ClientError, Outcome, ok, err, IoError, got, ReadResult, Client, World, Texts, connect, io,
  timeout, closed, protocol, server, auth,
}
use pg_resp.Client.Commands.{command, log_sent}
use pg_resp.Client.Retry.{holding}
use pg_resp.Client.Answers.{command-to_bytes}
use pg_resp.Sql.Surface.{value, read_error, answered, ask, slot_client, bulk_to_text, get, has_nul}

read_error-value :
    {A : Type 0} (x : Texts) (e : ClientError) (a : A) → (read_error x e ≡ value a) → ⊥
read_error-value x (connect e) a p = cc
read_error-value x (io e) a p = cc
read_error-value x timeout a p = cc
read_error-value x closed a p = cc
read_error-value x (protocol msg) a p = cc
read_error-value x (server msg) a p = cc
read_error-value x (auth msg) a p = cc

text-null :
    (x : Texts) (is_utf8 : Bytes → Bool) (key bytes : Bytes)
    → (bulk_to_text x is_utf8 key (bulk (some bytes)) ≡ value none)
    → ⊥
text-null x is_utf8 key bytes =
    if_intro (λ s. s ≡ value none → ⊥) (is_utf8 bytes && not (has_nul bytes)) (λ _ p. cc)
      (λ _ p. cc)

answered-null :
    (x : Texts) (is_utf8 : Bytes → Bool) (key : Bytes) (r : Client × World × Outcome Reply)
    → (answered x (bulk_to_text x is_utf8 key) r).2 ≡ value none
    → r.2 ≡ ok (bulk none)
answered-null x is_utf8 key (cl, w, ok (bulk none)) p = refl
answered-null x is_utf8 key (cl, w, ok (bulk (some bytes))) p =
    absurd (text-null x is_utf8 key bytes p)
answered-null x is_utf8 key (cl, w, ok (simple s)) p = cc
answered-null x is_utf8 key (cl, w, ok (error s)) p = cc
answered-null x is_utf8 key (cl, w, ok (Reply.integer n)) p = cc
answered-null x is_utf8 key (cl, w, ok (Reply.array items)) p = cc
answered-null x is_utf8 key (cl, w, ok Reply.null_array) p = cc
answered-null x is_utf8 key (cl, w, err e) p = absurd (read_error-value x e none p)

-- `resp.get` answers NULL only when `command` has returned the null bulk string: a cache that is not
-- reached, an error reply and a value that is no text are errors, never NULL.
get-null :
    (x : Texts) (target : Bytes × Option Bytes) (is_utf8 : Bytes → Bool) (key : Bytes)
    (slot : Option Client) (w : World)
    → (get x target is_utf8 key slot w).2 ≡ value none
    → (command x (codes "GET" ∷ key ∷ []) (slot_client target slot) w).2 ≡ ok (bulk none)
unfolding get ask
get-null x target is_utf8 key slot w p =
    answered-null x is_utf8 key (command x (codes "GET" ∷ key ∷ []) (slot_client target slot) w) p

-- A text that the server sends for the key is what `resp.get` answers, on a connection that is held;
-- the connection is kept for the next call.
pub get-to_bytes :
    (x : Texts) (target : Bytes × Option Bytes) (is_utf8 : Bytes → Bool) (key v : Bytes)
    (cl : Client) (w : World) (ws : List (Option IoError)) (rs : List ReadResult)
    → is_utf8 v ≡ true
    → has_nul v ≡ false
    → Sendable (bulk (some v))
    → get x target is_utf8 key
        (some (holding cl (none ∷ none ∷ ws) (got (to_bytes (bulk (some v))) ∷ rs)))
        w
      ≡ (
        some (holding cl ws rs),
        log_sent (encode_command (codes "GET" ∷ key ∷ [])) w,
        value (some v),
      )
unfolding get ask
get-to_bytes x target is_utf8 key v cl w ws rs h k fit =
    ap (answered x (bulk_to_text x is_utf8 key))
      (command-to_bytes x (codes "GET" ∷ key ∷ []) cl w ws (bulk (some v)) rs (omega arith) fit)
    ∙ rw (h, k) refl
