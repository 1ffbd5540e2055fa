-- ===== src/Client/Login.antt =====
-- What a client with a password sends on a new connection.
use pg_resp.Prelude.{
  ◌≡◌, refl, ap, ◌∙◌, not, Option, none, some, List, [], ◌∷◌, ◌++◌, ◌⊎◌, inl, inr, Bytes, codes,
  if_intro,
}
use pg_resp.Proto.Command.{encode_command}
use pg_resp.Proto.Reply.{Reply, simple, error}
use pg_resp.Client.{
  IoError, Outcome, ok, err, Stream, Conn, Client, World, Dial, dial, dial_from, Texts, is_empty,
}
use pg_resp.Client.Commands.{
  after_write, after_flush, pop, round_trip, round_trip_on, auth_result, fresh, opened,
  ensure_connected, then_round_trip, attempt, log_sent, Call,
}

-- The log after a call: a result has both requests on it, in this order; an error has neither, the
-- first, or both.
abbrev pub Followed : Bytes → Bytes → World → Call Reply → Type 0
Followed a q w (cl, w', ok r) = w'.sent ≡ (w.sent ++ a ∷ []) ++ q ∷ []
Followed a q w (cl, w', err e) =
    (w'.sent ≡ w.sent) ⊎ (w'.sent ≡ w.sent ++ a ∷ []) ⊎ (w'.sent ≡ (w.sent ++ a ∷ []) ++ q ∷ [])

abbrev Once : {A : Type 0} → Bytes → World → Call A → Type 0
Once q w (cl, w', ok r) = w'.sent ≡ w.sent ++ q ∷ []
Once q w (cl, w', err e) = (w'.sent ≡ w.sent) ⊎ (w'.sent ≡ w.sent ++ q ∷ [])

Once-logged :
    {A : Type 0} (q : Bytes) (cl : Client) (w w' : World) (o : Outcome A)
    → w'.sent ≡ w.sent ++ q ∷ []
    → Once q w (cl, w', o)
Once-logged q cl w w' (ok r) h = h
Once-logged q cl w w' (err e) h = inr h

abbrev written : Client → Conn × World × Outcome Reply → Call Reply
written cl (c, w, o) = (record cl { conn = some c }, w, o)

write-Once :
    (x : Texts) (q : Bytes) (cl : Client) (c : Conn) (w : World)
    (p : List (Option IoError) × Option IoError)
    → Once q w (written cl (after_write x q c w p))
write-Once x q cl c w (ws, some e) = inl refl
write-Once x q cl c w (ws, none) =
    let (c', o) = after_flush x c (pop ws) in
    Once-logged q (record cl { conn = some c' }) w (log_sent q w) o refl

round_trip-Once :
    (x : Texts) (args : List Bytes) (cl : Client) (w : World) (c : Option Conn)
    → Once (encode_command args) w (round_trip_on x args cl w c)
round_trip-Once x args cl w none = inl refl
round_trip-Once x args cl w (some c) =
    if_intro (λ r. Once (encode_command args) w r) (not (is_empty c.read_buf)) (λ _. inl refl)
      (λ _. write-Once x (encode_command args) cl c w (pop c.stream.writes))

auth-Once :
    (x : Texts) (q : Bytes) (w : World) (r : Call Reply) → Once q w r → Once q w (auth_result x r)
auth-Once x q w (cl, w', ok (simple s)) h = h
auth-Once x q w (cl, w', ok (error s)) h = inr h
auth-Once x q w (cl, w', ok (Reply.integer n)) h = inr h
auth-Once x q w (cl, w', ok (Reply.bulk b)) h = inr h
auth-Once x q w (cl, w', ok (Reply.array items)) h = inr h
auth-Once x q w (cl, w', ok Reply.null_array) h = inr h
auth-Once x q w (cl, w', err e) h = h

Followed-Once :
    (a q : Bytes) (w w' : World) (r : Call Reply)
    → w'.sent ≡ w.sent ++ a ∷ []
    → Once q w' r
    → Followed a q w r
Followed-Once a q w w' (cl, v, ok r) h k = k ∙ ap (λ s. s ++ q ∷ []) h
Followed-Once a q w w' (cl, v, err e) h (inl k) = inr (inl (k ∙ h))
Followed-Once a q w w' (cl, v, err e) h (inr k) = inr (inr (k ∙ ap (λ s. s ++ q ∷ []) h))

then-Followed :
    (x : Texts) (args : List Bytes) (a : Bytes) (w : World) (r : Call Unit)
    → Once a w r
    → Followed a (encode_command args) w (then_round_trip x args r)
then-Followed x args a w (cl, w', ok u) h =
    Followed-Once a (encode_command args) w w' (round_trip x args cl w') h
      (round_trip-Once x args cl w' cl.conn)
then-Followed x args a w (cl, w', err e) (inl h) = inl h
then-Followed x args a w (cl, w', err e) (inr h) = inr (inl h)

abbrev pub login : Bytes → Bytes
login password = encode_command (codes "AUTH" ∷ password ∷ [])

Once-from :
    {A : Type 0} (q : Bytes) (w w' : World) (r : Call A)
    → w'.sent ≡ w.sent
    → Once q w' r
    → Once q w r
Once-from q w w' (cl, v, ok a) h k = k ∙ ap (λ s. s ++ q ∷ []) h
Once-from q w w' (cl, v, err e) h (inl k) = inl (k ∙ h)
Once-from q w w' (cl, v, err e) h (inr k) = inr (k ∙ ap (λ s. s ++ q ∷ []) h)

opened-Once :
    (x : Texts) (password : Bytes) (cl : Client) (w : World) (d : World × Outcome Stream)
    → d.0.sent ≡ w.sent
    → Once (login password) w (opened x (record cl { password = some password }) d)
opened-Once x password cl w (w', err e) h = inl h
opened-Once x password cl w (w', ok stream) h =
    let cl' = record cl { password = some password; conn = some (fresh stream) } in
    let args = codes "AUTH" ∷ password ∷ [] in
    let q = login password in
    let call = round_trip x args cl' w' in
    let called = round_trip-Once x args cl' w' (some (fresh stream)) in
    Once-from q w w' (auth_result x call) h (auth-Once x q w' call called)

dial-sent : (ds : List Dial) (log : List Bytes) → (dial_from ds log).0.sent ≡ log
dial-sent [] log = refl
dial-sent (d ∷ ds) log = refl

abbrev pub logged_out : Bytes → Client → Client
logged_out password cl = record cl { password = some password; conn = none }

-- With a password and no connection the request is sent only behind an AUTH on the new connection,
-- which comes first on the wire; a reply is handed back only when both were sent.
pub attempt-login :
    (x : Texts) (args : List Bytes) (password : Bytes) (cl : Client) (w : World)
    → Followed (login password) (encode_command args) w (attempt x args (logged_out password cl) w)
unfolding attempt ensure_connected
attempt-login x args password cl w =
    let cl' = logged_out password cl in
    then-Followed x args (login password) w (opened x cl' (dial w))
      (opened-Once x password cl' w (dial w) (dial-sent w.dials w.sent))
