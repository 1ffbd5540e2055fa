-- ===== src/Sql/Delivery.antt =====
-- `apply_queue` with the backend's client (crates/pg_resp/src/sql.rs, crates/resp-client/src/lib.rs).
use pg_resp.Prelude.{
  ℕ, suc, ◌≤◌, ◌≡◌, refl, ap, sym, ◌∙◌, Option, none, some, List, [], ◌∷◌, ◌++◌, append_assoc,
  append-nil, Bytes, length,
}
use pg_resp.Proto.Command.{encode_command}
use pg_resp.Proto.Reply.{Reply, simple, error, to_bytes, max_reply_depth}
use pg_resp.Proto.Replies.{depth, Sendable}
use pg_resp.Store.Types.{wrapping_add}
use pg_resp.Client.{
  IoError, Outcome, ok, err, ReadResult, got, Client, World, Texts, reply_result, show_client_error,
}
use pg_resp.Client.Commands.{command, log_sent}
use pg_resp.Client.Retry.{holding}
use pg_resp.Client.Answers.{command-to_bytes}
use pg_resp.Sql.Queue.{
  QueuedItem, Sent, replied, failed, Tally, command_of, send_all, tally, apply_queue,
}
use pg_resp.Sql.Queue.Laws.{send_all-replied}

abbrev pub sent_of : Texts → Outcome Reply → Sent
sent_of x (ok r) = replied
sent_of x (err e) = failed (show_client_error x e)

-- `client.command(&args)` for the queue, on the client that the backend has.
unfoldable pub deliver : Texts → List Bytes → Client × World → (Client × World) × Sent
deliver x args (cl, w) = let (cl', w', o) = command x args cl w in ((cl', w'), sent_of x o)

-- A reply that is no error, within what the protocol carries.
abbrev pub Accepts : Reply → Type 0
Accepts (error msg) = ⊥
Accepts r = (depth r ≤ suc max_reply_depth) × Sendable r

-- Writes with the server's answers to them.
abbrev pub Exchange : Type 0
Exchange = List (QueuedItem × Reply)

abbrev pub items : Exchange → List QueuedItem
items [] = []
items ((item, r) ∷ es) = item ∷ items es

abbrev pub room : Exchange → List (Option IoError)
room [] = []
room (e ∷ es) = none ∷ none ∷ room es

abbrev pub arriving : Exchange → List ReadResult
arriving [] = []
arriving ((item, r) ∷ es) = got (to_bytes r) ∷ arriving es

abbrev pub requests : Exchange → List Bytes
requests [] = []
requests ((item, r) ∷ es) = encode_command (command_of item.op) ∷ requests es

abbrev pub AllAccepted : Exchange → Type 0
AllAccepted [] = Unit
AllAccepted ((item, r) ∷ es) = Accepts r × AllAccepted es

Accepts-fits : (r : Reply) → Accepts r → (depth r ≤ suc max_reply_depth) × Sendable r
Accepts-fits (error msg) h = absurd h
Accepts-fits (simple s) h = h
Accepts-fits (Reply.integer n) h = h
Accepts-fits (Reply.bulk b) h = h
Accepts-fits (Reply.array rs) h = h
Accepts-fits Reply.null_array h = h

accepted_replied : (x : Texts) (r : Reply) → Accepts r → sent_of x (reply_result x r) ≡ replied
accepted_replied x (error msg) h = absurd h
accepted_replied x (simple s) h = refl
accepted_replied x (Reply.integer n) h = refl
accepted_replied x (Reply.bulk b) h = refl
accepted_replied x (Reply.array rs) h = refl
accepted_replied x Reply.null_array h = refl

module _ (x : Texts) (cl : Client) where
  deliver_one :
      (args : List Bytes) (r : Reply) (ws : List (Option IoError)) (rs : List ReadResult)
      (w : World)
      → Accepts r
      → deliver x args (holding cl (none ∷ none ∷ ws) (got (to_bytes r) ∷ rs), w)
        ≡ ((holding cl ws rs, log_sent (encode_command args) w), replied)
  unfolding deliver
  deliver_one args r ws rs w h =
      let (deep, fit) = Accepts-fits r h in
      ap (λ c. ((c.0, c.1), sent_of x c.2)) (command-to_bytes x args cl w ws r rs deep fit)
      ∙ ap (λ s. ((holding cl ws rs, log_sent (encode_command args) w), s)) (accepted_replied x r h)

  send_all-requests :
      (es : Exchange) (t : Tally) (w : World)
      → AllAccepted es
      → send_all (deliver x) (items es) t (holding cl (room es) (arriving es), w)
        ≡ ((holding cl [] [], record w { sent = w.sent ++ requests es }), some t)
  unfolding send_all
  send_all-requests [] t w h =
      ap (λ l. ((holding cl [] [], record w { sent = l }), some t)) (sym (append-nil w.sent))
  send_all-requests ((item, r) ∷ es) t w (h, hs) =
      let q = encode_command (command_of item.op) in
      let one = deliver_one (command_of item.op) r (room es) (arriving es) w h in
      send_all-replied (deliver x) item (items es) t _ _ one
      ∙ send_all-requests es t (log_sent q w) hs
      ∙ ap (λ l. ((holding cl [] [], record w { sent = l }), some t))
          (append_assoc w.sent (q ∷ []) (requests es))

  -- After a commit the queued writes go out in the order they were queued, each once, when the held
  -- connection answers each with a reply that is no error; none is reported as lost.
  pub apply_queue-requests :
      (es : Exchange) (w : World) (lost : ℕ)
      → AllAccepted es
      → apply_queue (deliver x) (items es) (holding cl (room es) (arriving es), w) lost ≡ (
        (holding cl [] [], record w { sent = w.sent ++ requests es }),
        record { count = 0; first_error = none },
        wrapping_add lost 0,
      )
  unfolding apply_queue
  apply_queue-requests es w lost h =
      ap
        (λ p.
          let t = tally (deliver x) (length (items es)) p.1 in (p.0, t, wrapping_add lost t.count))
        (send_all-requests es (record { count = 0; first_error = none }) w h)
