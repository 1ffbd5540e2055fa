-- ===== src/Client/EndToEnd.antt =====
-- The client and the server together: a call is a dispatch on the server's store.
use pg_resp.Prelude.{
  ℕ, suc, ◌≤◌, ◌≡◌, refl, ap, sym, ◌∙◌, Option, none, List, [], ◌∷◌, ◌++◌, append-nil, Bytes,
  length,
}
use pg_resp.Proto.Command.{parse_command, ParseOutcome, encode_command}
use pg_resp.Proto.Reply.{Reply, to_bytes, max_reply_depth}
use pg_resp.Proto.Replies.{depth, Sendable}
use pg_resp.Store.Types.{Store}
use pg_resp.Dispatch.Runtime.{Runtime, ConnState, reply}
use pg_resp.Dispatch.Run.{dispatch}
use pg_resp.Server.Conn.{Conn}
use pg_resp.Server.Service.{Tick, context, process, stopped}
use pg_resp.Server.Service.Pipeline.{IsRequest, encode_all, go_on, told, converse, process-pipeline}
use pg_resp.Client.{ReadResult, got, IoError, Client, World, Texts, reply_result}
use pg_resp.Client.Commands.{command, log_sent}
use pg_resp.Client.Retry.{holding}
use pg_resp.Client.Answers.{command-to_bytes}

abbrev pub receives : Bytes → Conn → Conn
receives bytes c = record c { read_buf = bytes; write_buf = [] }

abbrev pub replies : Reply → ConnState → Conn → Conn
replies r conn c = record c { read_buf = []; write_buf = to_bytes r; conn_state = conn }

empty_incomplete : parse_command [] ≡ ParseOutcome.incomplete
unfolding parse_command
empty_incomplete = refl

module _ (rt : Runtime) (password : Option Bytes) where
  one_request :
      (clock : ℕ → Tick) (cmd : List Bytes) (c : Conn) (s s' : Store) (conn : ConnState) (r : Reply)
      → IsRequest cmd
      → dispatch rt (context password (clock 0)) cmd s c.conn_state ≡ (s', conn, reply r)
      → process rt password
          (suc (length (encode_command cmd)))
          clock
          (receives (encode_command cmd) c)
          s
        ≡ stopped (replies r conn c) s'
  unfolding converse
  one_request clock cmd c s s' conn r h e =
      let whole : encode_all (cmd ∷ []) ++ [] ≡ encode_command cmd =
        append-nil (encode_command cmd ++ []) ∙ append-nil (encode_command cmd) in
      ap (λ b. process rt password (suc (length b)) clock (receives b c) s) (sym whole)
      ∙ process-pipeline rt password clock (cmd ∷ []) [] (receives [] c) s (h, tt) empty_incomplete
      ∙ ap (λ d. told (receives [] c) [] (go_on (converse rt password (λ k. clock (suc k)) []) d)) e
      ∙ ap (λ b. stopped (record (replies r conn c) { write_buf = b }) s') (append-nil (to_bytes r))

  -- A call of `command` and the server together, on a connection that the client holds and whose
  -- buffers are empty on both sides, for a request within the limits that is not QUIT and that
  -- `dispatch` answers with a reply (it does not panic). The bytes that `command` writes make the
  -- server's loop dispatch the command on its store once and append that reply. If the socket takes
  -- the whole request and the reply comes back whole in one read, its lines hold no carriage
  -- return, its numbers are `i64`, its lengths are within the limits, and it nests at most 33
  -- levels deep (a reply that is no array counts for one), then `command` returns that reply, an
  -- error reply as `Server`, and nothing is left in its buffer.
  pub command-dispatch :
      (x : Texts) (clock : ℕ → Tick) (cmd : List Bytes) (c : Conn) (s s' : Store) (conn : ConnState)
      (r : Reply) (cl : Client) (w : World) (ws : List (Option IoError)) (rs : List ReadResult)
      → IsRequest cmd
      → dispatch rt (context password (clock 0)) cmd s c.conn_state ≡ (s', conn, reply r)
      → depth r ≤ suc max_reply_depth
      → Sendable r
      → (process rt password
            (suc (length (encode_command cmd)))
            clock
            (receives (encode_command cmd) c)
            s
          ≡ stopped (replies r conn c) s')
        × (command x cmd (holding cl (none ∷ none ∷ ws) (got (replies r conn c).write_buf ∷ rs)) w
            ≡ (holding cl ws rs, log_sent (encode_command cmd) w, reply_result x r))
  command-dispatch x clock cmd c s s' conn r cl w ws rs h e deep fit =
      (one_request clock cmd c s s' conn r h e, command-to_bytes x cmd cl w ws r rs deep fit)
