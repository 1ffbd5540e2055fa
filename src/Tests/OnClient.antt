-- ===== src/Tests/OnClient.antt =====
-- The theorems on the RESP client at concrete inputs.
use pg_resp.Prelude.{
  ℕ, suc, ◌+◌, Option, length, false, bytes_beq, ◌≡◌, refl, none, some, List, [], ◌∷◌, Bytes, codes,
  arith,
}
use pg_resp.Proto.Command.{encode_command}
use pg_resp.Proto.Reply.{Reply, bulk, to_bytes}
use pg_resp.Client.{
  IoError, got, failed, Client, new_client, World, refused, connected, addresses, Texts,
  reply_result, ok,
}
use pg_resp.Client.Commands.{command, attempt, log_sent}
use pg_resp.Client.Retry.{holding, command-answered}
use pg_resp.Client.Answers.{command-to_bytes, stale, command-stale}
use pg_resp.Client.Login.{Followed, login, logged_out, attempt-login}
use pg_resp.Client.EndToEnd.{receives, replies, command-dispatch}
use pg_resp.Prelude.Int.{pos}
use pg_resp.Dispatch.Runtime.{reply, upper}
use pg_resp.Dispatch.Verb.{verb_of}
use pg_resp.Dispatch.Run.{dispatch, noauth}
use pg_resp.Server.Conn.{new_conn}
use pg_resp.Server.Service.{Tick, context, process, stopped, is_quit}
use pg_resp.Server.Watchdog.{watch, first_watch}
use pg_resp.Server.Watchdog.Strikes.{signs, condemned, is_restarting, watch_iff}
use pg_resp.Tests.Samples.{runtime, stranger, two_keys, hits, name}

abbrev pub texts : Texts
texts = record {
  from_utf8_lossy = λ s. s;
  debug_reply = λ r. codes "reply";
  show_error = λ e. codes "connection reset by peer";
}

abbrev pub client : Client
client = new_client (codes "127.0.0.1:6379") none

abbrev get_hits : List Bytes
get_hits = codes "GET" ∷ hits ∷ []

abbrev get_name : List Bytes
get_name = codes "GET" ∷ name ∷ []

abbrev pub world : World
world = record {
  dials =
      addresses (
        refused (IoError.other (codes "connection refused"))
        ∷ connected none none none (record { writes = []; reads = got (codes "+OK") ∷ [] })
        ∷ [])
      ∷ [];
  sent = [];
}

-- the connection is reset in the middle of the answer
command-answered_example :
    (command texts get_hits
      (holding client
        (none ∷ none ∷ [])
        (got (codes "$5") ∷ failed (IoError.other (codes "connection reset by peer")) ∷ []))
      world).1.sent
    ≡ encode_command get_hits ∷ []
command-answered_example =
    command-answered texts get_hits client world [] b'$' (codes "5")
      (failed (IoError.other (codes "connection reset by peer")) ∷ [])

abbrev seven : Reply
seven = bulk (some (codes "7"))

command-to_bytes_example :
    command texts get_hits (holding client (none ∷ none ∷ []) (got (to_bytes seven) ∷ [])) world
    ≡ (holding client [] [], log_sent (encode_command get_hits) world, ok seven)
command-to_bytes_example =
    command-to_bytes texts get_hits client world [] seven [] (omega arith) (omega arith)

command-stale_example : stale texts get_hits get_name client world seven ≡ ok seven
command-stale_example =
    command-stale texts get_hits get_name client world seven (omega arith) (omega arith)

attempt-login_example :
    Followed
      (login (codes "s3cret"))
      (encode_command get_hits)
      world
      (attempt texts get_hits (logged_out (codes "s3cret") client) world)
attempt-login_example = attempt-login texts get_hits (codes "s3cret") client world

abbrev clock : ℕ → Tick
clock k = record {
  sys_now = pos 1700000000000000000;
  mono_now = 1000000000 + k;
  invalidations_lost = 0;
}

abbrev password : Option Bytes
password = some (codes "s3cret")

abbrev no_auth : Reply
no_auth = Reply.error (codes "NOAUTH Authentication required.")

stopped_at_the_gate :
    dispatch runtime (context password (clock 0)) get_hits two_keys stranger
    ≡ (two_keys, stranger, reply no_auth)
unfolding bytes_beq verb_of upper noauth dispatch
stopped_at_the_gate = refl

quiet : is_quit (codes "GET") ≡ false
unfolding is_quit bytes_beq
quiet = refl

command-dispatch_example :
    (process runtime password
        (suc (length (encode_command get_hits)))
        clock
        (receives (encode_command get_hits) new_conn)
        two_keys
      ≡ stopped (replies no_auth stranger new_conn) two_keys)
    × (command texts get_hits
          (holding client
            (none ∷ none ∷ [])
            (got (replies no_auth stranger new_conn).write_buf ∷ []))
          world
        ≡ (
          holding client [] [],
          log_sent (encode_command get_hits) world,
          reply_result texts no_auth,
        ))
command-dispatch_example =
    command-dispatch runtime password texts clock get_hits new_conn two_keys two_keys stranger
      no_auth client world [] [] (quiet, omega arith, (omega arith, (omega arith, tt)))
      stopped_at_the_gate (omega arith) (omega arith)

abbrev pub target : Bytes × Option Bytes
target = (codes "127.0.0.1:6379", none)

-- the server thread is alive and its port is closed
watch_iff_example :
    is_restarting (watch texts (false ∷ false ∷ false ∷ false ∷ []) (first_watch target) world)
    ≡ condemned (signs texts (false ∷ false ∷ false ∷ false ∷ []) (first_watch target).probe world)
watch_iff_example = watch_iff texts (false ∷ false ∷ false ∷ false ∷ []) target world
