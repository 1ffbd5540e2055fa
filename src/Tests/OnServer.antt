-- ===== src/Tests/OnServer.antt =====
-- The theorems on connections and the event loop at concrete inputs.
use pg_resp.Prelude.{
  bytes_beq, nat_eq, ◌≡◌, refl, true, false, none, some, List, [], ◌∷◌, ◌++◌, ℕ, suc, ◌+◌, Bytes,
  codes, length, arith, ◌==◌, inr, if_intro,
}
use pg_resp.HashMap.{lookup}
use pg_resp.Proto.Command.{
  ParseOutcome, parse_command, parse_array_command, split_spaces, encode_command,
}
use pg_resp.Proto.Frame.{read_line, find_crlf, cut_line}
use pg_resp.Server.Conn.{Conn, new_conn, wrote, full, interrupted, flush_writes}
use pg_resp.Server.Conn.Flush.{Flushed, flush_writes-Flushed}
use pg_resp.Server.Service.{got, blocked, Tick, process, is_quit, stopped}
use pg_resp.Server.Service.Chunks.{receive, requests_of, from, process_all, process-receive}
use pg_resp.Server.Service.Fuel.{Finished, process_fuel}
use pg_resp.Server.Service.Pipeline.{encode_all, told, converse, process-pipeline}
use pg_resp.Server.Service.{handle, answer}
use pg_resp.Proto.Command.{parse_inline_command}
use pg_resp.Dispatch.Run
use pg_resp.Dispatch.Verb
use pg_resp.Dispatch.Runtime
use pg_resp.Dispatch.Strings
use pg_resp.Proto.Reply
use pg_resp.Server.Loop.{
  Setup, Event, accepted, readable, writable, sweep, step, run, started, Server,
}
use pg_resp.Server.Loop.Invariant.{Tidy, Owed, run-started-Tidy}
use pg_resp.Server.Loop.Closing.{run-closed}
use pg_resp.Server.Loop.Isolation.{step-lookup_ne}
use pg_resp.Prelude.Int.{pos}
use pg_resp.Tests.Samples.{runtime, same_order, hits, name, two_keys, two_keys-IsValid}

abbrev half_sent : Conn
half_sent = record new_conn { write_buf = codes "+OK+PONG"; write_pos = 3 }

flush_writes-Flushed_example : Flushed half_sent (flush_writes (wrote 2 ∷ full ∷ []) half_sent)
flush_writes-Flushed_example = flush_writes-Flushed (wrote 2 ∷ full ∷ []) half_sent

abbrev clock : ℕ → Tick
clock k = record {
  sys_now = pos 1700000000000000000;
  mono_now = 1000000000 + k;
  invalidations_lost = 0;
}

abbrev get_hits : List Bytes
get_hits = codes "get" ∷ hits ∷ []

abbrev requests : List (List Bytes)
requests = get_hits ∷ (codes "del" ∷ name ∷ []) ∷ []

quiet : is_quit (codes "get") ≡ false
unfolding is_quit bytes_beq
quiet = refl

quiet_del : is_quit (codes "del") ≡ false
unfolding is_quit bytes_beq
quiet_del = refl

cut_off : parse_command (codes "*1") ≡ ParseOutcome.incomplete
unfolding parse_command parse_array_command read_line find_crlf cut_line split_spaces
cut_off = refl

process-pipeline_example :
    process runtime none
      (suc (length (encode_all requests ++ codes "*1")))
      clock
      (record half_sent { read_buf = encode_all requests ++ codes "*1" })
      two_keys
    ≡ told half_sent
        (codes "*1")
        (converse runtime none clock requests half_sent.conn_state two_keys)
process-pipeline_example =
    process-pipeline runtime none clock requests (codes "*1") half_sent two_keys
      (
        (quiet, omega arith, (omega arith, (omega arith, tt))),
        ((quiet_del, omega arith, (omega arith, (omega arith, tt))), tt),
      )
      cut_off

-- A blank request, a whole one, and the start of a third.
abbrev blank_then_ping : Conn
blank_then_ping = record half_sent { read_buf = codes "\r\nPING\r\n*1" }

process_fuel_example :
    (process runtime none 13 clock blank_then_ping two_keys
      ≡ process runtime none 19 clock blank_then_ping two_keys)
    × Finished (process runtime none 13 clock blank_then_ping two_keys)
process_fuel_example =
    process_fuel runtime none 13 19 clock blank_then_ping two_keys (omega arith) (omega arith)

abbrev setup : Setup
setup = record { runtime = runtime; password = none; order = same_order }

abbrev history : List Event
history =
    accepted true
    ∷ accepted true
    ∷ readable 1 (got (encode_command get_hits) ∷ blocked ∷ []) (wrote 5 ∷ []) clock true
    ∷ readable 2 (got [] ∷ []) [] clock true
    ∷ []

run-started-Tidy_example : Tidy (run setup history (started (some 250)))
run-started-Tidy_example = run-started-Tidy setup (some 250) history (omega arith)

abbrev two_conns : Server
two_conns = run setup (accepted true ∷ accepted true ∷ []) (started none)

two_conns-Tidy : Tidy two_conns
two_conns-Tidy = run-started-Tidy setup none (accepted true ∷ accepted true ∷ []) (omega arith)

abbrev reading : Event
reading = readable 1 (got (encode_command get_hits) ∷ []) (wrote 5 ∷ []) clock true

step-lookup_ne_example : lookup 2 (step setup reading two_conns).0.conns ≡ lookup 2 two_conns.conns
step-lookup_ne_example = step-lookup_ne setup reading two_conns 2 two_conns-Tidy refl

abbrev after_ping : Conn
after_ping = record half_sent { read_buf = codes "*1"; write_buf = codes "+OK+PONG+PONG\r\n" }

ping_run :
    process_all runtime none clock (record half_sent { read_buf = codes "PING\r\n*1" }) two_keys
    ≡ stopped after_ping two_keys
unfolding process handle parse_command parse_inline_command read_line cut_line find_crlf
    split_spaces answer Run.dispatch Run.run_named Verb.verb_of bytes_beq Runtime.upper Run.run
    Strings.ping_command is_quit Reply.write_to Reply.to_bytes parse_array_command
ping_run = refl

process-receive_example :
    process_all runtime none clock
      (receive (codes "\r\n") (record half_sent { read_buf = codes "PING\r\n*1" }))
      two_keys
    ≡ process_all runtime none
        (from (requests_of (codes "PING\r\n*1")) clock)
        (receive (codes "\r\n") after_ping)
        two_keys
process-receive_example =
    process-receive runtime none clock (record half_sent { read_buf = codes "PING\r\n*1" })
      after_ping two_keys two_keys (codes "\r\n") ping_run refl

-- QUIT was answered and the socket was full after three bytes.
abbrev leaving : Conn
leaving = record new_conn {
  write_buf = codes "+PONG\r\n+OK\r\n";
  write_pos = 3;
  want_write = true;
  close_after_flush = true;
}

abbrev one_leaving : Server
one_leaving = record { store = two_keys; conns = (1, leaving) ∷ []; next_token = 2 }

one_leaving-Tidy : Tidy one_leaving
unfolding lookup
one_leaving-Tidy = record {
  valid = two_keys-IsValid;
  distinct = (refl, tt);
  fresh = λ t le. ground arith;
  capped = λ t. if_intro Owed (1 == t) (λ _. omega arith) (λ _. tt);
}

held_leaving : lookup 1 one_leaving.conns ≡ some leaving
unfolding lookup
held_leaving = refl

abbrev emptying : List Event
emptying =
    writable 1 (wrote 2 ∷ full ∷ []) true
    ∷ accepted true
    ∷ sweep 5
    ∷ writable 1 (interrupted ∷ wrote 7 ∷ []) true
    ∷ []

-- QUIT is answered in full and then the connection is gone.
leaving_is_closed : lookup 1 (run setup emptying one_leaving).conns ≡ none
leaving_is_closed =
    run-closed setup 1 emptying one_leaving leaving one_leaving-Tidy (omega arith) held_leaving refl
      (omega arith) (inr tt, (tt, (tt, (inr tt, tt)))) (omega arith)
