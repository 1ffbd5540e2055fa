-- ===== src/Dispatch/Run.antt =====
-- `dispatch` (crates/pg_resp/src/dispatch.rs): the gate, then the arm of the command.
pub mod Laws
use pg_resp.Prelude.{
  Bool, true, false, not, ◌&&◌, ◌||◌, Option, none, some, List, [], ◌∷◌, ◌++◌, Bytes, codes,
  is_some, if◌then◌else◌,
}
use pg_resp.Proto.Reply.{nil, error, array}
use pg_resp.Store.Types.{Store}
use pg_resp.Dispatch.Verb.{Verb, verb_of}
use pg_resp.Dispatch.Runtime.{Runtime, Context, ConnState, Answer, reply, upper, lossy}
use pg_resp.Dispatch.Strings.{
  said, ok_reply, ping_command, echo_command, get_command, set_command, incr_command, decr_command,
  incrby_command, decrby_command, mget_command, mset_command, setex_command, setnx_command,
  getdel_command, getex_command,
}
use pg_resp.Dispatch.Server.{
  del_command, exists_command, ttl_command, pttl_command, expire_command, persist_command,
  type_command, randomkey_command, keys_command, dbsize_command, flush_command, info_command,
  client_command, command_command, select_command, hello_command,
}
use pg_resp.Dispatch.Scanning.{scan_command}
use pg_resp.Dispatch.Connection.{auth_command}

abbrev pub keep : Store → Answer → Store × Answer
keep s a = (s, a)

-- The arms that work on the store; AUTH works on the connection instead.
unfoldable pub run : Runtime → Context → Verb → List Bytes → Store → ConnState → Store × Answer
run rt ctx Verb.ping rest s conn = keep s (ping_command rest)
run rt ctx Verb.echo rest s conn = keep s (echo_command rest)
run rt ctx Verb.hello rest s conn = keep s (hello_command rest)
run rt ctx Verb.get rest s conn = get_command ctx rest s
run rt ctx Verb.set rest s conn = set_command rt ctx rest s
run rt ctx Verb.del rest s conn = del_command ctx rest s
run rt ctx Verb.exists rest s conn = exists_command ctx rest s
run rt ctx Verb.ttl rest s conn = ttl_command ctx rest s
run rt ctx Verb.pttl rest s conn = pttl_command ctx rest s
run rt ctx Verb.expire rest s conn = expire_command ctx rest s
run rt ctx Verb.incr rest s conn = incr_command rt ctx rest s
run rt ctx Verb.decr rest s conn = decr_command rt ctx rest s
run rt ctx Verb.incrby rest s conn = incrby_command rt ctx rest s
run rt ctx Verb.decrby rest s conn = decrby_command rt ctx rest s
run rt ctx Verb.mget rest s conn = mget_command ctx rest s
run rt ctx Verb.mset rest s conn = mset_command rt rest s
run rt ctx Verb.auth rest s conn = keep s (auth_command ctx rest conn).1
run rt ctx Verb.select rest s conn = keep s (select_command rest)
run rt ctx Verb.dbsize rest s conn = keep s (dbsize_command rest s)
run rt ctx Verb.flushdb rest s conn = flush_command (codes "flushdb") rt rest s
run rt ctx Verb.flushall rest s conn = flush_command (codes "flushall") rt rest s
run rt ctx Verb.info rest s conn = keep s (info_command rt ctx s)
run rt ctx Verb.scan rest s conn = scan_command rt ctx rest s
run rt ctx Verb.client rest s conn = keep s (client_command rt rest)
run rt ctx Verb.command rest s conn = keep s (command_command rt rest)
run rt ctx Verb.quit rest s conn = keep s (reply ok_reply)
run rt ctx Verb.setex rest s conn = setex_command rt ctx rest s
run rt ctx Verb.setnx rest s conn = setnx_command rt ctx rest s
run rt ctx Verb.getdel rest s conn = getdel_command ctx rest s
run rt ctx Verb.getex rest s conn = getex_command rt ctx rest s
run rt ctx Verb.persist rest s conn = persist_command ctx rest s
run rt ctx Verb.type rest s conn = type_command ctx rest s
run rt ctx Verb.randomkey rest s conn = randomkey_command ctx rest s
run rt ctx Verb.keys rest s conn = keys_command ctx rest s

-- The connection after the command.
abbrev pub connection : Context → Verb → List Bytes → ConnState → ConnState
connection ctx Verb.auth rest conn = (auth_command ctx rest conn).0
connection ctx _ rest conn = conn

abbrev pub unknown_command : Runtime → Bytes → Answer
unknown_command rt name =
    reply (error (codes "ERR unknown command '" ++ lossy rt name ++ codes "'"))

unfoldable pub run_named :
    Runtime
    → Context
    → Bytes
    → Option Verb
    → List Bytes
    → Store
    → ConnState
    → Store × ConnState × Answer
run_named rt ctx name none rest s conn = (s, conn, unknown_command rt name)
run_named rt ctx name (some verb) rest s conn =
    let ran = run rt ctx verb rest s conn in (ran.0, connection ctx verb rest conn, ran.1)

-- AUTH, HELLO and QUIT pass the gate.
abbrev pub passes_gate : Option Verb → Bool
passes_gate (some Verb.auth) = true
passes_gate (some Verb.hello) = true
passes_gate (some Verb.quit) = true
passes_gate _ = false

unfoldable pub noauth : Answer
noauth = reply (error (codes "NOAUTH Authentication required."))

abbrev pub gated : Context → ConnState → Option Verb → Bool
gated ctx conn verb =
    is_some ctx.required_password && not conn.authenticated && not (passes_gate verb)

unfoldable pub dispatch :
    Runtime → Context → List Bytes → Store → ConnState → Store × ConnState × Answer
dispatch rt ctx [] s conn = (s, conn, reply (array nil))
dispatch rt ctx (name ∷ rest) s conn =
    let verb = verb_of (upper rt name) in
    if gated ctx conn verb then (s, conn, noauth) else run_named rt ctx name verb rest s conn
