-- ===== src/Dispatch/Server.antt =====
-- The arms of `dispatch` on keys, deadlines, the connection and the server
-- (crates/pg_resp/src/dispatch.rs).
pub mod Keeps
use pg_resp.Prelude.{
  bytes_eq, ◌==◌, ℕ, ◌*◌, Bool, true, false, ◌||◌, Option, none, some, List, [], ◌∷◌, ◌++◌, Bytes,
  codes, map, keep_if, ltb, nat_beq, if◌then◌else◌,
}
use pg_resp.Prelude.Int.{ℤ, pos, pos_part, as_i64, is_positive}
use pg_resp.Decimal.{parse_i64, parse_u64, nat_to_string}
use pg_resp.Proto.Reply.{Reply, nil, simple, error, integer, bulk, array}
use pg_resp.Store.Types.{Instant, Stats, Store, nanos_per_sec}
use pg_resp.Store.Keyspace
use pg_resp.Store.Expire
use pg_resp.Glob.{glob_match}
use pg_resp.Dispatch.Runtime.{
  Runtime, Context, ConnState, Answer, reply, panic, Parsed, parsed, refused, panics, upper, lossy,
  err_wrong_args, err_not_integer, err_syntax, add_duration,
}
use pg_resp.Dispatch.Options.{or_panic}
use pg_resp.Dispatch.Strings.{said, bulk_or_nil, ok_reply, items, flag}

-- `n as i64` on a count
abbrev pub counted : Store × ℕ → Store × Answer
counted (s, n) = said (integer (as_i64 n)) s

abbrev pub integer_of : Store × ℤ → Store × Answer
integer_of (s, n) = said (integer n) s

abbrev pub flagged : Store × Bool → Store × Answer
flagged (s, b) = said (flag b) s

unfoldable pub del_command : Context → List Bytes → Store → Store × Answer
del_command ctx [] s = said (err_wrong_args (codes "del")) s
del_command ctx (k ∷ ks) s = counted (Keyspace.del ctx.mono_now (k ∷ ks) s)

unfoldable pub exists_command : Context → List Bytes → Store → Store × Answer
exists_command ctx [] s = said (err_wrong_args (codes "exists")) s
exists_command ctx (k ∷ ks) s = counted (Keyspace.exists ctx.mono_now (k ∷ ks) s)

unfoldable pub ttl_command : Context → List Bytes → Store → Store × Answer
ttl_command ctx (key ∷ []) s = integer_of (Expire.ttl_seconds ctx.mono_now key s)
ttl_command ctx _ s = said (err_wrong_args (codes "ttl")) s

unfoldable pub pttl_command : Context → List Bytes → Store → Store × Answer
pttl_command ctx (key ∷ []) s = integer_of (Expire.pttl_millis ctx.mono_now key s)
pttl_command ctx _ s = said (err_wrong_args (codes "pttl")) s

-- A number of seconds that is not positive means now.
unfoldable pub expire_deadline : Context → Option ℤ → Parsed Instant
expire_deadline ctx none = refused err_not_integer
expire_deadline ctx (some secs) =
    if is_positive secs
    then or_panic (add_duration ctx.mono_now (pos_part secs * nanos_per_sec))
    else parsed ctx.mono_now

unfoldable pub expire_with : Context → Bytes → Parsed Instant → Store → Store × Answer
expire_with ctx key (parsed d) s = flagged (Expire.expire ctx.mono_now key d s)
expire_with ctx key (refused e) s = said e s
expire_with ctx key panics s = (s, panic)

unfoldable pub expire_command : Context → List Bytes → Store → Store × Answer
expire_command ctx (key ∷ raw ∷ []) s = expire_with ctx key (expire_deadline ctx (parse_i64 raw)) s
expire_command ctx _ s = said (err_wrong_args (codes "expire")) s

unfoldable pub persist_command : Context → List Bytes → Store → Store × Answer
persist_command ctx (key ∷ []) s = flagged (Expire.persist ctx.mono_now key s)
persist_command ctx _ s = said (err_wrong_args (codes "persist")) s

unfoldable pub type_command : Context → List Bytes → Store → Store × Answer
type_command ctx (key ∷ []) s =
    let (s', n) = Keyspace.exists ctx.mono_now (key ∷ []) s in
    said (if ltb 0 n then simple (codes "string") else simple (codes "none")) s'
type_command ctx _ s = said (err_wrong_args (codes "type")) s

unfoldable pub randomkey_command : Context → List Bytes → Store → Store × Answer
randomkey_command ctx [] s = bulk_or_nil (Keyspace.random_key ctx.mono_now s)
randomkey_command ctx (x ∷ _) s = said (err_wrong_args (codes "randomkey")) s

abbrev pub bulks : List Bytes → Reply
bulks ks = array (items (map (λ k. bulk (some k)) ks))

unfoldable pub keys_command : Context → List Bytes → Store → Store × Answer
keys_command ctx (pattern ∷ []) s =
    said (bulks (keep_if (glob_match pattern) (Keyspace.all_keys ctx.mono_now s))) s
keys_command ctx _ s = said (err_wrong_args (codes "keys")) s

unfoldable pub dbsize_command : List Bytes → Store → Answer
dbsize_command [] s = reply (integer (as_i64 (Keyspace.stats s).keys))
dbsize_command (x ∷ _) s = reply (err_wrong_args (codes "dbsize"))

-- FLUSHDB and FLUSHALL, whose lower-case name is in the error.
unfoldable pub flush_command : Bytes → Runtime → List Bytes → Store → Store × Answer
flush_command name rt [] s = said ok_reply (Keyspace.clear s)
flush_command name rt (mode ∷ []) s =
    if (upper rt mode == codes "ASYNC") || (upper rt mode == codes "SYNC")
    then said ok_reply (Keyspace.clear s)
    else said (err_wrong_args name) s
flush_command name rt (x ∷ y ∷ _) s = said (err_wrong_args name) s

abbrev pub or_zero : Option ℕ → Bytes
or_zero none = codes "0"
or_zero (some n) = nat_to_string n

abbrev pub info_line : Bytes → Bytes → Bytes → Bytes
info_line name value rest = name ++ (b':' ∷ value) ++ (13 ∷ 10 ∷ rest)

abbrev pub heading : Bytes → Bytes → Bytes
heading name rest = codes "# " ++ name ++ (13 ∷ 10 ∷ rest)

unfoldable pub info_text : Runtime → Context → Stats → Bytes
info_text rt ctx stats = heading (codes "Server") (
    info_line (codes "redis_version") (codes "7.0.0") (
      info_line (codes "pg_resp_version") rt.pkg_version (
        heading (codes "Memory") (
          info_line (codes "used_memory") (nat_to_string stats.used_bytes) (
            info_line (codes "maxmemory") (or_zero stats.max_memory_bytes) (
              heading (codes "Stats") (
                info_line (codes "keyspace_hits") (nat_to_string stats.hits) (
                  info_line (codes "keyspace_misses") (nat_to_string stats.misses) (
                    info_line (codes "evicted_keys") (nat_to_string stats.evictions) (
                      info_line (codes "invalidations_lost") (nat_to_string ctx.invalidations_lost)
                        (heading (codes "Keyspace") (
                          info_line (codes "db0") (codes "keys=" ++ nat_to_string stats.keys)
                            []))))))))))))

unfoldable pub info_command : Runtime → Context → Store → Answer
info_command rt ctx s = reply (bulk (some (info_text rt ctx (Keyspace.stats s))))

unfoldable pub client_command : Runtime → List Bytes → Answer
client_command rt [] = reply (err_wrong_args (codes "client"))
client_command rt (sub ∷ _) =
    if (upper rt sub == codes "SETINFO") || (upper rt sub == codes "SETNAME")
    then reply ok_reply
    else if upper rt sub == codes "GETNAME"
    then reply (bulk (some []))
    else reply (
        error (
          codes "ERR Unknown CLIENT subcommand or wrong number of arguments for '"
          ++ lossy rt sub
          ++ codes "'"))

unfoldable pub command_command : Runtime → List Bytes → Answer
command_command rt [] = reply (array nil)
command_command rt (sub ∷ _) =
    if upper rt sub == codes "COUNT" then reply (integer (pos 0)) else reply (array nil)

unfoldable pub select_command : List Bytes → Answer
select_command (db ∷ []) =
    if db == codes "0" then reply ok_reply else reply (error (codes "ERR DB index is out of range"))
select_command _ = reply (err_wrong_args (codes "select"))

unfoldable pub hello_reply : Reply
hello_reply = array (
    items (
      bulk (some (codes "server"))
      ∷ bulk (some (codes "redis"))
      ∷ bulk (some (codes "version"))
      ∷ bulk (some (codes "7.0.0"))
      ∷ bulk (some (codes "proto"))
      ∷ integer (pos 2)
      ∷ bulk (some (codes "id"))
      ∷ integer (pos 1)
      ∷ bulk (some (codes "mode"))
      ∷ bulk (some (codes "standalone"))
      ∷ bulk (some (codes "role"))
      ∷ bulk (some (codes "master"))
      ∷ bulk (some (codes "modules"))
      ∷ array nil
      ∷ []))

abbrev pub protocol : List Bytes → Option ℤ
protocol [] = some (pos 2)
protocol (raw ∷ _) = parse_i64 raw

abbrev pub no_hello : Reply
no_hello = error (codes "ERR unknown command 'HELLO'")

abbrev pub hello_for : Option ℤ → Reply
hello_for (some (pos n)) = if nat_beq n 2 then hello_reply else no_hello
hello_for _ = no_hello

unfoldable pub hello_command : List Bytes → Answer
hello_command rest = reply (hello_for (protocol rest))
