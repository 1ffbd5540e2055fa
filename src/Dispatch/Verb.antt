-- ===== src/Dispatch/Verb.antt =====
-- The command names that `dispatch` matches on (crates/pg_resp/src/dispatch.rs).
use pg_resp.Prelude.{bytes_eq, List, [], ◌∷◌, Bytes, codes, Option}
use pg_resp.HashMap.{lookup}

pub data Verb : Type 0 where
  ping echo hello get set del exists ttl pttl expire incr decr incrby decrby mget mset : Verb
  auth select dbsize flushdb flushall info scan client command quit : Verb
  setex setnx getdel getex persist type randomkey keys : Verb

unfoldable pub verbs : List (Bytes × Verb)
verbs =
    (codes "PING", ping)
    ∷ (codes "ECHO", echo)
    ∷ (codes "HELLO", hello)
    ∷ (codes "GET", get)
    ∷ (codes "SET", set)
    ∷ (codes "DEL", del)
    ∷ (codes "EXISTS", exists)
    ∷ (codes "TTL", ttl)
    ∷ (codes "PTTL", pttl)
    ∷ (codes "EXPIRE", expire)
    ∷ (codes "INCR", incr)
    ∷ (codes "DECR", decr)
    ∷ (codes "INCRBY", incrby)
    ∷ (codes "DECRBY", decrby)
    ∷ (codes "MGET", mget)
    ∷ (codes "MSET", mset)
    ∷ (codes "AUTH", auth)
    ∷ (codes "SELECT", select)
    ∷ (codes "DBSIZE", dbsize)
    ∷ (codes "FLUSHDB", flushdb)
    ∷ (codes "FLUSHALL", flushall)
    ∷ (codes "INFO", info)
    ∷ (codes "SCAN", scan)
    ∷ (codes "CLIENT", client)
    ∷ (codes "COMMAND", command)
    ∷ (codes "QUIT", quit)
    ∷ (codes "SETEX", setex)
    ∷ (codes "SETNX", setnx)
    ∷ (codes "GETDEL", getdel)
    ∷ (codes "GETEX", getex)
    ∷ (codes "PERSIST", persist)
    ∷ (codes "TYPE", type)
    ∷ (codes "RANDOMKEY", randomkey)
    ∷ (codes "KEYS", keys)
    ∷ []

-- `none` is the last arm, an unknown command.
unfoldable pub verb_of : Bytes → Option Verb
unfolding verbs lookup
verb_of name = lookup name verbs
