-- ===== src/Sql/Surface.antt =====
-- The functions that SQL calls (crates/pg_resp/src/sql.rs): the reads through the backend's client,
-- and the writes and the trigger that queue. What Postgres hands over comes as arguments.
pub mod Laws
use pg_resp.Prelude.{
  bytes_eq, ◌==◌, ℕ, suc, ◌&&◌, ◌||◌, Bool, true, false, not, Option, none, some, List, [], ◌∷◌,
  ◌++◌, Bytes, codes, map, nat_beq, leb, if◌then◌else◌,
}
use pg_resp.Prelude.Int.{ℤ, pos, negsuc}
use pg_resp.Decimal.{to_string, nat_to_string}
use pg_resp.Proto.Reply.{Reply, bulk, integer, array, null_array, Items, nil, cons}
use pg_resp.Client.{
  ClientError, server, auth, connect, io, timeout, closed, protocol, Outcome, ok, err, Client,
  new_client, World, Texts, show_client_error,
}
use pg_resp.Client.Commands.{command}
use pg_resp.Sql.Queue.{QueuedOp, QueuedItem, enqueue}

-- The codes that `raise` is called with.
pub data SqlState : Type 0 where
  internal_error insufficient_privilege connection_failure character_not_in_repertoire : SqlState
  invalid_parameter_value trigger_protocol_violated undefined_column datatype_mismatch : SqlState

-- A value, or a Postgres error with its message; the hints are left out.
pub data Sql (A : Type 0) : Type 0 where
  value : A → Sql A
  raised : SqlState → Bytes → Sql A

abbrev pub slot_client : Bytes × Option Bytes → Option Client → Client
slot_client (addr, password) none = new_client addr password
slot_client target (some c) = c

abbrev pub read_error : {A : Type 0} → Texts → ClientError → Sql A
read_error x (server msg) =
    raised internal_error (codes "pg_resp cache rejected the request: " ++ msg)
read_error x (auth msg) =
    raised insufficient_privilege (codes "pg_resp authentication failed: " ++ msg)
read_error x e =
    raised connection_failure (codes "could not reach the pg_resp cache: " ++ show_client_error x e)

abbrev pub unexpected_reply : {A : Type 0} → Texts → Bytes → Reply → Sql A
unexpected_reply x what r =
    raised internal_error
      (codes "unexpected " ++ what ++ codes " reply from the pg_resp cache: " ++ x.debug_reply r)

-- A read leaves the backend's client and the world behind.
abbrev pub Read : Type 0 → Type 0
Read A = Option Client × World × Sql A

abbrev pub answered :
    {A : Type 0} → Texts → (Reply → Sql A) → Client × World × Outcome Reply → Read A
answered x f (cl, w, ok r) = (some cl, w, f r)
answered x f (cl, w, err e) = (some cl, w, read_error x e)

-- `with_client(|c| c.command(args)).unwrap_or_else(read_error)`
unfoldable pub ask :
    {A : Type 0}
    → Texts
    → Bytes × Option Bytes
    → List Bytes
    → (Reply → Sql A)
    → Option Client
    → World
    → Read A
ask x target args f slot w = answered x f (command x args (slot_client target slot) w)

abbrev pub has_nul : Bytes → Bool
has_nul [] = false
has_nul (c ∷ s) = nat_beq c 0 || has_nul s

-- `is_utf8` is whether `String::from_utf8` succeeds.
abbrev pub bulk_to_text : Texts → (Bytes → Bool) → Bytes → Reply → Sql (Option Bytes)
bulk_to_text x is_utf8 key (bulk none) = value none
bulk_to_text x is_utf8 key (bulk (some bytes)) =
    if is_utf8 bytes && not (has_nul bytes)
    then value (some bytes)
    else raised character_not_in_repertoire
        (codes "cached value for key \"" ++ key ++ codes "\" is not valid UTF-8 text")
bulk_to_text x is_utf8 key r = unexpected_reply x (codes "GET") r

abbrev pub positive : ℤ → Bool
positive (pos n) = leb 1 n
positive (negsuc n) = false

abbrev pub is_present : Texts → Reply → Sql Bool
is_present x (integer n) = value (positive n)
is_present x r = unexpected_reply x (codes "EXISTS") r

abbrev pub ttl_value : Texts → Reply → Sql ℤ
ttl_value x (integer n) = value n
ttl_value x r = unexpected_reply x (codes "TTL") r

abbrev pub key_text : Texts → Reply → Bytes
key_text x (bulk (some bytes)) = x.from_utf8_lossy bytes
key_text x r = []

abbrev pub key_texts : Texts → Items → List Bytes
key_texts x nil = []
key_texts x (cons r rs) = key_text x r ∷ key_texts x rs

abbrev pub keys_value : Texts → Reply → Sql (List Bytes)
keys_value x (array items) = value (key_texts x items)
keys_value x null_array = value []
keys_value x r = unexpected_reply x (codes "KEYS") r

module _ (x : Texts) (target : Bytes × Option Bytes) where
  unfoldable pub get : (Bytes → Bool) → Bytes → Option Client → World → Read (Option Bytes)
  get is_utf8 key slot w = ask x target (codes "GET" ∷ key ∷ []) (bulk_to_text x is_utf8 key) slot w

  unfoldable pub exists : Bytes → Option Client → World → Read Bool
  exists key slot w = ask x target (codes "EXISTS" ∷ key ∷ []) (is_present x) slot w

  unfoldable pub ttl : Bytes → Option Client → World → Read ℤ
  ttl key slot w = ask x target (codes "TTL" ∷ key ∷ []) (ttl_value x) slot w

  unfoldable pub keys : Bytes → Option Client → World → Read (List Bytes)
  keys pattern slot w = ask x target (codes "KEYS" ∷ pattern ∷ []) (keys_value x) slot w
