-- ===== src/Sql/Trigger.antt =====
-- `resp.set`, `resp.del` and the trigger `resp.evict` (crates/pg_resp/src/sql.rs): what they put on
-- the queue. A row is its columns by name, with what pgrx's typed accessors read from them.
pub mod Laws
use pg_resp.Prelude.{
  bytes_eq, ◌==◌, ℕ, suc, ◌||◌, Bool, true, false, Option, none, some, List, [], ◌∷◌, ◌++◌, Bytes,
  codes, length, leb, if◌then◌else◌,
}
use pg_resp.Prelude.Int.{ℤ, pos, negsuc}
use pg_resp.Decimal.{to_string, nat_to_string}
use pg_resp.Sql.Queue.{QueuedOp, del, QueuedItem, enqueue}
use pg_resp.Sql.Surface.{
  Sql, value, raised, positive, invalid_parameter_value, trigger_protocol_violated,
  undefined_column, datatype_mismatch,
}

abbrev pub bind : {A B : Type 0} → Sql A → (A → Sql B) → Sql B
bind (value a) f = f a
bind (raised code msg) f = raised code msg

abbrev pub queue_set : ℕ → Bytes → Bytes → Option ℤ → List QueuedItem → List QueuedItem
queue_set subxid key v ttl queue = enqueue subxid (QueuedOp.set key v ttl) queue

-- `subxid` is the current subtransaction's.
unfoldable pub set : ℕ → Bytes → Bytes → Option ℤ → List QueuedItem → Sql (List QueuedItem)
set subxid key v none queue = value (queue_set subxid key v none queue)
set subxid key v (some ttl) queue =
    if positive ttl
    then value (queue_set subxid key v (some ttl) queue)
    else raised invalid_parameter_value
        (codes "invalid expire time in resp.set(): " ++ to_string ttl)

unfoldable pub del_key : ℕ → Bytes → List QueuedItem → List QueuedItem
del_key subxid key queue = enqueue subxid (del key) queue

-- A column by its type: the text types, the integer types, `uuid` with its print, or the OID of
-- another type. `none` is NULL.
pub data Column : Type 0 where
  text : Option Bytes → Column
  int : Option ℤ → Column
  uuid : Option Bytes → Column
  unsupported : ℕ → Column

abbrev pub Row : Type 0
Row = Bytes → Option Column

abbrev pub printed : Option ℤ → Option Bytes
printed none = none
printed (some n) = some (to_string n)

abbrev pub column_text : Bytes → Option Column → Sql (Option Bytes)
column_text column none = raised undefined_column (
    codes "resp.evict() was given column \""
    ++ column
    ++ codes "\", which this table does not have")
column_text column (some (text v)) = value v
column_text column (some (int v)) = value (printed v)
column_text column (some (uuid v)) = value v
column_text column (some (unsupported oid)) = raised datatype_mismatch (
    codes "resp.evict() cannot build a cache key from column \""
    ++ column
    ++ codes "\" (type OID "
    ++ nat_to_string oid
    ++ codes ")")

unfoldable pub render_column_as_text : Row → Bytes → Sql (Option Bytes)
render_column_as_text row column = column_text column (row column)

abbrev pub contains : Bytes → List Bytes → Bool
contains key [] = false
contains key (k ∷ ks) = (k == key) || contains key ks

abbrev pub add_key : Bytes → Option Bytes → List Bytes → List Bytes
add_key prefix none ks = ks
add_key prefix (some v) ks = if contains (prefix ++ v) ks then ks else ks ++ (prefix ++ v) ∷ []

-- the `for` loop over the old and the new row
unfoldable pub collect_keys : Bytes → Bytes → List Row → List Bytes → Sql (List Bytes)
collect_keys prefix column [] ks = value ks
collect_keys prefix column (row ∷ rows) ks =
    bind (render_column_as_text row column)
      (λ v. collect_keys prefix column rows (add_key prefix v ks))

abbrev pub rows_of : Option Row → Option Row → List Row
rows_of none none = []
rows_of none (some new) = new ∷ []
rows_of (some old) none = old ∷ []
rows_of (some old) (some new) = old ∷ new ∷ []

unfoldable pub queue_deletes : ℕ → List Bytes → List QueuedItem → List QueuedItem
queue_deletes subxid [] queue = queue
queue_deletes subxid (key ∷ ks) queue = queue_deletes subxid ks (del_key subxid key queue)

-- `args` is `none` if they cannot be read.
pub record Trigger : Type 0 where
  pub args : Option (List Bytes)
  pub statement_level : Bool
  pub old : Option Row
  pub new : Option Row

abbrev pub evict_rows : ℕ → Trigger → Bytes → Bytes → List QueuedItem → Sql (List QueuedItem)
evict_rows subxid trigger prefix column queue =
    if trigger.statement_level
    then raised trigger_protocol_violated
        (codes "resp.evict() must be used in a FOR EACH ROW trigger")
    else bind (collect_keys prefix column (rows_of trigger.old trigger.new) [])
        (λ ks. value (queue_deletes subxid ks queue))

abbrev pub wrong_arguments : ℕ → Sql (List QueuedItem)
wrong_arguments n =
    raised invalid_parameter_value
      (codes "resp.evict() requires exactly 2 trigger arguments, got " ++ nat_to_string n)

abbrev pub evict_with : ℕ → Trigger → Option (List Bytes) → List QueuedItem → Sql (List QueuedItem)
evict_with subxid trigger none queue =
    raised invalid_parameter_value (codes "resp.evict() could not read its trigger arguments")
evict_with subxid trigger (some (prefix ∷ column ∷ [])) queue =
    evict_rows subxid trigger prefix column queue
evict_with subxid trigger (some args) queue = wrong_arguments (length args)

unfoldable pub evict : ℕ → Trigger → List QueuedItem → Sql (List QueuedItem)
evict subxid trigger queue = evict_with subxid trigger trigger.args queue
