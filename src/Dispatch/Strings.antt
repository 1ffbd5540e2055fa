-- ===== src/Dispatch/Strings.antt =====
-- The arms of `dispatch` that read and write values (crates/pg_resp/src/dispatch.rs). Each takes
-- the arguments behind the command's name and returns the store after the call and the answer.
pub mod Keeps
pub mod Panics
pub mod ReadBack
use pg_resp.Prelude.{
  bytes_eq, Bool, true, false, Option, none, some, List, [], ◌∷◌, ◌++◌, Bytes, codes, map,
  if◌then◌else◌,
}
use pg_resp.Prelude.Int.{ℤ, pos, negsuc, checked_neg}
use pg_resp.Decimal.{parse_i64}
use pg_resp.Proto.Reply.{Reply, Items, nil, cons, simple, error, integer, bulk, array}
use pg_resp.Store.Types.{
  Instant, Expiry, at, Condition, if_not_exists, SetOutcome, IncrError, not_an_integer, overflow,
  Result, ok, err, Store,
}
use pg_resp.Store.Values
use pg_resp.Dispatch.Runtime.{
  Runtime, Context, Answer, reply, panic, Parsed, parsed, refused, panics, err_wrong_args,
  err_not_integer,
}
use pg_resp.Dispatch.Options.{
  SetOptions, default_options, ex, parse_deadline, parse_set_options, parse_getex_options,
}

abbrev pub said : Reply → Store → Store × Answer
said r s = (s, reply r)

-- `Reply::bulk(v)` or `Reply::nil()`
abbrev pub bulk_or_nil : Store × Option Bytes → Store × Answer
bulk_or_nil (s, v) = (s, reply (bulk v))

unfoldable pub ok_reply : Reply
ok_reply = simple (codes "OK")

abbrev pub items : List Reply → Items
items [] = nil
items (r ∷ rs) = cons r (items rs)

-- `b as i64` on a Boolean
abbrev pub flag : Bool → Reply
flag true = integer (pos 1)
flag false = integer (pos 0)

unfoldable pub ping_command : List Bytes → Answer
ping_command [] = reply (simple (codes "PONG"))
ping_command (x ∷ []) = reply (bulk (some x))
ping_command (x ∷ y ∷ _) = reply (err_wrong_args (codes "ping"))

unfoldable pub echo_command : List Bytes → Answer
echo_command [] = reply (err_wrong_args (codes "echo"))
echo_command (x ∷ []) = reply (bulk (some x))
echo_command (x ∷ y ∷ _) = reply (err_wrong_args (codes "echo"))

unfoldable pub get_command : Context → List Bytes → Store → Store × Answer
get_command ctx (key ∷ []) s = bulk_or_nil (Values.get ctx.mono_now key s)
get_command ctx _ s = said (err_wrong_args (codes "get")) s

-- The reply to a SET that ran: the old value with GET, else whether it was applied.
abbrev pub set_reply : Bool → SetOutcome → Reply
set_reply want_get outcome =
    if want_get then bulk outcome.old_value else if outcome.applied then ok_reply else bulk none

abbrev pub or_no_expiry : Option Expiry → Expiry
or_no_expiry none = Expiry.none
or_no_expiry (some x) = x

unfoldable pub set_with :
    Runtime → Context → Bytes → Bytes → Parsed SetOptions → Store → Store × Answer
set_with rt ctx key value (parsed o) s =
    let (s', outcome) =
      Values.set rt.hash ctx.mono_now key value (or_no_expiry o.expiry) o.condition o.want_get s in
    said (set_reply o.want_get outcome) s'
set_with rt ctx key value (refused e) s = said e s
set_with rt ctx key value panics s = (s, panic)

unfoldable pub set_command : Runtime → Context → List Bytes → Store → Store × Answer
set_command rt ctx (key ∷ value ∷ opts) s =
    set_with rt ctx key value (parse_set_options rt ctx opts default_options) s
set_command rt ctx _ s = said (err_wrong_args (codes "set")) s

unfoldable pub incr_outcome : Store × Result ℤ IncrError → Store × Answer
incr_outcome (s, ok n) = said (integer n) s
incr_outcome (s, err not_an_integer) = said err_not_integer s
incr_outcome (s, err overflow) = said (error (codes "ERR increment or decrement would overflow")) s

unfoldable pub incr_reply : Runtime → Context → Bytes → ℤ → Store → Store × Answer
incr_reply rt ctx key delta s = incr_outcome (Values.incr_by rt.hash ctx.mono_now key delta s)

-- INCR with 1 and DECR with -1.
unfoldable pub step_command : Bytes → ℤ → Runtime → Context → List Bytes → Store → Store × Answer
step_command name delta rt ctx (key ∷ []) s = incr_reply rt ctx key delta s
step_command name delta rt ctx _ s = said (err_wrong_args name) s

unfoldable pub incr_command : Runtime → Context → List Bytes → Store → Store × Answer
incr_command rt ctx rest s = step_command (codes "incr") (pos 1) rt ctx rest s

unfoldable pub decr_command : Runtime → Context → List Bytes → Store → Store × Answer
decr_command rt ctx rest s = step_command (codes "decr") (negsuc 0) rt ctx rest s

unfoldable pub incr_with : Runtime → Context → Bytes → Option ℤ → Store → Store × Answer
incr_with rt ctx key none s = said err_not_integer s
incr_with rt ctx key (some delta) s = incr_reply rt ctx key delta s

unfoldable pub incrby_command : Runtime → Context → List Bytes → Store → Store × Answer
incrby_command rt ctx (key ∷ raw ∷ []) s = incr_with rt ctx key (parse_i64 raw) s
incrby_command rt ctx _ s = said (err_wrong_args (codes "incrby")) s

abbrev pub decr_negated : Runtime → Context → Bytes → Option ℤ → Store → Store × Answer
decr_negated rt ctx key none s = said (error (codes "ERR decrement would overflow")) s
decr_negated rt ctx key (some delta) s = incr_reply rt ctx key delta s

unfoldable pub decr_with : Runtime → Context → Bytes → Option ℤ → Store → Store × Answer
decr_with rt ctx key none s = said err_not_integer s
decr_with rt ctx key (some delta) s = decr_negated rt ctx key (checked_neg delta) s

unfoldable pub decrby_command : Runtime → Context → List Bytes → Store → Store × Answer
decrby_command rt ctx (key ∷ raw ∷ []) s = decr_with rt ctx key (parse_i64 raw) s
decrby_command rt ctx _ s = said (err_wrong_args (codes "decrby")) s

unfoldable pub mget_command : Context → List Bytes → Store → Store × Answer
mget_command ctx [] s = said (err_wrong_args (codes "mget")) s
mget_command ctx (k ∷ ks) s =
    let (s', values) = Values.mget ctx.mono_now (k ∷ ks) s in
    said (array (items (map (λ v. bulk v) values))) s'

-- `none` for an odd number of arguments
unfoldable pub pairs_of : List Bytes → Option (List (Bytes × Bytes))
pairs_of [] = some []
pairs_of (k ∷ []) = none
pairs_of (k ∷ v ∷ rest) = elim (pairs_of rest) [ none ↦ none | some ps ↦ some ((k, v) ∷ ps) ]

abbrev pub mset_pairs : Runtime → Option (List (Bytes × Bytes)) → Store → Store × Answer
mset_pairs rt none s = said (err_wrong_args (codes "mset")) s
mset_pairs rt (some ps) s = said ok_reply (Values.mset rt.hash ps s)

unfoldable pub mset_command : Runtime → List Bytes → Store → Store × Answer
mset_command rt [] s = said (err_wrong_args (codes "mset")) s
mset_command rt (k ∷ rest) s = mset_pairs rt (pairs_of (k ∷ rest)) s

unfoldable pub setex_with :
    Runtime → Context → Bytes → Bytes → Parsed Instant → Store → Store × Answer
setex_with rt ctx key value (parsed d) s =
    said ok_reply (Values.set rt.hash ctx.mono_now key value (at d) Condition.none false s).0
setex_with rt ctx key value (refused e) s = said e s
setex_with rt ctx key value panics s = (s, panic)

unfoldable pub setex_command : Runtime → Context → List Bytes → Store → Store × Answer
setex_command rt ctx (key ∷ raw ∷ value ∷ []) s =
    setex_with rt ctx key value (parse_deadline ctx (codes "setex") ex raw) s
setex_command rt ctx _ s = said (err_wrong_args (codes "setex")) s

unfoldable pub setnx_command : Runtime → Context → List Bytes → Store → Store × Answer
setnx_command rt ctx (key ∷ value ∷ []) s =
    let (s', outcome) =
      Values.set rt.hash ctx.mono_now key value Expiry.none if_not_exists false s in
    said (flag outcome.applied) s'
setnx_command rt ctx _ s = said (err_wrong_args (codes "setnx")) s

unfoldable pub getdel_command : Context → List Bytes → Store → Store × Answer
getdel_command ctx (key ∷ []) s = bulk_or_nil (Values.get_del ctx.mono_now key s)
getdel_command ctx _ s = said (err_wrong_args (codes "getdel")) s

unfoldable pub getex_with : Context → Bytes → Parsed (Option Expiry) → Store → Store × Answer
getex_with ctx key (parsed x) s = bulk_or_nil (Values.get_ex ctx.mono_now key x s)
getex_with ctx key (refused e) s = said e s
getex_with ctx key panics s = (s, panic)

unfoldable pub getex_command : Runtime → Context → List Bytes → Store → Store × Answer
getex_command rt ctx (key ∷ opts) s = getex_with ctx key (parse_getex_options rt ctx opts) s
getex_command rt ctx [] s = said (err_wrong_args (codes "getex")) s
