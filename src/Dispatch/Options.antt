-- ===== src/Dispatch/Options.antt =====
-- The options of SET and GETEX and their deadlines (crates/pg_resp/src/dispatch.rs).
use pg_resp.Prelude.{
  bytes_eq, ◌==◌, ◌*◌, Bool, true, false, Option, none, some, List, [], ◌∷◌, Bytes, codes, is_some,
  if◌then◌else◌,
}
use pg_resp.Prelude.Int.{ℤ, pos_part, is_positive}
use pg_resp.Decimal.{parse_i64}
use pg_resp.HashMap.{lookup}
use pg_resp.Store.Types.{
  Instant, Expiry, keep_ttl, at, Condition, if_exists, if_not_exists, nanos_per_sec,
  nanos_per_milli,
}
use pg_resp.Dispatch.Runtime.{
  Runtime, Context, Parsed, parsed, refused, panics, upper, err_syntax, err_not_integer,
  err_invalid_expire, add_duration, saturating_mul, resolve_absolute_deadline,
}

pub data TimeUnit : Type 0 where
  ex px exat pxat : TimeUnit

pub data SetToken : Type 0 where
  nx xx get keepttl : SetToken
  unit : TimeUnit → SetToken

unfoldable pub time_units : List (Bytes × TimeUnit)
time_units = (codes "EX", ex) ∷ (codes "PX", px) ∷ (codes "EXAT", exat) ∷ (codes "PXAT", pxat) ∷ []

unfoldable pub set_tokens : List (Bytes × SetToken)
set_tokens =
    (codes "NX", nx)
    ∷ (codes "XX", xx)
    ∷ (codes "GET", get)
    ∷ (codes "KEEPTTL", keepttl)
    ∷ (codes "EX", unit ex)
    ∷ (codes "PX", unit px)
    ∷ (codes "EXAT", unit exat)
    ∷ (codes "PXAT", unit pxat)
    ∷ []

pub record SetOptions : Type 0 where
  pub expiry : Option Expiry
  pub condition : Condition
  pub want_get : Bool

abbrev pub default_options : SetOptions
default_options = record { expiry = none; condition = Condition.none; want_get = false }

-- The deadline that a positive number means; `none` is a panic.
unfoldable pub deadline : Context → TimeUnit → ℤ → Option Instant
deadline ctx ex n = add_duration ctx.mono_now (pos_part n * nanos_per_sec)
deadline ctx px n = add_duration ctx.mono_now (pos_part n * nanos_per_milli)
deadline ctx exat n = resolve_absolute_deadline ctx.sys_now ctx.mono_now (saturating_mul n 1000)
deadline ctx pxat n = resolve_absolute_deadline ctx.sys_now ctx.mono_now n

abbrev pub or_panic : {A : Type 0} → Option A → Parsed A
or_panic none = panics
or_panic (some a) = parsed a

abbrev pub positive_deadline : Context → Bytes → TimeUnit → Option ℤ → Parsed Instant
positive_deadline ctx cmd u none = refused err_not_integer
positive_deadline ctx cmd u (some n) =
    if is_positive n then or_panic (deadline ctx u n) else refused (err_invalid_expire cmd)

-- The number behind EX, PX, EXAT or PXAT, as a deadline.
unfoldable pub parse_deadline : Context → Bytes → TimeUnit → Bytes → Parsed Instant
parse_deadline ctx cmd u raw = positive_deadline ctx cmd u (parse_i64 raw)

-- One turn of the loop: the options with this token, the unit of a deadline whose number is the
-- next argument, or an error.
pub data OptionStep : Type 0 where
  taken : SetOptions → OptionStep
  wants : TimeUnit → OptionStep
  stop : OptionStep

abbrev pub with_condition : Condition → Condition → SetOptions → OptionStep
with_condition Condition.none wanted o = taken (record o { condition = wanted })
with_condition _ wanted o = stop

unfoldable pub set_step : Option SetToken → SetOptions → OptionStep
set_step none o = stop
set_step (some nx) o = with_condition o.condition if_not_exists o
set_step (some xx) o = with_condition o.condition if_exists o
set_step (some get) o = taken (record o { want_get = true })
set_step (some keepttl) o =
    if is_some o.expiry then stop else taken (record o { expiry = some keep_ttl })
set_step (some (unit u)) o = if is_some o.expiry then stop else wants u

unfoldable pub parse_set_options : Runtime → Context → List Bytes → SetOptions → Parsed SetOptions
parse_set_options rt ctx [] o = parsed o
parse_set_options rt ctx (t ∷ []) o = elim (set_step (lookup (upper rt t) set_tokens) o) [
  | taken o' ↦ parsed o'
  | wants u ↦ refused err_syntax
  | stop ↦ refused err_syntax
]
parse_set_options rt ctx (t ∷ raw ∷ opts) o = elim (set_step (lookup (upper rt t) set_tokens) o) [
  | taken o' ↦ parse_set_options rt ctx (raw ∷ opts) o'
  | wants u ↦ elim (parse_deadline ctx (codes "set") u raw) [
    | parsed d ↦ parse_set_options rt ctx opts (record o { expiry = some (at d) })
    | refused e ↦ refused e
    | panics ↦ panics
  ]
  | stop ↦ refused err_syntax
]

abbrev pub getex_unit : Context → Option TimeUnit → Bytes → Parsed (Option Expiry)
getex_unit ctx none raw = refused err_syntax
getex_unit ctx (some u) raw = elim (parse_deadline ctx (codes "getex") u raw) [
  | parsed d ↦ parsed (some (at d))
  | refused e ↦ refused e
  | panics ↦ panics
]

abbrev pub is_persist : Bytes → Parsed (Option Expiry)
is_persist token =
    if token == codes "PERSIST" then parsed (some Expiry.none) else refused err_syntax

-- The arguments of GETEX behind the key.
unfoldable pub parse_getex_options : Runtime → Context → List Bytes → Parsed (Option Expiry)
parse_getex_options rt ctx [] = parsed none
parse_getex_options rt ctx (t ∷ []) = is_persist (upper rt t)
parse_getex_options rt ctx (t ∷ raw ∷ []) = getex_unit ctx (lookup (upper rt t) time_units) raw
parse_getex_options rt ctx (t ∷ raw ∷ _ ∷ _) = refused err_syntax
