-- ===== src/Store/Values.antt =====
-- The operations of `Store` on values: GET, SET and their kin (crates/resp-store/src/lib.rs).
-- Each returns the store after the call beside its result.
pub mod Valid
pub mod Reads
pub mod Writes
use pg_resp.Prelude.{
  bytes_eq, ℕ, suc, Bool, true, false, not, Option, none, some, List, [], ◌∷◌, Bytes, length,
  is_some, and_then, option_map, if◌then◌else◌,
}
use pg_resp.Prelude.Int.{ℤ, pos, checked_add}
use pg_resp.Decimal.{parse_i64, to_string}
use pg_resp.HashMap.{lookup, modify, contains_key}
use pg_resp.Store.Types.{
  Instant, Entry, Expiry, keep_ttl, at, Condition, if_exists, if_not_exists, SetOutcome, IncrError,
  not_an_integer, overflow, Result, ok, err, Store, RandomState, wrapping_add,
}
use pg_resp.Store.Account.{expire_if_needed, insert_accounted, remove_accounted}

abbrev pub hit : Store → Store
hit s = record s { hits = wrapping_add s.hits 1 }

abbrev pub miss : Store → Store
miss s = record s { misses = wrapping_add s.misses 1 }

-- `e.clock_bit = true` through `get_mut`
abbrev pub touch : Bytes → Store → Store
touch key s = record s { map = modify key (λ e. record e { clock_bit = true }) s.map }

unfoldable pub get : Instant → Bytes → Store → Store × Option Bytes
get now key s =
    let s' = expire_if_needed key now s in
    elim (lookup key s'.map) [
      | some e ↦ (hit (touch key s'), some e.value)
      | none ↦ (miss s', none)
    ]

abbrev pub condition_ok : Condition → Bool → Bool
condition_ok Condition.none exists = true
condition_ok if_exists exists = exists
condition_ok if_not_exists exists = not exists

-- The deadline of the key as it is: `self.map.get(key).and_then(|e| e.expires_at)`.
abbrev pub deadline_of : Bytes → Store → Option Instant
deadline_of key s = and_then (lookup key s.map) (λ e. e.expires_at)

abbrev pub resolve : Expiry → Bytes → Store → Option Instant
resolve Expiry.none key s = none
resolve keep_ttl key s = deadline_of key s
resolve (at deadline) key s = some deadline

abbrev pub fresh : Bytes → Option Instant → Entry
fresh value expires_at = record { value = value; expires_at = expires_at; clock_bit = false }

unfoldable pub set :
    RandomState → Instant → Bytes → Bytes → Expiry → Condition → Bool → Store → Store × SetOutcome
set r now key value expiry condition want_old s =
    let s' = expire_if_needed key now s in
    let old = if want_old then option_map (λ (e : Entry). e.value) (lookup key s'.map) else none in
    if condition_ok condition (contains_key key s'.map)
    then (
      insert_accounted r key (fresh value (resolve expiry key s')) s',
      record { applied = true; old_value = old },
    )
    else (s', record { applied = false; old_value = old })

unfoldable pub get_del : Instant → Bytes → Store → Store × Option Bytes
get_del now key s =
    let s' = expire_if_needed key now s in
    elim (lookup key s'.map) [
      | some e ↦ ((remove_accounted key (hit s')).0, some e.value)
      | none ↦ (miss s', none)
    ]

abbrev pub set_deadline : Bytes → Option Instant → Store → Store
set_deadline key expires_at s = record s {
  map = modify key (λ e. record e { expires_at = expires_at }) s.map;
}

abbrev pub update_deadline : Option Expiry → Bytes → Store → Store
update_deadline none key s = s
update_deadline (some expiry) key s = set_deadline key (resolve expiry key s) s

unfoldable pub get_ex : Instant → Bytes → Option Expiry → Store → Store × Option Bytes
get_ex now key expiry s =
    let s' = expire_if_needed key now s in
    elim (lookup key s'.map) [
      | some e ↦ (update_deadline expiry key (hit s'), some e.value)
      | none ↦ (miss s', none)
    ]

-- The number in the key: 0 if the key is missing, `none` if the value is no `i64`.
abbrev pub current_value : Option Entry → Option ℤ
current_value none = some (pos 0)
current_value (some e) = parse_i64 e.value

-- The write of the sum, if it is an `i64`.
unfoldable pub store_sum : RandomState → Bytes → Store → Option ℤ → Store × Result ℤ IncrError
store_sum r key s none = (s, err overflow)
store_sum r key s (some new_value) =
    (insert_accounted r key (fresh (to_string new_value) (deadline_of key s)) s, ok new_value)

unfoldable pub add_delta : RandomState → Bytes → ℤ → Store → Option ℤ → Store × Result ℤ IncrError
add_delta r key delta s none = (s, err not_an_integer)
add_delta r key delta s (some current) = store_sum r key s (checked_add current delta)

unfoldable pub incr_by : RandomState → Instant → Bytes → ℤ → Store → Store × Result ℤ IncrError
incr_by r now key delta s =
    let s' = expire_if_needed key now s in
    add_delta r key delta s' (current_value (lookup key s'.map))

unfoldable pub mget : Instant → List Bytes → Store → Store × List (Option Bytes)
mget now [] s = (s, [])
mget now (key ∷ keys) s =
    let (s', value) = get now key s in let (s'', values) = mget now keys s' in (s'', value ∷ values)

unfoldable pub mset : RandomState → List (Bytes × Bytes) → Store → Store
mset r [] s = s
mset r ((key, value) ∷ pairs) s = mset r pairs (insert_accounted r key (fresh value none) s)
