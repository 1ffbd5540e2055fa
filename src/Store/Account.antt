-- ===== src/Store/Account.antt =====
-- The private part of `Store`: byte accounting, lazy expiry, CLOCK-LRU eviction under the budget,
-- and the active expiry sweep (crates/resp-store/src/lib.rs).
pub mod Valid
pub mod Clock
pub mod Budget
pub mod View
use pg_resp.Prelude.{
  bytes_eq, ℕ, zero, suc, ◌+◌, ◌%◌, Bool, true, false, not, ◌&&◌, Option, none, some, List, [], ◌∷◌,
  Bytes, length, take, keep_if, map, ltb, ◌==◌, if◌then◌else◌,
}
use pg_resp.Prelude.Int.{u64_mod}
use pg_resp.HashMap.{lookup, remove, insert}
use pg_resp.Store.Types.{
  Instant, wrapping_add, wrapping_sub, Entry, ScanRegistry, Store, RandomState,
  per_entry_overhead_bytes, default_sample_size,
}

abbrev pub entry_bytes : Bytes → ℕ → ℕ
entry_bytes key value_len = (length key + value_len + per_entry_overhead_bytes) % u64_mod

abbrev pub empty_registry : ScanRegistry
empty_registry = record { cursors = []; next_id = 0 }

-- `Store::new`
abbrev pub new : Store
new = record {
  map = [];
  used_bytes = 0;
  max_memory_bytes = none;
  scan_registry = empty_registry;
  hits = 0;
  misses = 0;
  evictions = 0;
}

-- `Store::with_max_memory`
abbrev pub with_max_memory : ℕ → Store
with_max_memory max_bytes = record new { max_memory_bytes = some max_bytes }

unfoldable pub is_live : Entry → Instant → Bool
is_live entry now = elim (entry.expires_at) [ some deadline ↦ ltb now deadline | none ↦ true ]

unfoldable pub remove_accounted : Bytes → Store → Store × Option Entry
remove_accounted key s = elim (lookup key s.map) [
  | none ↦ (s, none)
  | some e ↦ (
    record s {
      map = remove key s.map;
      used_bytes = wrapping_sub s.used_bytes (entry_bytes key (length e.value));
    },
    some e,
  )
]

-- One round of the `for` loop over the sampled entries: the table with the bits cleared, the first
-- entry found with a clear bit, and the first one that got a second chance.
unfoldable pub sample :
    ℕ
    → Bytes
    → Option Bytes
    → List (Bytes × Entry)
    → List (Bytes × Entry) × Option Bytes × Option Bytes
sample zero protect fallback m = (m, none, fallback)
sample (suc n) protect fallback [] = ([], none, fallback)
sample (suc n) protect fallback ((k, e) ∷ m) =
    let skipped = sample n protect fallback m in
    let first : Option Bytes = elim fallback [ none ↦ some k | some j ↦ some j ] in
    let spared = sample n protect first m in
    if k == protect
    then ((k, e) ∷ skipped.0, skipped.1, skipped.2)
    else if e.clock_bit
    then ((k, record e { clock_bit = false }) ∷ spared.0, spared.1, spared.2)
    else ((k, e) ∷ m, some k, fallback)

-- `evict.or(fallback)`
abbrev pub or_else : Option Bytes → Option Bytes → Option Bytes
or_else none fallback = fallback
or_else (some k) fallback = some k

abbrev pub is_empty : Store → Bool
is_empty s = elim (s.map) [ [] ↦ true | _ ∷ _ ↦ false ]

abbrev pub count_eviction : Store → Store
count_eviction s = record s { evictions = wrapping_add s.evictions 1 }

-- The `match victim` of a round: `next` is the rest of the loop, `none` is its `break`.
unfoldable pub evict_victim : (Store → Store) → Store → Option Bytes → Store
evict_victim next s none = s
evict_victim next s (some k) = next (count_eviction (remove_accounted k s).0)

-- The condition of the `while` loop of `evict_to_budget`.
abbrev pub over_budget : ℕ → Store → Bool
over_budget budget s = ltb budget s.used_bytes && not (is_empty s)

abbrev pub swept : Bytes → Store → Store
swept protect s = record s { map = (sample default_sample_size protect none s.map).0 }

-- `evict.or(fallback)` after the sample
abbrev pub victim : Bytes → Store → Option Bytes
victim protect s =
    or_else (sample default_sample_size protect none s.map).1
      (sample default_sample_size protect none s.map).2

-- The `while` loop. Each round takes an entry out, so as many rounds as there are entries are
-- enough.
unfoldable pub evict_loop : ℕ → ℕ → Bytes → Store → Store
evict_loop zero budget protect s = s
evict_loop (suc rounds) budget protect s =
    let more =
      evict_victim (evict_loop rounds budget protect) (swept protect s) (victim protect s) in
    if over_budget budget s then more else s

unfoldable pub evict_to_budget : Bytes → Store → Store
evict_to_budget protect s = elim (s.max_memory_bytes) [
  | none ↦ s
  | some budget ↦ evict_loop (length s.map) budget protect s
]

-- The table and the count of bytes after `map.insert`, before the eviction.
unfoldable pub write_entry : RandomState → Bytes → Entry → Store → Store
write_entry r key entry s =
    let new_size = entry_bytes key (length entry.value) in
    let used : ℕ = elim (lookup key s.map) [
      | none ↦ s.used_bytes
      | some old ↦ wrapping_sub s.used_bytes (entry_bytes key (length old.value))
    ] in
    record s {
      map = insert r.entries key (record entry { clock_bit = true }) s.map;
      used_bytes = wrapping_add used new_size;
    }

unfoldable pub insert_accounted : RandomState → Bytes → Entry → Store → Store
insert_accounted r key entry s = evict_to_budget key (write_entry r key entry s)

unfoldable pub expire_if_needed : Bytes → Instant → Store → Store
expire_if_needed key now s = elim (lookup key s.map) [
  | none ↦ s
  | some e ↦ if is_live e now then s else (remove_accounted key s).0
]

unfoldable pub remove_all : List Bytes → Store → Store
remove_all [] s = s
remove_all (k ∷ ks) s = remove_all ks (remove_accounted k s).0

-- The keys of the first `n` entries that have expired.
unfoldable pub expired_sample : Instant → ℕ → List (Bytes × Entry) → List Bytes
expired_sample now n m = map (λ x. x.0) (keep_if (λ x. not (is_live x.1 now)) (take n m))

unfoldable pub active_expire_sweep : Instant → ℕ → Store → Store × ℕ
active_expire_sweep now sample_size s =
    let expired = expired_sample now sample_size s.map in (remove_all expired s, length expired)
