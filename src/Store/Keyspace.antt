-- ===== src/Store/Keyspace.antt =====
-- The operations of `Store` on the set of keys (crates/resp-store/src/lib.rs).
pub mod Laws
use pg_resp.Prelude.{
  bytes_eq, ℕ, zero, suc, Bool, true, false, Option, none, some, List, [], ◌∷◌, Bytes, length,
  keep_if, map, if◌then◌else◌,
}
use pg_resp.HashMap.{lookup, contains_key}
use pg_resp.Scan
use pg_resp.Store.Types.{Instant, Entry, Stats, Store, RandomState}
use pg_resp.Store.Account.{is_live, expire_if_needed, remove_accounted, expired_sample, remove_all}

unfoldable pub stats : Store → Stats
stats s = record {
  keys = length s.map;
  used_bytes = s.used_bytes;
  max_memory_bytes = s.max_memory_bytes;
  hits = s.hits;
  misses = s.misses;
  evictions = s.evictions;
}

-- The keys that have not expired, in table order.
unfoldable pub live_keys : Instant → List (Bytes × Entry) → List Bytes
live_keys now m = map (λ x. x.0) (keep_if (λ x. is_live x.1 now) m)

unfoldable pub scan : RandomState → Instant → ℕ → ℕ → Store → Store × ℕ × List Bytes
scan r now cursor count s =
    let (registry, next_cursor, page) =
      Scan.scan r.cursors now cursor count (live_keys now s.map) s.scan_registry in
    (record s { scan_registry = registry }, next_cursor, page)

unfoldable pub all_keys : Instant → Store → List Bytes
all_keys now s = live_keys now s.map

-- `clear`: the table and the byte count; the counters stay.
unfoldable pub clear : Store → Store
clear s = record s { map = []; used_bytes = 0 }

abbrev pub first_key : List (Bytes × Entry) → Option Bytes
first_key [] = none
first_key (x ∷ m) = some x.0

unfoldable pub random_key : Instant → Store → Store × Option Bytes
random_key now s = let s' = remove_all (expired_sample now 1 s.map) s in (s', first_key s'.map)

-- The number of keys that were there and were removed.
unfoldable pub del : Instant → List Bytes → Store → Store × ℕ
del now [] s = (s, 0)
del now (key ∷ keys) s =
    let (s', removed) = remove_accounted key (expire_if_needed key now s) in
    let (s'', count) = del now keys s' in (s'', elim removed [ none ↦ count | some _ ↦ suc count ])

-- The number of keys that are there, repeats counted.
unfoldable pub exists : Instant → List Bytes → Store → Store × ℕ
exists now [] s = (s, 0)
exists now (key ∷ keys) s =
    let s' = expire_if_needed key now s in
    let (s'', count) = exists now keys s' in
    (s'', if contains_key key s'.map then suc count else count)
