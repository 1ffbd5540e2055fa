-- ===== src/Store/Expire.antt =====
-- The operations of `Store` on deadlines: TTL, PTTL, EXPIRE, PERSIST (crates/resp-store/src/lib.rs).
pub mod Laws
use pg_resp.Prelude.{
  bytes_eq, ℕ, suc, ◌-◌, ◌/◌, Bool, true, false, Option, none, some, Bytes, is_some, and_then,
  if◌then◌else◌,
}
use pg_resp.Prelude.Int.{ℤ, pos, negsuc, ◌+ℤ◌, as_i64, wrap_i64, div_trunc}
use pg_resp.HashMap.{lookup, contains_key}
use pg_resp.Store.Types.{Instant, Entry, Store, nanos_per_milli}
use pg_resp.Store.Account.{expire_if_needed}
use pg_resp.Store.Values.{set_deadline, deadline_of}

-- Whether a deadline was taken away.
unfoldable pub persist : Instant → Bytes → Store → Store × Bool
persist now key s =
    let s' = expire_if_needed key now s in
    if is_some (deadline_of key s') then (set_deadline key none s', true) else (s', false)

-- `deadline.saturating_duration_since(now).as_millis() as i64`
unfoldable pub remaining_ms : Instant → Instant → ℤ
remaining_ms deadline now = as_i64 ((deadline - now) / nanos_per_milli)

-- -2 for a missing key, -1 for one with no deadline, else what `left` makes of the deadline.
abbrev pub time_left : (Instant → ℤ) → Option Entry → ℤ
time_left left none = negsuc 1
time_left left (some e) = elim (e.expires_at) [ none ↦ negsuc 0 | some deadline ↦ left deadline ]

unfoldable pub ttl_seconds : Instant → Bytes → Store → Store × ℤ
ttl_seconds now key s =
    let s' = expire_if_needed key now s in
    (
      s',
      time_left (λ deadline. div_trunc (wrap_i64 (remaining_ms deadline now +ℤ pos 500)) 1000)
          (lookup key s'.map),
    )

unfoldable pub pttl_millis : Instant → Bytes → Store → Store × ℤ
pttl_millis now key s =
    let s' = expire_if_needed key now s in
    (s', time_left (λ deadline. remaining_ms deadline now) (lookup key s'.map))

unfoldable pub expire : Instant → Bytes → Instant → Store → Store × Bool
expire now key deadline s =
    let s' = expire_if_needed key now s in
    if contains_key key s'.map then (set_deadline key (some deadline) s', true) else (s', false)
