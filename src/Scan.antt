-- ===== src/Scan.antt =====
-- crates/resp-store/src/scan.rs: the registry of SCAN cursors, bounded and idle-expiring.
pub mod Capacity
pub mod Pages
pub mod Registry
pub mod Session
use pg_resp.Prelude.{
  nat_eq, ℕ, zero, suc, ◌+◌, ◌-◌, Bool, Option, none, some, List, [], ◌∷◌, Bytes, length, take,
  drop, keep_if, ltb, leb, nat_beq, if◌then◌else◌,
}
use Prim.Native.Nat.{min, max}
use pg_resp.HashMap.{HashOrder, lookup, remove, modify, insert}
use pg_resp.Store.Types.{
  Instant, ScanState, ScanRegistry, wrapping_add, max_live_cursors, cursor_idle_expiry,
}

-- The state of the cursor after a page, and the page. `position + count` is added without a wrap: the
-- position is at most a length, and a count that comes through `dispatch` is below 2 ^ 63.
unfoldable pub take_page : ScanState → ℕ → ScanState × List Bytes
take_page state count =
    let end = min (state.position + max count 1) (length state.snapshot) in
    (
      record state { position = end },
      take (end - state.position) (drop state.position state.snapshot),
    )

abbrev pub is_fresh : Instant → ScanState → Bool
is_fresh now state = ltb (now - state.last_used) cursor_idle_expiry

-- `iter().min_by_key(|(_, s)| s.last_used)`: the first of the least
unfoldable pub oldest : List (ℕ × ScanState) → Option (ℕ × Instant)
oldest [] = none
oldest ((id, state) ∷ m) = elim (oldest m) [
  | none ↦ some (id, state.last_used)
  | some (j, t) ↦ if leb state.last_used t then some (id, state.last_used) else some (j, t)
]

-- The `while` loop over capacity. A round takes one cursor out.
unfoldable pub drop_oldest : ℕ → List (ℕ × ScanState) → List (ℕ × ScanState)
drop_oldest zero m = m
drop_oldest (suc rounds) m = elim (oldest m) [
  | none ↦ m
  | some (id, _) ↦
      let rest = drop_oldest rounds (remove id m) in
      if leb max_live_cursors (length m) then rest else m
]

unfoldable pub evict_stale_and_over_capacity : Instant → ScanRegistry → ScanRegistry
evict_stale_and_over_capacity now reg =
    let kept = keep_if (λ x. is_fresh now x.1) reg.cursors in
    record reg { cursors = drop_oldest (length kept) kept }

-- `self.next_id.wrapping_add(1).max(1)`
abbrev pub next_cursor : ℕ → ℕ
next_cursor n = max (wrapping_add n 1) 1

unfoldable pub start :
    HashOrder (ℕ × ScanState)
    → Instant
    → List Bytes
    → ℕ
    → ScanRegistry
    → ScanRegistry × ℕ × List Bytes
start h now keys count reg =
    let kept = evict_stale_and_over_capacity now reg in
    let id = next_cursor kept.next_id in
    let fresh : ScanState = record { snapshot = keys; position = 0; last_used = now } in
    let paged = take_page fresh count in
    if ltb paged.0.position (length paged.0.snapshot)
    then (record { cursors = insert h id paged.0 kept.cursors; next_id = id }, id, paged.1)
    else (record kept { next_id = id }, 0, paged.1)

-- A page of a live cursor: its state is written back, and the cursor goes when it is exhausted.
unfoldable pub resume : Instant → ℕ → ℕ → ScanState → ScanRegistry → ScanRegistry × ℕ × List Bytes
resume now cursor count state reg =
    let paged = take_page (record state { last_used = now }) count in
    let cursors = modify cursor (λ _. paged.0) reg.cursors in
    if leb (length paged.0.snapshot) paged.0.position
    then (record reg { cursors = remove cursor cursors }, 0, paged.1)
    else (record reg { cursors = cursors }, cursor, paged.1)

-- `fresh_keys` is what the closure returns; it is used only where a scan starts afresh.
unfoldable pub scan :
    HashOrder (ℕ × ScanState)
    → Instant
    → ℕ
    → ℕ
    → List Bytes
    → ScanRegistry
    → ScanRegistry × ℕ × List Bytes
scan h now cursor count fresh_keys reg =
    let anew = start h now fresh_keys count reg in
    if nat_beq cursor 0 then anew else elim (lookup cursor reg.cursors) [
      | none ↦ anew
      | some state ↦ if is_fresh now state then resume now cursor count state reg else anew
    ]
