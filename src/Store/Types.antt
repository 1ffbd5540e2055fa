-- ===== src/Store/Types.antt =====
-- The data of crates/resp-store/src/lib.rs and src/scan.rs. An `Instant` is a number of
-- nanoseconds, as is a `Duration`; a `usize` and a `u64` are numbers with their wrap-around
-- written out.
use pg_resp.Prelude.{ℕ, ◌+◌, ◌-◌, ◌*◌, ◌%◌, Bool, Option, List, Bytes}
use pg_resp.Prelude.Int.{u64_mod}
use pg_resp.HashMap.{HashOrder}

abbrev pub Instant : Type 0
Instant = ℕ

abbrev pub wrapping_add : ℕ → ℕ → ℕ
wrapping_add a b = (a + b) % u64_mod

abbrev pub wrapping_sub : ℕ → ℕ → ℕ
wrapping_sub a b = (a + u64_mod - b) % u64_mod

pub record Entry : Type 0 where
  pub value : Bytes
  pub expires_at : Option Instant
  pub clock_bit : Bool

pub data Expiry : Type 0 where
  none keep_ttl : Expiry
  at : Instant → Expiry

pub data Condition : Type 0 where
  none if_exists if_not_exists : Condition

pub record SetOutcome : Type 0 where
  pub applied : Bool
  pub old_value : Option Bytes

pub data IncrError : Type 0 where
  not_an_integer overflow : IncrError

pub data Result {ℓ} (A E : Type ℓ) : Type ℓ where
  ok : A → Result A E
  err : E → Result A E

pub record Stats : Type 0 where
  pub keys : ℕ
  pub used_bytes : ℕ
  pub max_memory_bytes : Option ℕ
  pub hits : ℕ
  pub misses : ℕ
  pub evictions : ℕ

pub record ScanState : Type 0 where
  pub snapshot : List Bytes
  pub position : ℕ
  pub last_used : Instant

pub record ScanRegistry : Type 0 where
  pub cursors : List (ℕ × ScanState)
  pub next_id : ℕ

pub record Store : Type 0 where
  pub map : List (Bytes × Entry)
  pub used_bytes : ℕ
  pub max_memory_bytes : Option ℕ
  pub scan_registry : ScanRegistry
  pub hits : ℕ
  pub misses : ℕ
  pub evictions : ℕ

-- The seeds of the two hash tables: how each orders its entries.
pub record RandomState : Type 0 where
  pub entries : HashOrder (Bytes × Entry)
  pub cursors : HashOrder (ℕ × ScanState)

abbrev pub per_entry_overhead_bytes : ℕ
per_entry_overhead_bytes = 96

abbrev pub default_sample_size : ℕ
default_sample_size = 20

abbrev pub max_live_cursors : ℕ
max_live_cursors = 64

abbrev pub nanos_per_sec : ℕ
nanos_per_sec = 1000000000

abbrev pub nanos_per_milli : ℕ
nanos_per_milli = 1000000

abbrev pub cursor_idle_expiry : ℕ
cursor_idle_expiry = 60 * nanos_per_sec
