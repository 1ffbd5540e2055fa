-- ===== src/Proptests.antt =====
-- The property tests of the store (crates/resp-store/src/proptests.rs). Each test is a function of
-- the values that proptest generates, true if none of its assertions fails.
pub mod Scans
pub mod Writes
pub mod Limit
pub mod Expired
pub mod Counter
use pg_resp.Prelude.{ℕ, zero, suc, ◌-◌, false, List, [], ◌∷◌, ◌++◌, Bytes, codes, length}
use pg_resp.Decimal.{nat_to_string}
use pg_resp.Store.Types.{Instant, Store, RandomState, Expiry, Condition}
use pg_resp.Store.Values.{set}

-- `s.set(now, key, value, Expiry::None, Condition::None, false)`
abbrev pub put : RandomState → Instant → Bytes → Bytes → Store → Store
put r now key value s = (set r now key value Expiry.none Condition.none false s).0

-- `vec![byte; n]`
unfoldable pub repeat : ℕ → ℕ → Bytes
repeat byte zero = []
repeat byte (suc n) = byte ∷ repeat byte n

-- `format!("{i:04}")`
abbrev pub four_digits : ℕ → Bytes
four_digits i = let digits = nat_to_string i in repeat b'0' (4 - length digits) ++ digits

unfoldable pub init_key : ℕ → Bytes
init_key i = codes "init:" ++ four_digits i

unfoldable pub new_key : ℕ → Bytes
new_key i = codes "new:" ++ four_digits i

-- `for i in 0..n_initial`
unfoldable pub write_initial : RandomState → Instant → ℕ → Store → Store
write_initial r now zero s = s
write_initial r now (suc i) s = put r now (init_key i) (codes "v0") (write_initial r now i s)
