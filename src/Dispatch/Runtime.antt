-- ===== src/Dispatch/Runtime.antt =====
-- What the command dispatcher gets from outside (crates/pg_resp/src/dispatch.rs): the two clocks,
-- the password, Unicode, and the error replies it makes.
use pg_resp.Prelude.{
  ℕ, ◌+◌, ◌-◌, ◌*◌, ◌/◌, Bool, true, ◌&&◌, Option, none, some, [], ◌∷◌, ◌++◌, Bytes, codes, map,
  ltb, leb, if◌then◌else◌,
}
use pg_resp.Prelude.Int.{ℤ, pos, negsuc, ◌+ℤ◌, neg, pos_part, i64_mod, as_i64, is_positive}
use Prim.Native.Nat.{min}
use pg_resp.Proto.Reply.{Reply, error}
use pg_resp.Store.Types.{Instant, RandomState, nanos_per_sec, nanos_per_milli}

-- `from_utf8_lossy` and `to_uppercase` act on ASCII as written below; on other text they are
-- parameters, as are the hash seeds and the version that the build sets.
pub record Runtime : Type 0 where
  pub hash : RandomState
  pub to_uppercase : Bytes → Bytes
  pub from_utf8_lossy : Bytes → Bytes
  pub pkg_version : Bytes

-- The arguments of `dispatch` beside the store, the command and the connection. `sys_now` counts
-- nanoseconds from the Unix epoch.
pub record Context : Type 0 where
  pub sys_now : ℤ
  pub mono_now : Instant
  pub required_password : Option Bytes
  pub invalidations_lost : ℕ

pub record ConnState : Type 0 where
  pub authenticated : Bool

-- A reply, or the panic that the connection's fence catches.
pub data Answer : Type 0 where
  reply : Reply → Answer
  panic : Answer

-- An argument that was read, an early return with an error reply, or a panic.
pub data Parsed (A : Type 0) : Type 0 where
  parsed : A → Parsed A
  refused : Reply → Parsed A
  panics : Parsed A

abbrev pub is_ascii : Bytes → Bool
is_ascii [] = true
is_ascii (c ∷ s) = ltb c 128 && is_ascii s

abbrev pub ascii_upper : ℕ → ℕ
ascii_upper c = if leb b'a' c && leb c b'z' then c - 32 else c

unfoldable pub upper : Runtime → Bytes → Bytes
upper rt s = if is_ascii s then map ascii_upper s else rt.to_uppercase s

abbrev pub lossy : Runtime → Bytes → Bytes
lossy rt s = if is_ascii s then s else rt.from_utf8_lossy s

unfoldable pub err_wrong_args : Bytes → Reply
err_wrong_args cmd = error (codes "ERR wrong number of arguments for '" ++ cmd ++ codes "' command")

unfoldable pub err_syntax : Reply
err_syntax = error (codes "ERR syntax error")

unfoldable pub err_not_integer : Reply
err_not_integer = error (codes "ERR value is not an integer or out of range")

unfoldable pub err_invalid_expire : Bytes → Reply
err_invalid_expire cmd = error (codes "ERR invalid expire time in '" ++ cmd ++ codes "' command")

-- `mono_now + duration`, a panic where the seconds of the sum are no `i64`
unfoldable pub add_duration : Instant → ℕ → Option Instant
add_duration now nanos =
    if ltb (now + nanos) (i64_mod * nanos_per_sec) then some (now + nanos) else none

-- `n.saturating_mul(k)` on an `i64`
unfoldable pub saturating_mul : ℤ → ℕ → ℤ
saturating_mul (pos n) k = pos (min (n * k) (i64_mod - 1))
saturating_mul (negsuc n) k = neg (pos (min ((n + 1) * k) i64_mod))

-- A clock before the epoch reads 0.
abbrev pub epoch_ms : ℤ → ℤ
epoch_ms (pos nanos) = as_i64 (nanos / nanos_per_milli)
epoch_ms (negsuc n) = pos 0

unfoldable pub resolve_absolute_deadline : ℤ → Instant → ℤ → Option Instant
resolve_absolute_deadline sys_now mono_now target =
    let ahead = target +ℤ neg (epoch_ms sys_now) in
    if is_positive ahead
    then add_duration mono_now (pos_part ahead * nanos_per_milli)
    else some mono_now
