-- ===== src/Prelude/Int.antt =====
-- Signed integers over the native numbers; an `i64` is such an integer within its range.
use Prim.Native.Nat.{ℕ, suc, ◌+◌, ◌-◌, ◌/◌, ◌%◌, ◌≤◌, ◌<◌}
use mathlib.Core.Option.{Option, none, some}
use mathlib.Core.Path.{◌≡◌}
use mathlib.Core.Bool.{Bool, true, false}
use native.Mathlib.Omega.{arith}
use pg_resp.Prelude.Tests.{ltb, leb, if◌then◌else◌}

-- `negsuc n` is -(n + 1).
pub data ℤ : Type 0 where
  pos : ℕ → ℤ
  negsuc : ℕ → ℤ

abbrev pub pos_part : ℤ → ℕ
pos_part (pos n) = n
pos_part (negsuc n) = 0

abbrev pub neg_part : ℤ → ℕ
neg_part (pos n) = 0
neg_part (negsuc n) = suc n

abbrev pub sub_ℕ : ℕ → ℕ → ℤ
sub_ℕ a b = if leb b a then pos (a - b) else negsuc (b - a - 1)

infixl 65 ◌+ℤ◌
unfoldable pub ◌+ℤ◌ : ℤ → ℤ → ℤ
a +ℤ b = sub_ℕ (pos_part a + pos_part b) (neg_part a + neg_part b)

abbrev pub neg : ℤ → ℤ
neg a = sub_ℕ (neg_part a) (pos_part a)

-- 2 ^ 63
abbrev pub i64_mod : ℕ
i64_mod = 9223372036854775808

-- 2 ^ 64
abbrev pub u64_mod : ℕ
u64_mod = 18446744073709551616

-- the value is one of an `i64`
abbrev pub IsI64 : ℤ → Type 0
IsI64 a = (pos_part a < i64_mod) × (neg_part a ≤ i64_mod)

abbrev pub in_i64 : ℤ → Bool
in_i64 (pos n) = ltb n i64_mod
in_i64 (negsuc n) = ltb n i64_mod

abbrev pub is_positive : ℤ → Bool
is_positive (pos n) = ltb 0 n
is_positive (negsuc n) = false

-- `n as i64`
unfoldable pub as_i64 : ℕ → ℤ
as_i64 n = let m = n % u64_mod in if ltb m i64_mod then pos m else negsuc (u64_mod - 1 - m)

-- the value modulo 2 ^ 64 that an `i64` operation keeps on overflow
unfoldable pub wrap_i64 : ℤ → ℤ
unfolding as_i64
wrap_i64 (pos n) = as_i64 n
wrap_i64 (negsuc n) = as_i64 (u64_mod - 1 - n % u64_mod)

-- `a / b` on an `i64`, which rounds towards zero
unfoldable pub div_trunc : ℤ → ℕ → ℤ
div_trunc (pos n) b = pos (n / b)
div_trunc (negsuc n) b = neg (pos (suc n / b))

-- `a.checked_add(b)`
unfoldable pub checked_add : ℤ → ℤ → Option ℤ
unfolding ◌+ℤ◌
checked_add a b = let c = a +ℤ b in if in_i64 c then some c else none

-- `a.checked_neg()`
unfoldable pub checked_neg : ℤ → Option ℤ
checked_neg a = let c = neg a in if in_i64 c then some c else none

pub in_i64→IsI64 : (a : ℤ) → in_i64 a ≡ true → IsI64 a
in_i64→IsI64 (pos n) h = (ground arith, omega arith)
in_i64→IsI64 (negsuc n) h = (omega arith, ground arith)

pub as_i64_small : (n : ℕ) → n < i64_mod → as_i64 n ≡ pos n
unfolding as_i64
as_i64_small n h = ground arith
