-- ===== src/Dispatch/Connection/Laws.antt =====
-- The constant-time comparison is equality, and what AUTH does with it.
use pg_resp.Prelude.{
  ℕ, zero, suc, ◌*◌, ◌/◌, ◌%◌, ◌<◌, ◌≡◌, refl, ap, ◌∙◌, ◌↔◌, true, [], ◌∷◌, Bytes, All, length,
  arith,
}
use pg_resp.Dispatch.Connection.{bit_xor, bit_or, either_bit, difference, constant_time_eq}

abbrev pow2 : ℕ → ℕ
pow2 zero = 1
pow2 (suc w) = 2 * pow2 w

xor_bound : (w a b : ℕ) → bit_xor w a b < pow2 w
unfolding bit_xor
xor_bound zero a b = omega arith
xor_bound (suc w) a b = omega (arith, xor_bound w (a / 2) (b / 2))

either_bound : (a b : ℕ) → either_bit a b < 2
either_bound a b = ground arith

or_bound : (w a b : ℕ) → bit_or w a b < pow2 w
unfolding bit_or
or_bound zero a b = omega arith
or_bound (suc w) a b = omega (arith, or_bound w (a / 2) (b / 2), either_bound (a % 2) (b % 2))

xor_self : (w a : ℕ) → bit_xor w a a ≡ 0
unfolding bit_xor
xor_self zero a = refl
xor_self (suc w) a = omega (arith, xor_self w (a / 2))

xor_zero : (w a b : ℕ) → a < pow2 w → b < pow2 w → bit_xor w a b ≡ 0 → a ≡ b
unfolding bit_xor
xor_zero zero a b p q h = omega arith
xor_zero (suc w) a b p q h =
    let u : a / 2 < pow2 w = omega arith in
    let v : b / 2 < pow2 w = omega arith in
    let z : bit_xor w (a / 2) (b / 2) ≡ 0 = omega arith in
    omega (arith, xor_zero w (a / 2) (b / 2) u v z)

or_zeros : (w : ℕ) → bit_or w 0 0 ≡ 0
unfolding bit_or
or_zeros zero = refl
or_zeros (suc w) = omega (arith, or_zeros w)

either_zero : (a b : ℕ) → either_bit a b ≡ 0 → (a ≡ 0) × (b ≡ 0)
either_zero a b h = (ground arith, ground arith)

or_zero : (w a b : ℕ) → a < pow2 w → b < pow2 w → bit_or w a b ≡ 0 → (a ≡ 0) × (b ≡ 0)
unfolding bit_or
or_zero zero a b p q h = (omega arith, omega arith)
or_zero (suc w) a b p q h =
    let u : a / 2 < pow2 w = omega arith in
    let v : b / 2 < pow2 w = omega arith in
    let z : bit_or w (a / 2) (b / 2) ≡ 0 = omega arith in
    let e : either_bit (a % 2) (b % 2) ≡ 0 = omega arith in
    let halves = or_zero w (a / 2) (b / 2) u v z in
    let bits = either_zero (a % 2) (b % 2) e in
    (omega (arith, halves.0, bits.0), omega (arith, halves.1, bits.1))

difference_self : (xs : Bytes) → difference 0 xs xs ≡ 0
unfolding difference
difference_self [] = refl
difference_self (x ∷ xs) =
    ap (λ d. difference (bit_or 8 0 d) xs xs) (xor_self 8 x)
    ∙ ap (λ d. difference d xs xs) (or_zeros 8)
    ∙ difference_self xs

abbrev pub IsByte : ℕ → Type 0
IsByte x = x < 256

difference_zero :
    (d : ℕ) (xs ys : Bytes)
    → d < 256
    → All IsByte xs
    → All IsByte ys
    → length xs ≡ length ys
    → difference d xs ys ≡ 0
    → (d ≡ 0) × (xs ≡ ys)
unfolding difference
difference_zero d [] [] p a b l h = (h, refl)
difference_zero d [] (y ∷ ys) p a b l h = ground arith
difference_zero d (x ∷ xs) [] p a b l h = ground arith
difference_zero d (x ∷ xs) (y ∷ ys) p (x256, a) (y256, b) l h =
    let t : length xs ≡ length ys = omega arith in
    let rest = difference_zero (bit_or 8 d (bit_xor 8 x y)) xs ys (or_bound 8 _ _) a b t h in
    let zeros = or_zero 8 d (bit_xor 8 x y) p (xor_bound 8 x y) rest.0 in
    let heads = xor_zero 8 x y x256 y256 zeros.1 in (zeros.0, rw (heads, rest.1) refl)

-- On byte strings the comparison that never stops early is equality.
pub constant_time_eq_iff :
    (a b : Bytes) → All IsByte a → All IsByte b → (constant_time_eq a b ≡ true) ↔ (a ≡ b)
unfolding constant_time_eq
constant_time_eq_iff a b p q = (
  λ h.
      let l : length a ≡ length b = ground arith in
      let z : difference 0 a b ≡ 0 = ground arith in
      (difference_zero 0 a b (omega arith) p q l z).1,
  λ e. rw e (let z = difference_self b in ground arith),
)
