-- ===== src/Decimal/RoundTrip.antt =====
-- A printed number is read back, and the print is made of digits.
use pg_resp.Prelude.{
  ℕ, zero, suc, ◌+◌, ◌*◌, ◌/◌, ◌%◌, ◌≤◌, ◌<◌, ◌≡◌, refl, sym, ap, ◌∙◌, some, [], ◌∷◌, ◌++◌,
  append_assoc, append-nil, arith, Bytes, All, All-append, ltb, Bool-cases, inl, inr, ltb→lt,
}
use pg_resp.Prelude.Int.{ℤ, pos, negsuc, IsI64, i64_mod, u64_mod}
use pg_resp.Decimal.{
  digits, nat_to_string, to_string, scan_digits, parse_digits, parse_i64, parse_u64,
}

abbrev pub IsDigit : ℕ → Type 0
IsDigit c = (b'0' ≤ c) × (c ≤ b'9')

scan-digit :
    (d : ℕ) (rest : Bytes) (acc : ℕ)
    → d < 10
    → scan_digits ((b'0' + d) ∷ rest) acc ≡ scan_digits rest (acc * 10 + d)
unfolding scan_digits
scan-digit d rest acc h = ground arith

scan-digits :
    (f n : ℕ) (rest : Bytes) → n < f → scan_digits (digits f n ++ rest) 0 ≡ scan_digits rest n
unfolding digits
scan-digits zero n rest h = absurd (omega arith)
scan-digits (suc f) n rest h = elim (Bool-cases (ltb n 10)) [
  | inl small ↦
      rw small (scan-digit n rest 0 (omega (arith, ltb→lt)) ∙ ap (scan_digits rest) (omega arith))
  | inr large ↦
      rw (large, append_assoc)
        (scan-digits f (n / 10) ((b'0' + n % 10) ∷ rest) (ground arith)
          ∙ scan-digit (n % 10) rest (n / 10) (omega arith)
          ∙ ap (scan_digits rest) (omega arith))
]

-- The first byte of the print.
pub digits-head : (f n : ℕ) → (c : ℕ) × (s : Bytes) × (digits (suc f) n ≡ c ∷ s) × IsDigit c
unfolding digits
digits-head zero n = elim (Bool-cases (ltb n 10)) [
  | inl small ↦ (b'0' + n, [], rw small, (omega arith, omega (arith, ltb→lt n 10 small)))
  | inr large ↦ (b'0' + n % 10, [], rw large, (omega arith, omega arith))
]
digits-head (suc f) n = elim (Bool-cases (ltb n 10)) [
  | inl small ↦ (b'0' + n, [], rw small, (omega arith, omega (arith, ltb→lt n 10 small)))
  | inr large ↦
      let (c, s, p, d) = digits-head f (n / 10) in
      (c, s ++ (b'0' + n % 10) ∷ [], rw large (ap (λ t. t ++ (b'0' + n % 10) ∷ []) p), d)
]

parse_digits-head : (c : ℕ) (s : Bytes) → parse_digits (c ∷ s) ≡ scan_digits (c ∷ s) 0
unfolding parse_digits
parse_digits-head c s = refl

parse_digits-to_string : (n : ℕ) → parse_digits (nat_to_string n) ≡ some n
unfolding nat_to_string scan_digits
parse_digits-to_string n =
    let (c, s, p, d) = digits-head n n in
    ap parse_digits p
    ∙ parse_digits-head c s
    ∙ ap (λ t. scan_digits t 0) (sym p)
    ∙ ap (λ t. scan_digits t 0) (sym (append-nil (digits (suc n) n)))
    ∙ scan-digits (suc n) n [] (omega arith)

parse_i64-digit :
    (c : ℕ) (s : Bytes) (n : ℕ)
    → IsDigit c
    → parse_digits (c ∷ s) ≡ some n
    → n < i64_mod
    → parse_i64 (c ∷ s) ≡ some (pos n)
unfolding parse_i64
parse_i64-digit c s n d h fits = ground arith

parse_u64-digit :
    (c : ℕ) (s : Bytes) (n : ℕ)
    → IsDigit c
    → parse_digits (c ∷ s) ≡ some n
    → n < u64_mod
    → parse_u64 (c ∷ s) ≡ some n
unfolding parse_u64
parse_u64-digit c s n d h fits = ground arith

parse_i64-minus :
    (s : Bytes) (n : ℕ)
    → parse_digits s ≡ some (suc n)
    → n < i64_mod
    → parse_i64 (b'-' ∷ s) ≡ some (negsuc n)
unfolding parse_i64
parse_i64-minus s n h fits = ground arith

digits-IsDigit : (f n : ℕ) → All IsDigit (digits f n)
unfolding digits
digits-IsDigit zero n = tt
digits-IsDigit (suc f) n = elim (Bool-cases (ltb n 10)) [
  | inl small ↦ rw small ((omega arith, omega (arith, ltb→lt n 10 small)), tt)
  | inr large ↦ rw large (
      All-append IsDigit (digits f (n / 10)) _ (digits-IsDigit f (n / 10))
        ((omega arith, omega arith), tt))
]

pub nat_to_string-IsDigit : (n : ℕ) → All IsDigit (nat_to_string n)
unfolding nat_to_string
nat_to_string-IsDigit n = digits-IsDigit (suc n) n

pub nat_to_string-head : (n : ℕ) → (c : ℕ) × (s : Bytes) × (nat_to_string n ≡ c ∷ s) × IsDigit c
unfolding nat_to_string
nat_to_string-head n = digits-head n n

to_string-pos : (n : ℕ) → to_string (pos n) ≡ nat_to_string n
unfolding to_string
to_string-pos n = refl

to_string-negsuc : (n : ℕ) → to_string (negsuc n) ≡ b'-' ∷ nat_to_string (suc n)
unfolding to_string
to_string-negsuc n = refl

-- Every `i64` is read back from its print.
pub parse_i64-to_string : (a : ℤ) → IsI64 a → parse_i64 (to_string a) ≡ some a
parse_i64-to_string (pos n) h =
    let (c, s, p, d) = nat_to_string-head n in
    ap parse_i64 (to_string-pos n ∙ p)
    ∙ parse_i64-digit c s n d (ap parse_digits (sym p) ∙ parse_digits-to_string n) h.0
parse_i64-to_string (negsuc n) h =
    ap parse_i64 (to_string-negsuc n)
    ∙ parse_i64-minus (nat_to_string (suc n)) n (parse_digits-to_string (suc n)) (omega arith)

-- Every length or cursor is read back from its print, as a `u64`.
pub parse_u64-to_string : (n : ℕ) → n < u64_mod → parse_u64 (nat_to_string n) ≡ some n
parse_u64-to_string n h =
    let (c, s, p, d) = nat_to_string-head n in
    ap parse_u64 p ∙ parse_u64-digit c s n d (ap parse_digits (sym p) ∙ parse_digits-to_string n) h

-- The same, as an `i64`: how a length prefix of the wire is read.
pub parse_i64-nat_to_string : (n : ℕ) → n < i64_mod → parse_i64 (nat_to_string n) ≡ some (pos n)
parse_i64-nat_to_string n h =
    ap parse_i64 (sym (to_string-pos n)) ∙ parse_i64-to_string (pos n) (h, omega arith)
