-- ===== src/Decimal.antt =====
-- Decimal numbers as the program reads and prints them: `str::parse::<i64>`, `str::parse::<u64>`
-- and `to_string`, which crates/resp-proto, crates/resp-store and crates/pg_resp call.
pub mod RoundTrip
use pg_resp.Prelude.{
  ℕ, zero, suc, ◌+◌, ◌-◌, ◌*◌, ◌/◌, ◌%◌, ◌≡◌, refl, ◌||◌, Option, none, some, List, [], ◌∷◌, ◌++◌,
  Bytes, codes, ltb, leb, nat_beq, if◌then◌else◌, and_then,
}
use pg_resp.Prelude.Int.{ℤ, pos, negsuc, neg, i64_mod, u64_mod}

-- The digits of `n`, most significant first; the fuel bounds their number.
unfoldable pub digits : ℕ → ℕ → Bytes
digits zero n = []
digits (suc f) n =
    let more = digits f (n / 10) ++ (b'0' + n % 10) ∷ [] in
    if ltb n 10 then (b'0' + n) ∷ [] else more

-- `n.to_string()` for an unsigned number
unfoldable pub nat_to_string : ℕ → Bytes
unfolding digits
nat_to_string n = digits (suc n) n

-- `n.to_string()` for an `i64`
unfoldable pub to_string : ℤ → Bytes
unfolding nat_to_string
to_string (pos n) = nat_to_string n
to_string (negsuc n) = b'-' ∷ nat_to_string (suc n)

-- The digits of a text behind the value `acc` of those read before.
unfoldable pub scan_digits : Bytes → ℕ → Option ℕ
scan_digits [] acc = some acc
scan_digits (c ∷ s) acc =
    let rest = scan_digits s (acc * 10 + (c - b'0')) in
    if ltb c b'0' || ltb b'9' c then none else rest

-- One digit or more.
unfoldable pub parse_digits : Bytes → Option ℕ
unfolding scan_digits
parse_digits [] = none
parse_digits (c ∷ s) = scan_digits (c ∷ s) 0

abbrev pub below : ℕ → ℕ → Option ℕ
below bound n = if ltb n bound then some n else none

-- `s.parse::<i64>().ok()`: an optional sign, then digits, in range
unfoldable pub parse_i64 : Bytes → Option ℤ
unfolding parse_digits
parse_i64 [] = none
parse_i64 (c ∷ s) =
    if nat_beq c b'-'
    then and_then (parse_digits s) (λ n. if leb n i64_mod then some (neg (pos n)) else none)
    else and_then (parse_digits (if nat_beq c b'+' then s else c ∷ s))
        (λ n. if ltb n i64_mod then some (pos n) else none)

-- `s.parse::<u64>().ok()`: an optional plus sign, then digits, in range
unfoldable pub parse_u64 : Bytes → Option ℕ
unfolding parse_digits
parse_u64 [] = none
parse_u64 (c ∷ s) = and_then (parse_digits (if nat_beq c b'+' then s else c ∷ s)) (below u64_mod)

i64_min : parse_i64 (codes "-9223372036854775808") ≡ some (negsuc 9223372036854775807)
unfolding parse_i64
i64_min = refl

i64_overflow : parse_i64 (codes "9223372036854775808") ≡ none
unfolding parse_i64
i64_overflow = refl

to_string_min : to_string (negsuc 9223372036854775807) ≡ codes "-9223372036854775808"
unfolding to_string
to_string_min = refl
