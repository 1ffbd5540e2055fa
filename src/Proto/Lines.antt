-- ===== src/Proto/Lines.antt =====
-- A printed line, length or payload is read back with what follows it.
use pg_resp.Prelude.{
  ℕ, suc, ◌+◌, ◌≤◌, ◌≡◌, refl, ap, ◌∙◌, ◌≢◌, false, some, [], ◌∷◌, ◌++◌, arith, Bytes, All,
  weaken-All, length, drop, length-append, take-append, drop-append, ltb,
}
use pg_resp.Prelude.Int.{ℤ, pos, negsuc}
use pg_resp.Decimal.{nat_to_string, to_string}
use pg_resp.Decimal.RoundTrip.{nat_to_string-IsDigit}
use pg_resp.Proto.Frame.{
  done, find_crlf, read_line, cut_line, crlf, fits, check_len, close_bulk, take_bulk,
}

-- no carriage return
abbrev pub NoCr : Bytes → Type 0
NoCr = All (λ c. c ≢ 13)

find_crlf-line :
    (line rest : Bytes) (i : ℕ)
    → NoCr line
    → find_crlf (line ++ 13 ∷ 10 ∷ rest) i ≡ some (i + length line)
unfolding find_crlf
find_crlf-line [] rest i h = ap some (omega arith)
find_crlf-line (c ∷ []) rest i (a, h) = ground (arith, find_crlf-line [] rest (suc i) tt)
find_crlf-line (c ∷ d ∷ s) rest i (a, h) = ground (arith, find_crlf-line (d ∷ s) rest (suc i) h)

drop-two : (line rest : Bytes) → drop (length line + 2) (line ++ 13 ∷ 10 ∷ rest) ≡ rest
drop-two [] rest = refl
drop-two (c ∷ s) rest =
    let same : length (c ∷ s) + 2 ≡ suc (length s + 2) = omega arith in
    ap (λ n. drop n ((c ∷ s) ++ 13 ∷ 10 ∷ rest)) same ∙ drop-two s rest

-- A line with no carriage return, closed by CR LF, is read whole, and what follows is left.
pub read_line-append :
    (line rest : Bytes) (at used : ℕ) (msg : Bytes)
    → NoCr line
    → read_line (line ++ (crlf ++ rest)) at used msg ≡ done line rest (at + length line + 2)
unfolding read_line cut_line
read_line-append line rest at used msg h =
    let found : find_crlf (line ++ (crlf ++ rest)) 0 ≡ some (length line) =
      find_crlf-line line rest 0 h ∙ ap some (omega arith) in
    ap (λ o. cut_line o (line ++ (crlf ++ rest)) at used msg) found
    ∙ (λ i. done (take-append line (crlf ++ rest) i) (drop-two line rest i) (at + length line + 2))

pub NoCr-nat_to_string : (n : ℕ) → NoCr (nat_to_string n)
NoCr-nat_to_string n =
    weaken-All (nat_to_string n) (λ c (a, b). omega arith) (nat_to_string-IsDigit n)

pub NoCr-to_string : (n : ℤ) → NoCr (to_string n)
unfolding to_string
NoCr-to_string (pos n) = NoCr-nat_to_string n
NoCr-to_string (negsuc n) = ((omega arith), NoCr-nat_to_string (suc n))

pub check_len-pos :
    (limit : ℕ) (bad large : Bytes) (n : ℕ)
    → n ≤ limit
    → check_len limit bad large (some (pos n)) ≡ fits n
unfolding check_len
check_len-pos limit bad large n h = ground arith

-- The payload of a bulk string is taken whole, whatever its bytes.
pub take_bulk-append :
    (payload rest : Bytes) (at : ℕ)
    → take_bulk (length payload) (payload ++ (crlf ++ rest)) at
      ≡ done payload rest (at + length payload + 2)
unfolding take_bulk close_bulk
take_bulk-append payload rest at =
    let enough : ltb (length (payload ++ (crlf ++ rest))) (length payload + 2) ≡ false =
      ground (arith, length-append payload (crlf ++ rest)) in
    rw (enough, drop-append payload (crlf ++ rest), take-append payload (crlf ++ rest))
