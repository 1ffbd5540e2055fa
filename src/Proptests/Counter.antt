-- ===== src/Proptests/Counter.antt =====
-- The test `incr_monotonic_under_churn` of crates/resp-store/src/proptests.rs.
use pg_resp.Prelude.{
  bytes_eq, bytes_beq, ℕ, ◌≡◌, refl, ap, ◌∙◌, true, false, ◌&&◌, Bool, Option, none, some, List, [],
  ◌∷◌, ◌++◌, arith, Bytes, codes, nat_beq, ◌==◌,
}
use pg_resp.Decimal.{nat_to_string}
use pg_resp.Prelude.Int.{ℤ, pos, negsuc, ◌+ℤ◌, in_i64}
use pg_resp.HashMap.{lookup}
use pg_resp.Store.Types.{Instant, Store, RandomState, IncrError, Result, ok, err}
use pg_resp.Store.Account.{new}
use pg_resp.Store.Account.Valid.{IsValid}
use pg_resp.Store.Account.View.{visible, alive}
use pg_resp.Store.Steady.{incr_by-Steady}
use pg_resp.Store.Values.{incr_by}
use pg_resp.Store.Values.Valid.{incr_by-IsValid}
use pg_resp.Store.Values.Writes.{
  number_at, deadline_at, sum_visible, incr_by-visible, incr_by-ok, number-after,
}
use pg_resp.Proptests.{put, repeat}
use pg_resp.Proptests.Writes.{put-IsValid, put-Steady, visible-put_ne}

-- `format!("churn{ck}")`
abbrev pub churn_key : ℕ → Bytes
churn_key i = codes "churn" ++ nat_to_string i

abbrev pub target : Bytes
target = codes "target"

-- `churn_iter.next()` of a `cycle()`: the next of `rest`, or the first of all.
abbrev pub cycle_next {ℓ} : {A : Type ℓ} → (all rest : List A) → Option (A × List A)
cycle_next [] [] = none
cycle_next (x ∷ xs) [] = some (x, xs)
cycle_next all (x ∷ rest) = some (x, rest)

-- `==` of two numbers
abbrev pub same_number : ℤ → ℤ → Bool
same_number (pos a) (pos b) = nat_beq a b
same_number (negsuc a) (negsuc b) = nat_beq a b
same_number (pos a) (negsuc b) = false
same_number (negsuc a) (pos b) = false

-- `result == Ok(expected)`
abbrev pub is_ok : ℤ → Result ℤ IncrError → Bool
is_ok expected (ok n) = same_number n expected
is_ok expected (err e) = false

-- The loop: whether no assertion fails and there is always churn to interleave.
unfoldable pub counts :
    RandomState → Instant → (churn rest : List (ℕ × ℕ)) → ℤ → List ℤ → Store → Bool
counts r now churn rest expected [] s = true
counts r now churn rest expected (delta ∷ deltas) s = elim (cycle_next churn rest) [
  | none ↦ false
  | some ((ck, cv), rest') ↦
      let s' = put r now (churn_key ck) (repeat b'y' cv) s in
      let (s'', result) = incr_by r now target delta s' in
      is_ok (expected +ℤ delta) result && counts r now churn rest' (expected +ℤ delta) deltas s''
]

unfoldable pub incr_monotonic_under_churn :
    RandomState → Instant → List ℤ → (churn : List (ℕ × ℕ)) → Bool
incr_monotonic_under_churn r now deltas churn = counts r now churn churn (pos 0) deltas new

-- No sum of the first increments leaves the `i64`s.
abbrev pub InRange : ℤ → List ℤ → Type 0
InRange n [] = Unit
InRange n (d ∷ ds) = (in_i64 (n +ℤ d) ≡ true) × InRange (n +ℤ d) ds

-- The target shows the number counted so far, or is missing at 0, in a store with no budget.
record Counted (now : Instant) (n : ℤ) (s : Store) : Type 0 where
  valid : IsValid s
  free : s.max_memory_bytes ≡ none
  number : number_at (visible now target s) ≡ some n
  lasting : deadline_at (visible now target s) ≡ none

same_number_self : (n : ℤ) → same_number n n ≡ true
same_number_self (pos a) = ground arith
same_number_self (negsuc a) = ground arith

churn_key-ne-target : (i : ℕ) → (churn_key i == target) ≡ false
unfolding bytes_beq
churn_key-ne-target i = refl

put-Counted :
    (r : RandomState) (now : Instant) (i : ℕ) (value : Bytes) (n : ℤ) (s : Store)
    → Counted now n s
    → Counted now n (put r now (churn_key i) value s)
put-Counted r now i value n s h =
    let k = churn_key i in
    let same = visible-put_ne r now k target value s h.valid h.free (churn_key-ne-target i) in
    record {
      valid = put-IsValid r now k value s h.valid;
      free = (put-Steady r now k value s h.valid).budget ∙ h.free;
      number = ap number_at same ∙ h.number;
      lasting = ap deadline_at same ∙ h.lasting;
    }

alive-deadline :
    (now : Instant) (value : Bytes) (o : Option Instant)
    → o ≡ none
    → deadline_at (alive now (value, o)) ≡ none
alive-deadline now value o lasting = ap (λ t. deadline_at (alive now (value, t))) lasting

incr_by-Counted :
    (r : RandomState) (now : Instant) (n d : ℤ) (s : Store)
    → in_i64 (n +ℤ d) ≡ true
    → Counted now n s
    → Counted now (n +ℤ d) (incr_by r now target d s).0
incr_by-Counted r now n d s fits h = record {
  valid = incr_by-IsValid r now target d s h.valid;
  free = (incr_by-Steady r now target d s h.valid).budget ∙ h.free;
  number = number-after r now target n d s h.valid h.number h.lasting fits;
  lasting =
      ap deadline_at (
        (incr_by-visible r now target d s h.valid).1
        ∙ ap (sum_visible now (visible now target s))
            (incr_by-ok r now target n d s h.valid h.number fits))
      ∙ alive-deadline now _ _ h.lasting;
}

incr_by-is_ok :
    (r : RandomState) (now : Instant) (n d : ℤ) (s : Store)
    → in_i64 (n +ℤ d) ≡ true
    → Counted now n s
    → is_ok (n +ℤ d) (incr_by r now target d s).1 ≡ true
incr_by-is_ok r now n d s fits h =
    ap (is_ok (n +ℤ d)) (
      (incr_by-visible r now target d s h.valid).0
      ∙ incr_by-ok r now target n d s h.valid h.number fits)
    ∙ same_number_self (n +ℤ d)

-- There is always churn to interleave.
cycle_next-some :
    (x : ℕ × ℕ) (xs rest : List (ℕ × ℕ))
    → (y : (ℕ × ℕ) × List (ℕ × ℕ)) × (cycle_next (x ∷ xs) rest ≡ some y)
cycle_next-some x xs [] = ((x, xs), refl)
cycle_next-some x xs (y ∷ rest) = ((y, rest), refl)

counts_lem :
    (r : RandomState) (now : Instant) (x : ℕ × ℕ) (xs rest : List (ℕ × ℕ)) (n : ℤ) (deltas : List ℤ)
    (s : Store)
    → InRange n deltas
    → Counted now n s
    → counts r now (x ∷ xs) rest n deltas s ≡ true
unfolding counts
counts_lem r now x xs rest n [] s fits h = refl
counts_lem r now x xs rest n (d ∷ ds) s (fit, fits) h =
    let (((ck, cv), rest'), taken) = cycle_next-some x xs rest in
    let s' = put r now (churn_key ck) (repeat b'y' cv) s in
    let h' = put-Counted r now ck (repeat b'y' cv) n s h in
    let right = incr_by-is_ok r now n d s' fit h' in
    let more =
      counts_lem r now x xs rest' (n +ℤ d) ds (incr_by r now target d s').0 fits
        (incr_by-Counted r now n d s' fit h') in
    rw (taken, counts, right) more

-- The test holds: whatever other keys are written in between, each increment of the target answers
-- the sum of the increments so far, as long as no such sum leaves the `i64`s and there is a write
-- to interleave.
pub incr_monotonic_under_churn_lem :
    (r : RandomState) (now : Instant) (deltas : List ℤ) (x : ℕ × ℕ) (xs : List (ℕ × ℕ))
    → InRange (pos 0) deltas
    → incr_monotonic_under_churn r now deltas (x ∷ xs) ≡ true
unfolding incr_monotonic_under_churn lookup
incr_monotonic_under_churn_lem r now deltas x xs fits =
    counts_lem r now x xs (x ∷ xs) (pos 0) deltas new fits (record {
      valid = record { distinct = tt; accounted = refl };
      free = refl;
      number = refl;
      lasting = refl;
    })
