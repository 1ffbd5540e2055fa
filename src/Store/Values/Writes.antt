-- ===== src/Store/Values/Writes.antt =====
-- What SET and the INCR family write, against the visible contents of the store.
use pg_resp.Prelude.{
  bytes_eq, ◌≡◌, refl, sym, ap, ◌∙◌, ◌⊎◌, Bool, true, false, not, Option, none, some, arith, Bytes,
  ◌==◌, if◌then◌else◌, option_map, is_some, inr, if_intro,
}
use pg_resp.Prelude.Int.{ℤ, pos, ◌+ℤ◌, in_i64, checked_add, in_i64→IsI64}
use pg_resp.Decimal.{parse_i64, to_string}
use pg_resp.Decimal.RoundTrip.{parse_i64-to_string}
use mathlib.Core.Path.{subst₂}
use pg_resp.HashMap.{lookup, Distinct, contains_key}
use pg_resp.Store.Types.{
  Instant, Entry, Store, RandomState, Expiry, keep_ttl, at, Condition, if_exists, if_not_exists,
  SetOutcome, Result, ok, err, overflow, not_an_integer, IncrError,
}
use pg_resp.Store.Account.{expire_if_needed, insert_accounted}
use pg_resp.Store.Account.Clock.{peek}
use pg_resp.Store.Account.Valid.{IsValid, expire_if_needed-IsValid}
use pg_resp.Store.Account.View.{
  alive, visible, peek-expire_self, visible-expire, visible-insert_accounted_self,
  visible-insert_accounted_ne,
}
use pg_resp.Store.Values.{
  set, incr_by, store_sum, add_delta, fresh, condition_ok, resolve, deadline_of, current_value,
}
use pg_resp.Store.Values.Valid.{incr_by-IsValid}
use pg_resp.Store.Values.Reads.{value_of}

-- The deadline that SET gives, from the visible state of the key.
abbrev pub new_deadline : Expiry → Option (Bytes × Option Instant) → Option Instant
new_deadline Expiry.none o = none
new_deadline keep_ttl none = none
new_deadline keep_ttl (some x) = x.1
new_deadline (at t) o = some t

-- Whether SET goes ahead, from the visible state of the key.
abbrev pub applies : Condition → Option (Bytes × Option Instant) → Bool
applies Condition.none o = true
applies if_exists o = is_some o
applies if_not_exists o = not (is_some o)

applies-condition_ok :
    (c : Condition) (o : Option (Bytes × Option Instant)) → applies c o ≡ condition_ok c (is_some o)
applies-condition_ok Condition.none o = refl
applies-condition_ok if_exists o = refl
applies-condition_ok if_not_exists o = refl

contains-peek : (k : Bytes) (s : Store) → contains_key k s.map ≡ is_some (peek k s.map)
contains-peek k s = ground arith

resolve-peek : (x : Expiry) (k : Bytes) (s : Store) → resolve x k s ≡ new_deadline x (peek k s.map)
resolve-peek Expiry.none k s = refl
resolve-peek keep_ttl k s = ground arith
resolve-peek (at t) k s = refl

applies_lem :
    (now : Instant) (k : Bytes) (c : Condition) (s : Store)
    → Distinct s.map
    → applies c (visible now k s) ≡ condition_ok c (contains_key k (expire_if_needed k now s).map)
applies_lem now k c s d =
    ap (λ o. applies c o) (sym (peek-expire_self k now s d))
    ∙ applies-condition_ok c (peek k (expire_if_needed k now s).map)
    ∙ ap (condition_ok c) (sym (contains-peek k (expire_if_needed k now s)))

old-peek :
    (want_old : Bool) (k : Bytes) (s : Store)
    → (if want_old then option_map (λ (e : Entry). e.value) (lookup k s.map) else none)
      ≡ (if want_old then value_of (peek k s.map) else none)
old-peek want_old k s = ground arith

-- The outcome of SET and what it leaves at its key, from what was visible there: the condition is
-- tested on the visible key, the old value is the visible one, and the new value shows with the
-- deadline that the option gives, unless that deadline has come already.
pub set-visible :
    (r : RandomState) (now : Instant) (k value : Bytes) (x : Expiry) (c : Condition)
    (want_old : Bool) (s : Store)
    → IsValid s
    → ((set r now k value x c want_old s).1.applied ≡ applies c (visible now k s))
      × ((set r now k value x c want_old s).1.old_value
          ≡ (if want_old then value_of (visible now k s) else none))
      × (visible now k (set r now k value x c want_old s).0 ≡ (
          if applies c (visible now k s)
          then alive now (value, new_deadline x (visible now k s))
          else visible now k s))
unfolding set
set-visible r now k value x c want_old s v =
    let s' = expire_if_needed k now s in
    let same = peek-expire_self k now s v.distinct in
    let old = old-peek want_old k s' ∙ ap (λ o. if want_old then value_of o else none) same in
    let test = applies_lem now k c s v.distinct in
    if_intro {A = Store × SetOutcome}
      (λ p.
        (p.1.applied ≡ applies c (visible now k s))
        × (p.1.old_value ≡ (if want_old then value_of (visible now k s) else none))
        × (visible now k p.0 ≡ (
            if applies c (visible now k s)
            then alive now (value, new_deadline x (visible now k s))
            else visible now k s)))
      (condition_ok c (contains_key k s'.map))
      (λ h. (
        sym (test ∙ h),
        old,
        rw (test ∙ h) (
            visible-insert_accounted_self r now k (fresh value (resolve x k s')) s'
              (expire_if_needed-IsValid k now s v).distinct
            ∙ ap (λ t. alive now (value, t)) (resolve-peek x k s' ∙ ap (new_deadline x) same)),
      ))
      (λ h. (sym (test ∙ h), old, rw (test ∙ h) (visible-expire k k now s v.distinct)))

gone_or_same :
    (r : RandomState) (now : Instant) (k j : Bytes) (e : Entry) (s : Store)
    → IsValid s
    → (k == j) ≡ false
    → (visible now j (insert_accounted r k e (expire_if_needed k now s)) ≡ none)
      ⊎ (visible now j (insert_accounted r k e (expire_if_needed k now s)) ≡ visible now j s)
gone_or_same r now k j e s v h = ground (
  arith,
  visible-expire k j now s v.distinct,
  visible-insert_accounted_ne r now k j e (expire_if_needed k now s)
      (expire_if_needed-IsValid k now s v).distinct h,
)

-- SET changes no other key: each shows what it showed, or was evicted.
pub set-visible_ne :
    (r : RandomState) (now : Instant) (k j value : Bytes) (x : Expiry) (c : Condition)
    (want_old : Bool) (s : Store)
    → IsValid s
    → (k == j) ≡ false
    → (visible now j (set r now k value x c want_old s).0 ≡ none)
      ⊎ (visible now j (set r now k value x c want_old s).0 ≡ visible now j s)
unfolding set
set-visible_ne r now k j value x c want_old s v h =
    if_intro {A = Store × SetOutcome}
      (λ p. (visible now j p.0 ≡ none) ⊎ (visible now j p.0 ≡ visible now j s))
      (condition_ok c (contains_key k (expire_if_needed k now s).map))
      (λ _. gone_or_same r now k j _ s v h) (λ _. inr (visible-expire k j now s v.distinct))

-- The visible number: 0 for a missing key, `none` if the value is no `i64`.
abbrev pub number_at : Option (Bytes × Option Instant) → Option ℤ
number_at none = some (pos 0)
number_at (some x) = parse_i64 x.0

abbrev pub deadline_at : Option (Bytes × Option Instant) → Option Instant
deadline_at none = none
deadline_at (some x) = x.1

abbrev pub in_range : Option ℤ → Result ℤ IncrError
in_range none = err overflow
in_range (some m) = ok m

-- What INCRBY answers, from the visible number and the increment.
abbrev pub sum_outcome : Option ℤ → ℤ → Result ℤ IncrError
sum_outcome none d = err not_an_integer
sum_outcome (some n) d = in_range (checked_add n d)

-- What INCRBY leaves at the key.
abbrev pub sum_visible :
    Instant → Option (Bytes × Option Instant) → Result ℤ IncrError → Option (Bytes × Option Instant)
sum_visible now o (err e) = o
sum_visible now o (ok m) = alive now (to_string m, deadline_at o)

number-peek : (k : Bytes) (s : Store) → current_value (lookup k s.map) ≡ number_at (peek k s.map)
number-peek k s = ground arith

deadline-peek : (k : Bytes) (s : Store) → deadline_of k s ≡ deadline_at (peek k s.map)
deadline-peek k s = ground arith

abbrev Answers :
    Instant
    → Bytes
    → Option (Bytes × Option Instant)
    → Result ℤ IncrError
    → Store × Result ℤ IncrError
    → Type 0
Answers now k o q p = (p.1 ≡ q) × (visible now k p.0 ≡ sum_visible now o q)

store_sum-Answers :
    (r : RandomState) (now : Instant) (k : Bytes) (s : Store) (m : Option ℤ)
    → IsValid s
    → visible now k s ≡ peek k s.map
    → Answers now k (peek k s.map) (in_range m) (store_sum r k s m)
unfolding store_sum
store_sum-Answers r now k s none v same = (refl, same)
store_sum-Answers r now k s (some m) v same = (
  refl,
  visible-insert_accounted_self r now k (fresh (to_string m) (deadline_of k s)) s v.distinct
      ∙ ap (λ t. alive now (to_string m, t)) (deadline-peek k s),
)

add_delta-Answers :
    (r : RandomState) (now : Instant) (k : Bytes) (s : Store) (d : ℤ) (n : Option ℤ)
    → IsValid s
    → visible now k s ≡ peek k s.map
    → Answers now k (peek k s.map) (sum_outcome n d) (add_delta r k d s n)
unfolding add_delta
add_delta-Answers r now k s d none v same = (refl, same)
add_delta-Answers r now k s d (some n) v same = store_sum-Answers r now k s (checked_add n d) v same

-- INCRBY adds to the visible number of the key, 0 if it is missing, and keeps the deadline; a
-- value that is no `i64` and a sum that is none are refused, and then the key shows what it showed.
pub incr_by-visible :
    (r : RandomState) (now : Instant) (k : Bytes) (d : ℤ) (s : Store)
    → IsValid s
    → ((incr_by r now k d s).1 ≡ sum_outcome (number_at (visible now k s)) d)
      × (visible now k (incr_by r now k d s).0
          ≡ sum_visible now (visible now k s) (sum_outcome (number_at (visible now k s)) d))
unfolding incr_by
incr_by-visible r now k d s v =
    let s' = expire_if_needed k now s in
    let same = peek-expire_self k now s v.distinct in
    let number = number-peek k s' ∙ ap number_at same in
    subst₂ (λ n o. Answers now k o (sum_outcome n d) (incr_by r now k d s)) number same
      (add_delta-Answers r now k s' d (current_value (lookup k s'.map))
        (expire_if_needed-IsValid k now s v) (visible-expire k k now s v.distinct ∙ sym same))

checked_add_fits : (a b : ℤ) → in_i64 (a +ℤ b) ≡ true → checked_add a b ≡ some (a +ℤ b)
unfolding checked_add
checked_add_fits a b h = rw h

pub incr_by-ok :
    (r : RandomState) (now : Instant) (k : Bytes) (n d : ℤ) (s : Store)
    → IsValid s
    → number_at (visible now k s) ≡ some n
    → in_i64 (n +ℤ d) ≡ true
    → sum_outcome (number_at (visible now k s)) d ≡ ok (n +ℤ d)
incr_by-ok r now k n d s v number fits =
    ap (λ m. sum_outcome m d) number ∙ ap in_range (checked_add_fits n d fits)

pub number-after :
    (r : RandomState) (now : Instant) (k : Bytes) (n d : ℤ) (s : Store)
    → IsValid s
    → number_at (visible now k s) ≡ some n
    → deadline_at (visible now k s) ≡ none
    → in_i64 (n +ℤ d) ≡ true
    → number_at (visible now k (incr_by r now k d s).0) ≡ some (n +ℤ d)
number-after r now k n d s v number lasting fits =
    ap number_at (
      (incr_by-visible r now k d s v).1
      ∙ ap (sum_visible now (visible now k s)) (incr_by-ok r now k n d s v number fits)
      ∙ ap (λ t. alive now (to_string (n +ℤ d), t)) lasting)
    ∙ parse_i64-to_string (n +ℤ d) (in_i64→IsI64 (n +ℤ d) fits)

-- A counter counts: where the visible number of a key (0 for a missing key) has no deadline and
-- neither sum overflows, an increment answers the sum and the next increment starts from it.
pub incr_by_twice :
    (r : RandomState) (now : Instant) (k : Bytes) (n d d' : ℤ) (s : Store)
    → IsValid s
    → number_at (visible now k s) ≡ some n
    → deadline_at (visible now k s) ≡ none
    → in_i64 (n +ℤ d) ≡ true
    → in_i64 (n +ℤ d +ℤ d') ≡ true
    → ((incr_by r now k d s).1 ≡ ok (n +ℤ d))
      × ((incr_by r now k d' (incr_by r now k d s).0).1 ≡ ok (n +ℤ d +ℤ d'))
incr_by_twice r now k n d d' s v number lasting fits fits' =
    let t = (incr_by r now k d s).0 in
    let w = incr_by-IsValid r now k d s v in
    (
      (incr_by-visible r now k d s v).0 ∙ incr_by-ok r now k n d s v number fits,
      (incr_by-visible r now k d' t w).0
          ∙ incr_by-ok r now k (n +ℤ d) d' t w (number-after r now k n d s v number lasting fits)
              fits',
    )
