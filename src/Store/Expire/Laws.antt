-- ===== src/Store/Expire/Laws.antt =====
-- What TTL, PTTL, EXPIRE and PERSIST do, against the visible contents of the store.
use pg_resp.Prelude.{
  bytes_eq, ℕ, ◌+◌, ◌-◌, ◌/◌, ◌<◌, ◌≡◌, refl, sym, ap, ◌∙◌, Bool, false, Option, none, some, arith,
  Bytes, ◌==◌, eq_iff, if◌then◌else◌, is_some, Bool-cases, inl, inr, if_intro,
}
use pg_resp.Prelude.Int.{ℤ, pos, negsuc, ◌+ℤ◌, as_i64, wrap_i64, div_trunc, i64_mod, as_i64_small}
use mathlib.Core.Path.{subst}
use pg_resp.HashMap.{lookup, contains_key}
use pg_resp.HashMap.Laws.{lookup-modify}
use pg_resp.Store.Types.{Instant, Store, nanos_per_milli}
use pg_resp.Store.Account.{expire_if_needed}
use pg_resp.Store.Account.Clock.{peek}
use pg_resp.Store.Account.Valid.{IsValid, expire_if_needed-IsValid}
use pg_resp.Store.Account.View.{
  visible, alive_at, peek-expire_self, visible-expire, contains-visible,
}
use pg_resp.Store.Values.{set_deadline, deadline_of}
use pg_resp.Store.Values.Valid.{set_deadline-IsValid}
use pg_resp.Store.Values.Writes.{deadline_at}
use pg_resp.Store.Expire.{persist, remaining_ms, time_left, ttl_seconds, pttl_millis, expire}

pub persist-IsValid :
    (now : Instant) (k : Bytes) (s : Store) → IsValid s → IsValid (persist now k s).0
unfolding persist
persist-IsValid now k s v =
    let w = expire_if_needed-IsValid k now s v in
    if_intro {A = Store × Bool} (λ p. IsValid p.0)
      (is_some (deadline_of k (expire_if_needed k now s))) (λ _. set_deadline-IsValid k none _ w)
      (λ _. w)

pub expire-IsValid :
    (now : Instant) (k : Bytes) (t : Instant) (s : Store) → IsValid s → IsValid (expire now k t s).0
unfolding expire
expire-IsValid now k t s v =
    let w = expire_if_needed-IsValid k now s v in
    if_intro {A = Store × Bool} (λ p. IsValid p.0) (contains_key k (expire_if_needed k now s).map)
      (λ _. set_deadline-IsValid k (some t) _ w) (λ _. w)

-- The same value under another deadline.
abbrev pub redate :
    Option Instant → Option (Bytes × Option Instant) → Option (Bytes × Option Instant)
redate t none = none
redate t (some x) = some (x.0, t)

peek-set_deadline_self :
    (k : Bytes) (t : Option Instant) (s : Store)
    → peek k (set_deadline k t s).map ≡ redate t (peek k s.map)
peek-set_deadline_self k t s =
    ground (arith, lookup-modify k k (λ e. record e { expires_at = t }) s.map, eq_iff k k)

peek-set_deadline_ne :
    (k j : Bytes) (t : Option Instant) (s : Store)
    → (k == j) ≡ false
    → peek j (set_deadline k t s).map ≡ peek j s.map
peek-set_deadline_ne k j t s h =
    ground (arith, lookup-modify k j (λ e. record e { expires_at = t }) s.map)

visible-set_deadline :
    (now : Instant) (k j : Bytes) (t : Option Instant) (s : Store)
    → IsValid s
    → visible now j (set_deadline k t (expire_if_needed k now s))
      ≡ (if k == j then alive_at now (redate t (visible now j s)) else visible now j s)
visible-set_deadline now k j t s v =
    let s' = expire_if_needed k now s in
    elim (Bool-cases (k == j)) [
      | inl h ↦ rw h (
          subst
            (λ i. visible now i (set_deadline k t s') ≡ alive_at now (redate t (visible now i s)))
            ((eq_iff k j).0 h)
            (ap (alive_at now) (
              peek-set_deadline_self k t s' ∙ ap (redate t) (peek-expire_self k now s v.distinct))))
      | inr h ↦ rw h (
          ap (alive_at now) (peek-set_deadline_ne k j t s' h) ∙ visible-expire k j now s v.distinct)
    ]

redate-none :
    (now : Instant) (k j : Bytes) (t : Option Instant) (s : Store)
    → is_some (visible now k s) ≡ false
    → visible now j s
      ≡ (if k == j then alive_at now (redate t (visible now j s)) else visible now j s)
redate-none now k j t s h = elim (Bool-cases (k == j)) [
  | inl e ↦ rw e (
      subst (λ i. visible now i s ≡ alive_at now (redate t (visible now i s))) ((eq_iff k j).0 e)
        (absent (visible now k s) h))
  | inr e ↦ rw e
]
  where
    absent :
        (o : Option (Bytes × Option Instant)) → is_some o ≡ false → o ≡ alive_at now (redate t o)
    absent none _ = refl
    absent (some x) c = cc

-- EXPIRE answers whether the key is visible, and gives a visible key the deadline: a deadline that
-- has come makes it vanish. Other keys are as they were.
pub expire-visible :
    (now : Instant) (k j : Bytes) (t : Instant) (s : Store)
    → IsValid s
    → ((expire now k t s).1 ≡ is_some (visible now k s))
      × (visible now j (expire now k t s).0
          ≡ (if k == j then alive_at now (redate (some t) (visible now j s)) else visible now j s))
unfolding expire
expire-visible now k j t s v =
    let test = contains-visible now k s v.distinct in
    if_intro {A = Store × Bool}
      (λ p.
        (p.1 ≡ is_some (visible now k s))
        × (visible now j p.0 ≡ (
            if k == j then alive_at now (redate (some t) (visible now j s)) else visible now j s)))
      (contains_key k (expire_if_needed k now s).map)
      (λ h. (sym h ∙ test, visible-set_deadline now k j (some t) s v))
      (λ h. (
        sym h ∙ test,
        visible-expire k j now s v.distinct ∙ redate-none now k j (some t) s (sym test ∙ h),
      ))

persist_test :
    (now : Instant) (k : Bytes) (s : Store)
    → IsValid s
    → is_some (deadline_of k (expire_if_needed k now s)) ≡ is_some (deadline_at (visible now k s))
persist_test now k s v = ground (arith, peek-expire_self k now s v.distinct)

undated :
    (now : Instant) (k j : Bytes) (s : Store)
    → is_some (deadline_at (visible now k s)) ≡ false
    → visible now j s ≡ (if k == j then redate none (visible now j s) else visible now j s)
undated now k j s h = elim (Bool-cases (k == j)) [
  | inl e ↦ rw e (
      subst (λ i. visible now i s ≡ redate none (visible now i s)) ((eq_iff k j).0 e)
        (plain (visible now k s) h))
  | inr e ↦ rw e
]
  where
    plain :
        (o : Option (Bytes × Option Instant)) → is_some (deadline_at o) ≡ false → o ≡ redate none o
    plain none _ = refl
    plain (some (x, none)) _ = refl
    plain (some (x, some t)) c = cc

alive-redate_none :
    (now : Instant) (o : Option (Bytes × Option Instant))
    → alive_at now (redate none o) ≡ redate none o
alive-redate_none now none = refl
alive-redate_none now (some x) = refl

-- PERSIST answers whether the visible key had a deadline, and takes it away: the key stays visible
-- with its value. Other keys are as they were.
pub persist-visible :
    (now : Instant) (k j : Bytes) (s : Store)
    → IsValid s
    → ((persist now k s).1 ≡ is_some (deadline_at (visible now k s)))
      × (visible now j (persist now k s).0
          ≡ (if k == j then redate none (visible now j s) else visible now j s))
unfolding persist
persist-visible now k j s v =
    let test = persist_test now k s v in
    if_intro {A = Store × Bool}
      (λ p.
        (p.1 ≡ is_some (deadline_at (visible now k s)))
        × (visible now j p.0 ≡ (if k == j then redate none (visible now j s) else visible now j s)))
      (is_some (deadline_of k (expire_if_needed k now s)))
      (λ h. (
        sym h ∙ test,
        visible-set_deadline now k j none s v
            ∙ ap (λ o. if k == j then o else visible now j s)
                (alive-redate_none now (visible now j s)),
      ))
      (λ h. (sym h ∙ test, visible-expire k j now s v.distinct ∙ undated now k j s (sym test ∙ h)))

-- What TTL and PTTL answer, from the visible state of the key.
abbrev pub visible_left : (Instant → ℤ) → Option (Bytes × Option Instant) → ℤ
visible_left left none = negsuc 1
visible_left left (some (x, none)) = negsuc 0
visible_left left (some (x, some t)) = left t

time_left-peek :
    (left : Instant → ℤ) (k : Bytes) (s : Store)
    → time_left left (lookup k s.map) ≡ visible_left left (peek k s.map)
time_left-peek left k s = ground arith

-- the seconds that TTL makes of the milliseconds left
abbrev pub rounded : ℤ → ℤ
rounded ms = div_trunc (wrap_i64 (ms +ℤ pos 500)) 1000

-- TTL and PTTL answer -2 for a key that is not visible and -1 for one with no deadline; otherwise
-- they answer the time left to the visible deadline, and they change nothing that can be seen.
pub ttl-visible :
    (now : Instant) (k j : Bytes) (s : Store)
    → IsValid s
    → ((ttl_seconds now k s).1 ≡ visible_left (λ t. rounded (remaining_ms t now)) (visible now k s))
      × ((pttl_millis now k s).1 ≡ visible_left (λ t. remaining_ms t now) (visible now k s))
      × (visible now j (ttl_seconds now k s).0 ≡ visible now j s)
      × (visible now j (pttl_millis now k s).0 ≡ visible now j s)
unfolding ttl_seconds pttl_millis
ttl-visible now k j s v =
    let s' = expire_if_needed k now s in
    let same = peek-expire_self k now s v.distinct in
    let kept = visible-expire k j now s v.distinct in
    (
      time_left-peek (λ t. rounded (remaining_ms t now)) k s'
          ∙ ap (visible_left (λ t. rounded (remaining_ms t now))) same,
      time_left-peek (λ t. remaining_ms t now) k s'
          ∙ ap (visible_left (λ t. remaining_ms t now)) same,
      kept,
      kept,
    )

rounded_small : (n : ℕ) → n + 500 < i64_mod → rounded (pos n) ≡ pos ((n + 500) / 1000)
unfolding wrap_i64 div_trunc ◌+ℤ◌
rounded_small n h = ground arith

-- For a visible deadline whose distance in milliseconds fits an `i64` with room for the rounding,
-- PTTL answers the whole milliseconds left and TTL the nearest number of seconds.
pub ttl_nearest :
    (now : Instant) (k x : Bytes) (t : Instant) (s : Store)
    → IsValid s
    → visible now k s ≡ some (x, some t)
    → (t - now) / nanos_per_milli + 500 < i64_mod
    → ((pttl_millis now k s).1 ≡ pos ((t - now) / nanos_per_milli))
      × ((ttl_seconds now k s).1 ≡ pos (((t - now) / nanos_per_milli + 500) / 1000))
unfolding remaining_ms
ttl_nearest now k x t s v seen fits =
    let (seconds, millis, _, _) = ttl-visible now k k s v in
    let n = (t - now) / nanos_per_milli in
    let small : as_i64 n ≡ pos n = as_i64_small n (omega arith) in
    (
      millis ∙ ap (visible_left (λ t. remaining_ms t now)) seen ∙ small,
      seconds
          ∙ ap (visible_left (λ t. rounded (remaining_ms t now))) seen
          ∙ ap rounded small
          ∙ rounded_small n fits,
    )
