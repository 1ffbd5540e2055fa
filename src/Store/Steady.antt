-- ===== src/Store/Steady.antt =====
-- The operations of the store leave the SCAN cursors and the budget alone.
use pg_resp.Prelude.{
  bytes_eq, ◌≡◌, refl, ◌∙◌, Bool, Option, none, some, List, [], ◌∷◌, arith, Bytes, if_intro,
  Option-cases, inl, inr,
}
use pg_resp.Prelude.Int.{ℤ}
use pg_resp.HashMap.{lookup, contains_key, Distinct}
use pg_resp.Store.Types.{Instant, Entry, Store, RandomState, Expiry, Condition, SetOutcome}
use pg_resp.Store.Account.{remove_accounted, expire_if_needed, write_entry, insert_accounted}
use pg_resp.Store.Account.Budget.{insert_accounted-Evicted}
use pg_resp.Store.Account.Valid.{IsValid, expire_if_needed-IsValid}
use pg_resp.Store.Values.{get, set, incr_by, add_delta, store_sum, condition_ok}
use pg_resp.Store.Keyspace.{del}

-- From `s` to `t` neither the cursors nor the budget has changed.
pub record Steady (s t : Store) : Type 0 where
  pub cursors : t.scan_registry ≡ s.scan_registry
  pub budget : t.max_memory_bytes ≡ s.max_memory_bytes

pub Steady-refl : (s : Store) → Steady s s
Steady-refl s = record { cursors = refl; budget = refl }

pub Steady-trans : {s t u : Store} → Steady s t → Steady t u → Steady s u
Steady-trans {s} {t} {u} a b = record {
  cursors = b.cursors ∙ a.cursors;
  budget = b.budget ∙ a.budget;
}

pub remove_accounted-Steady : (k : Bytes) (s : Store) → Steady s (remove_accounted k s).0
unfolding remove_accounted
remove_accounted-Steady k s = elim (Option-cases (lookup k s.map)) [
  | inl e ↦ rw (e, remove_accounted) (Steady-refl s)
  | inr (old, e) ↦ rw (e, remove_accounted) (record { cursors = refl; budget = refl })
]

pub expire_if_needed-Steady :
    (k : Bytes) (now : Instant) (s : Store) → Steady s (expire_if_needed k now s)
unfolding expire_if_needed
expire_if_needed-Steady k now s = ground (arith, remove_accounted-Steady k s, Steady-refl s)

write_entry-Steady :
    (r : RandomState) (k : Bytes) (entry : Entry) (s : Store) → Steady s (write_entry r k entry s)
unfolding write_entry
write_entry-Steady r k entry s = record { cursors = refl; budget = refl }

pub insert_accounted-Steady :
    (r : RandomState) (k : Bytes) (entry : Entry) (s : Store)
    → Distinct s.map
    → Steady s (insert_accounted r k entry s)
insert_accounted-Steady r k entry s d =
    let evicted = insert_accounted-Evicted r k entry s d in
    Steady-trans (write_entry-Steady r k entry s)
      (record { cursors = evicted.registry_kept; budget = evicted.budget_kept })

pub set-Steady :
    (r : RandomState) (now : Instant) (k value : Bytes) (x : Expiry) (c : Condition)
    (want_old : Bool) (s : Store)
    → IsValid s
    → Steady s (set r now k value x c want_old s).0
unfolding set
set-Steady r now k value x c want_old s v =
    let s' = expire_if_needed k now s in
    let expired = expire_if_needed-Steady k now s in
    if_intro {A = Store × SetOutcome} (λ p. Steady s p.0) (condition_ok c (contains_key k s'.map))
      (λ _.
        Steady-trans expired
          (insert_accounted-Steady r k _ s' (expire_if_needed-IsValid k now s v).distinct))
      (λ _. expired)

pub get-Steady : (now : Instant) (k : Bytes) (s : Store) → Steady s (get now k s).0
unfolding get
get-Steady now k s =
    let s' = expire_if_needed k now s in
    let expired = expire_if_needed-Steady k now s in
    elim (Option-cases (lookup k s'.map)) [
      | inl e ↦ rw (e, get) (Steady-trans expired (record { cursors = refl; budget = refl }))
      | inr (x, e) ↦ rw (e, get) (Steady-trans expired (record { cursors = refl; budget = refl }))
    ]

store_sum-Steady :
    (r : RandomState) (k : Bytes) (s : Store) (sum : Option ℤ)
    → Distinct s.map
    → Steady s (store_sum r k s sum).0
unfolding store_sum
store_sum-Steady r k s none d = Steady-refl s
store_sum-Steady r k s (some n) d = insert_accounted-Steady r k _ s d

add_delta-Steady :
    (r : RandomState) (k : Bytes) (delta : ℤ) (s : Store) (current : Option ℤ)
    → Distinct s.map
    → Steady s (add_delta r k delta s current).0
unfolding add_delta
add_delta-Steady r k delta s none d = Steady-refl s
add_delta-Steady r k delta s (some n) d = store_sum-Steady r k s _ d

pub incr_by-Steady :
    (r : RandomState) (now : Instant) (k : Bytes) (delta : ℤ) (s : Store)
    → IsValid s
    → Steady s (incr_by r now k delta s).0
unfolding incr_by
incr_by-Steady r now k delta s v = Steady-trans (expire_if_needed-Steady k now s) (
    add_delta-Steady r k delta (expire_if_needed k now s) _
      (expire_if_needed-IsValid k now s v).distinct)

pub del-Steady : (now : Instant) (ks : List Bytes) (s : Store) → Steady s (del now ks s).0
unfolding del
del-Steady now [] s = Steady-refl s
del-Steady now (k ∷ ks) s =
    let s' = expire_if_needed k now s in
    let dropped = (remove_accounted k s').0 in
    Steady-trans (expire_if_needed-Steady k now s)
      (Steady-trans (remove_accounted-Steady k s') (del-Steady now ks dropped))
