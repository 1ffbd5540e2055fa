-- ===== src/Proptests/Writes.antt =====
-- The plain writes of the tests, in a store with no budget.
use pg_resp.Prelude.{
  bytes_eq, ℕ, zero, suc, ◌+◌, ◌≤◌, ◌<◌, ◌≡◌, ◌≢◌, refl, sym, ap, ◌∙◌, true, false, none, some,
  arith, Bytes, codes, length, ◌==◌, eq_iff, is_some, option_map, Bool-cases, Option-cases, inl,
  inr,
}
use mathlib.Core.Path.{subst}
use pg_resp.HashMap.{lookup}
use pg_resp.HashMap.Laws.{length-insert, length-remove}
use pg_resp.Scan.Registry.{IsIssued}
use pg_resp.Store.Types.{Instant, Entry, Store, RandomState, Expiry, Condition}
use pg_resp.Store.Account.{new, remove_accounted, expire_if_needed, write_entry, insert_accounted}
use pg_resp.Store.Account.Budget.{insert_accounted_unbounded, lookup-written}
use pg_resp.Store.Account.Clock.{view}
use pg_resp.Store.Account.Valid.{IsValid, expire_if_needed-IsValid}
use pg_resp.Store.Account.View.{visible, alive_at, visible-expire, visible-insert_accounted_self}
use pg_resp.Store.Steady.{Steady, Steady-refl, Steady-trans, expire_if_needed-Steady, set-Steady}
use pg_resp.Store.Values.{set, fresh}
use pg_resp.Store.Values.Valid.{set-IsValid}
use pg_resp.Proptests.{put, init_key, write_initial}

pub put-IsValid :
    (r : RandomState) (now : Instant) (k value : Bytes) (s : Store)
    → IsValid s
    → IsValid (put r now k value s)
put-IsValid r now k value s v = set-IsValid r now k value Expiry.none Condition.none false s v

pub put-Steady :
    (r : RandomState) (now : Instant) (k value : Bytes) (s : Store)
    → IsValid s
    → Steady s (put r now k value s)
put-Steady r now k value s v = set-Steady r now k value Expiry.none Condition.none false s v

pub put_lem :
    (r : RandomState) (now : Instant) (k value : Bytes) (s : Store)
    → put r now k value s ≡ insert_accounted r k (fresh value none) (expire_if_needed k now s)
unfolding set
put_lem r now k value s = refl

put_unbounded :
    (r : RandomState) (now : Instant) (k value : Bytes) (s : Store)
    → s.max_memory_bytes ≡ none
    → put r now k value s ≡ write_entry r k (fresh value none) (expire_if_needed k now s)
put_unbounded r now k value s free =
    put_lem r now k value s
    ∙ insert_accounted_unbounded r k (fresh value none) (expire_if_needed k now s)
        ((expire_if_needed-Steady k now s).budget ∙ free)

pub visible-put_self :
    (r : RandomState) (now : Instant) (k value : Bytes) (s : Store)
    → IsValid s
    → visible now k (put r now k value s) ≡ some (value, none)
visible-put_self r now k value s v =
    ap (visible now k) (put_lem r now k value s)
    ∙ visible-insert_accounted_self r now k (fresh value none) (expire_if_needed k now s)
        (expire_if_needed-IsValid k now s v).distinct

-- A write to another key changes nothing where nothing is evicted.
pub visible-put_ne :
    (r : RandomState) (now : Instant) (k j value : Bytes) (s : Store)
    → IsValid s
    → s.max_memory_bytes ≡ none
    → (k == j) ≡ false
    → visible now j (put r now k value s) ≡ visible now j s
visible-put_ne r now k j value s v free other =
    let s' = expire_if_needed k now s in
    let d = (expire_if_needed-IsValid k now s v).distinct in
    ap (visible now j) (put_unbounded r now k value s free)
    ∙ ap (λ o. alive_at now (option_map view o))
        (lookup-written r k j (fresh value none) s' d ∙ ground (arith, other))
    ∙ visible-expire k j now s v.distinct

length-removed : (k : Bytes) (s : Store) → length (remove_accounted k s).0.map ≤ length s.map
unfolding remove_accounted
length-removed k s = elim (Option-cases (lookup k s.map)) [
  | inl e ↦ rw (e, remove_accounted) (omega arith)
  | inr (old, e) ↦
      rw (e, remove_accounted) (omega (arith, length-remove k s.map (ground (arith, e))))
]

length-expire :
    (k : Bytes) (now : Instant) (s : Store) → length (expire_if_needed k now s).map ≤ length s.map
unfolding expire_if_needed
length-expire k now s = ground (arith, length-removed k s)

length-written :
    (r : RandomState) (k : Bytes) (entry : Entry) (s : Store)
    → length (write_entry r k entry s).map ≤ length s.map + 1
unfolding write_entry
length-written r k entry s =
    ground (arith, length-insert r.entries k (record entry { clock_bit = true }) s.map)

pub length-put :
    (r : RandomState) (now : Instant) (k value : Bytes) (s : Store)
    → s.max_memory_bytes ≡ none
    → length (put r now k value s).map ≤ length s.map + 1
length-put r now k value s free =
    let s' = expire_if_needed k now s in
    subst (λ t. length t.map ≤ length s.map + 1) (sym (put_unbounded r now k value s free))
      (omega (arith, length-written r k (fresh value none) s', length-expire k now s))

-- The store of a test after its initial writes: a valid store with no budget and no cursor, with
-- at most one entry for each write.
pub record Started (n : ℕ) (s : Store) : Type 0 where
  pub valid : IsValid s
  pub steady : Steady new s
  pub few : length s.map ≤ n

pub write_initial-Started :
    (r : RandomState) (now : Instant) (n : ℕ) → Started n (write_initial r now n new)
unfolding write_initial
write_initial-Started r now zero = record {
  valid = record { distinct = tt; accounted = refl };
  steady = Steady-refl new;
  few = omega arith;
}
write_initial-Started r now (suc n) =
    let s = write_initial r now n new in
    let h = write_initial-Started r now n in
    let k = init_key n in
    record {
      valid = put-IsValid r now k (codes "v0") s h.valid;
      steady = Steady-trans h.steady (put-Steady r now k (codes "v0") s h.valid);
      few = omega (arith, length-put r now k (codes "v0") s h.steady.budget, h.few);
    }

different : (n i : ℕ) → (init_key n == init_key i) ≡ false → n ≢ i
different n i other same = ground (arith, ap init_key same, eq_iff (init_key n) (init_key i))

-- Each initial key shows.
pub initial-visible :
    (r : RandomState) (now : Instant) (n i : ℕ)
    → i < n
    → is_some (visible now (init_key i) (write_initial r now n new)) ≡ true
unfolding write_initial
initial-visible r now zero i below = absurd (omega arith)
initial-visible r now (suc n) i below =
    let s = write_initial r now n new in
    let h = write_initial-Started r now n in
    let k = init_key n in
    elim (Bool-cases (k == init_key i)) [
      | inl same ↦ ap is_some (
          ap (λ j. visible now j (put r now k (codes "v0") s))
            (sym ((eq_iff k (init_key i)).0 same))
          ∙ visible-put_self r now k (codes "v0") s h.valid)
      | inr other ↦
          let earlier : i < n = omega (arith, different n i other, below) in
          ap is_some
            (visible-put_ne r now k (init_key i) (codes "v0") s h.valid h.steady.budget other)
          ∙ initial-visible r now n i earlier
    ]

-- The registry of a test at its start.
pub Started-IsIssued : (n : ℕ) (s : Store) → Started n s → IsIssued s.scan_registry
unfolding lookup
Started-IsIssued n s h =
    subst IsIssued (sym h.steady.cursors) (record { distinct = tt; unissued = λ k past. refl })
