-- ===== src/Store/Account/Valid.antt =====
-- The invariant of the store, and its preservation by accounting, expiry and eviction.
use pg_resp.Prelude.{
  bytes_eq, ℕ, zero, suc, ◌%◌, ◌≡◌, sym, ap, ◌∙◌, true, Option, none, some, List, [], ◌∷◌, arith,
  Bytes, length, if_intro, Option-cases, inl, inr,
}
use pg_resp.Prelude.Int.{u64_mod}
use pg_resp.HashMap.{lookup, Distinct, total}
use pg_resp.HashMap.Laws.{
  remove-Distinct, insert-Distinct, total-remove, total-insert_fresh, total-insert_over,
}
use pg_resp.Store.Types.{Instant, Entry, Store, RandomState, default_sample_size}
use pg_resp.Store.Account.{
  remove_accounted, sample, evict_loop, evict_to_budget, write_entry, insert_accounted,
  expire_if_needed, remove_all, count_eviction, over_budget, swept, victim, evict_victim,
  active_expire_sweep,
}
use pg_resp.Store.Account.Clock.{weight, total-sample, sample-Distinct}

-- No key twice, and the count of bytes is the sum over the entries, as a `usize`.
pub record IsValid (s : Store) : Type 0 where
  pub distinct : Distinct s.map
  pub accounted : s.used_bytes ≡ total weight s.map % u64_mod

pub remove_accounted-IsValid :
    (k : Bytes) (s : Store) → IsValid s → IsValid (remove_accounted k s).0
unfolding remove_accounted
remove_accounted-IsValid k s v = elim (Option-cases (lookup k s.map)) [
  | inl e ↦ rw (e, remove_accounted) v
  | inr (old, e) ↦
      rw (e, remove_accounted)
        (record {
          distinct = remove-Distinct k s.map v.distinct;
          accounted = omega (arith, total-remove weight k old s.map e, v.accounted);
        })
]

pub write_entry-IsValid :
    (r : RandomState) (k : Bytes) (entry : Entry) (s : Store)
    → IsValid s
    → IsValid (write_entry r k entry s)
unfolding write_entry
write_entry-IsValid r k entry s v = elim (Option-cases (lookup k s.map)) [
  | inl e ↦ rw e (record {
    distinct = insert-Distinct r.entries k _ s.map v.distinct;
    accounted = omega (
      arith,
      total-insert_fresh weight r.entries k (record entry { clock_bit = true }) s.map e,
      v.accounted,
    );
  })
  | inr (old, e) ↦ rw e (record {
    distinct = insert-Distinct r.entries k _ s.map v.distinct;
    accounted = omega (
      arith,
      total-insert_over weight r.entries k (record entry { clock_bit = true }) old s.map e,
      total-remove weight k old s.map e,
      v.accounted,
    );
  })
]

sample-IsValid :
    (n : ℕ) (protect : Bytes) (s : Store)
    → IsValid s
    → IsValid (record s { map = (sample n protect none s.map).0 })
sample-IsValid n protect s v = record {
  distinct = sample-Distinct n protect none s.map v.distinct;
  accounted = v.accounted ∙ ap (λ (t : ℕ). t % u64_mod) (sym (total-sample n protect none s.map));
}

count-IsValid : (s : Store) → IsValid s → IsValid (count_eviction s)
count-IsValid s v = record { distinct = v.distinct; accounted = v.accounted }

evict_victim-IsValid :
    (next : Store → Store) (s : Store) (victim : Option Bytes)
    → ((t : Store) → IsValid t → IsValid (next t))
    → IsValid s
    → IsValid (evict_victim next s victim)
unfolding evict_victim
evict_victim-IsValid next s none keep v = v
evict_victim-IsValid next s (some k) keep v =
    keep _ (count-IsValid _ (remove_accounted-IsValid k s v))

pub evict_loop-IsValid :
    (rounds budget : ℕ) (protect : Bytes) (s : Store)
    → IsValid s
    → IsValid (evict_loop rounds budget protect s)
unfolding evict_loop
evict_loop-IsValid zero budget protect s v = v
evict_loop-IsValid (suc rounds) budget protect s v =
    if_intro IsValid (over_budget budget s)
      (λ _.
        evict_victim-IsValid (evict_loop rounds budget protect) (swept protect s) (victim protect s)
          (evict_loop-IsValid rounds budget protect)
          (sample-IsValid default_sample_size protect s v))
      (λ _. v)

pub evict_to_budget-IsValid :
    (protect : Bytes) (s : Store) → IsValid s → IsValid (evict_to_budget protect s)
unfolding evict_to_budget
evict_to_budget-IsValid protect s v = elim (Option-cases s.max_memory_bytes) [
  | inl e ↦ rw (e, evict_to_budget) v
  | inr (b, e) ↦ rw (e, evict_to_budget) (evict_loop-IsValid (length s.map) b protect s v)
]

pub insert_accounted-IsValid :
    (r : RandomState) (k : Bytes) (entry : Entry) (s : Store)
    → IsValid s
    → IsValid (insert_accounted r k entry s)
unfolding insert_accounted
insert_accounted-IsValid r k entry s v =
    evict_to_budget-IsValid k (write_entry r k entry s) (write_entry-IsValid r k entry s v)

pub expire_if_needed-IsValid :
    (k : Bytes) (now : Instant) (s : Store) → IsValid s → IsValid (expire_if_needed k now s)
unfolding expire_if_needed
expire_if_needed-IsValid k now s v = ground (arith, remove_accounted-IsValid k s v)

pub remove_all-IsValid : (ks : List Bytes) (s : Store) → IsValid s → IsValid (remove_all ks s)
unfolding remove_all
remove_all-IsValid [] s v = v
remove_all-IsValid (k ∷ ks) s v = remove_all-IsValid ks _ (remove_accounted-IsValid k s v)

-- The sweep keeps the table free of repeated keys and its byte count exact.
pub active_expire_sweep-IsValid :
    (now : Instant) (n : ℕ) (s : Store) → IsValid s → IsValid (active_expire_sweep now n s).0
unfolding active_expire_sweep
active_expire_sweep-IsValid now n s v = remove_all-IsValid _ s v
