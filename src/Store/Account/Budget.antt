-- ===== src/Store/Account/Budget.antt =====
-- Eviction: what it takes out, what it leaves, and that the budget is kept.
use pg_resp.Prelude.{
  bytes_eq, ℕ, zero, suc, ◌+◌, ◌≤◌, ◌≡◌, refl, ap, ◌∙◌, ◌⊎◌, true, false, Option, none, some, List,
  [], ◌∷◌, arith, Bytes, length, ◌==◌, eq_iff, if◌then◌else◌, option_map, is_some, Bool-cases,
  Option-cases, inl, inr, if_intro, ltb,
}
use pg_resp.HashMap.{lookup, remove, Distinct}
use pg_resp.HashMap.Laws.{
  length-remove, lookup-remove_ne, lookup-remove_self, remove-Distinct, lookup-insert,
  insert-Distinct,
}
use pg_resp.Store.Types.{Entry, Store, RandomState, default_sample_size}
use pg_resp.Store.Account.{
  remove_accounted, sample, evict_loop, evict_to_budget, write_entry, evict_victim,
  insert_accounted, count_eviction, over_budget, swept, victim,
}
use pg_resp.Store.Account.Clock.{
  view, peek, peek-none, peek-sample, lookup-sample_protect, length-sample, sample-Distinct,
  sample-IsVictim, sample-none,
}

-- `t` is `s` after some evictions that spared `protect`: every other key is gone or shows what it
-- showed, and nothing but the table, the byte count and the eviction counter has changed.
pub record Evicted (protect : Bytes) (s t : Store) : Type 0 where
  pub spared : lookup protect t.map ≡ lookup protect s.map
  pub others : (j : Bytes) → (lookup j t.map ≡ none) ⊎ (peek j t.map ≡ peek j s.map)
  pub budget_kept : t.max_memory_bytes ≡ s.max_memory_bytes
  pub registry_kept : t.scan_registry ≡ s.scan_registry
  pub hits_kept : t.hits ≡ s.hits
  pub misses_kept : t.misses ≡ s.misses

Evicted-refl : (p : Bytes) (s : Store) → Evicted p s s
Evicted-refl p s = record {
  spared = refl;
  others = λ j. inr refl;
  budget_kept = refl;
  registry_kept = refl;
  hits_kept = refl;
  misses_kept = refl;
}

Evicted-trans : {p : Bytes} {s t u : Store} → Evicted p s t → Evicted p t u → Evicted p s u
Evicted-trans {p} {s} {t} {u} a b = record {
  spared = b.spared ∙ a.spared;
  others = λ j. ground (arith, a.others j, b.others j);
  budget_kept = b.budget_kept ∙ a.budget_kept;
  registry_kept = b.registry_kept ∙ a.registry_kept;
  hits_kept = b.hits_kept ∙ a.hits_kept;
  misses_kept = b.misses_kept ∙ a.misses_kept;
}

sample-Evicted :
    (n : ℕ) (p : Bytes) (s : Store) → Evicted p s (record s { map = (sample n p none s.map).0 })
sample-Evicted n p s = record {
  spared = lookup-sample_protect n p none s.map;
  others = λ j. inr (peek-sample n p none s.map j);
  budget_kept = refl;
  registry_kept = refl;
  hits_kept = refl;
  misses_kept = refl;
}

lookup-remove_any :
    (k j : Bytes) (m : List (Bytes × Entry))
    → Distinct m
    → (lookup j (remove k m) ≡ none) ⊎ (peek j (remove k m) ≡ peek j m)
lookup-remove_any k j m d = elim (Bool-cases (k == j)) [
  | inl h ↦ inl (ground (arith, eq_iff k j, lookup-remove_self k m d))
  | inr h ↦ inr (ap (option_map view) (lookup-remove_ne k j m h))
]

victim-Evicted :
    (p k : Bytes) (s : Store)
    → Distinct s.map
    → (p == k) ≡ false
    → Evicted p s (count_eviction (remove_accounted k s).0)
unfolding remove_accounted
victim-Evicted p k s d other = elim (Option-cases (lookup k s.map)) [
  | inl e ↦
      rw (e, remove_accounted)
        (record {
          spared = refl;
          others = λ j. inr refl;
          budget_kept = refl;
          registry_kept = refl;
          hits_kept = refl;
          misses_kept = refl;
        })
  | inr (old, e) ↦
      rw (e, remove_accounted)
        (record {
          spared = lookup-remove_ne k p s.map (ground (arith, eq_iff k p, eq_iff p k));
          others = λ j. lookup-remove_any k j s.map d;
          budget_kept = refl;
          registry_kept = refl;
          hits_kept = refl;
          misses_kept = refl;
        })
]

swept-Distinct : (p : Bytes) (s : Store) → Distinct s.map → Distinct (swept p s).map
swept-Distinct p s d = sample-Distinct default_sample_size p none s.map d

removed-Distinct : (k : Bytes) (s : Store) → Distinct s.map → Distinct (remove_accounted k s).0.map
unfolding remove_accounted
removed-Distinct k s d = ground (arith, remove-Distinct k s.map d)

evict_victim-Evicted :
    (p : Bytes) (next : Store → Store) (s : Store) (o : Option Bytes)
    → Distinct s.map
    → ((k : Bytes) → o ≡ some k → (p == k) ≡ false)
    → ((t : Store) → Distinct t.map → Evicted p t (next t))
    → Evicted p s (evict_victim next s o)
unfolding evict_victim
evict_victim-Evicted p next s none d other go = Evicted-refl p s
evict_victim-Evicted p next s (some k) d other go =
    Evicted-trans (victim-Evicted p k s d (other k refl)) (go _ (removed-Distinct k s d))

pub evict_loop-Evicted :
    (rounds budget : ℕ) (p : Bytes) (s : Store)
    → Distinct s.map
    → Evicted p s (evict_loop rounds budget p s)
unfolding evict_loop
evict_loop-Evicted zero budget p s d = Evicted-refl p s
evict_loop-Evicted (suc rounds) budget p s d =
    if_intro (Evicted p s) (over_budget budget s)
      (λ _. Evicted-trans (sample-Evicted default_sample_size p s) (
        evict_victim-Evicted p (evict_loop rounds budget p) (swept p s) (victim p s)
          (swept-Distinct p s d) (λ k h. (sample-IsVictim default_sample_size p s.map k d h).0)
          (evict_loop-Evicted rounds budget p)))
      (λ _. Evicted-refl p s)

-- Within the budget, or nothing is left that may be evicted.
abbrev pub Fits : ℕ → Bytes → Store → Type 0
Fits budget p s = (s.used_bytes ≤ budget) ⊎ ((j : Bytes) → (p == j) ≡ false → lookup j s.map ≡ none)

not-over_budget :
    (budget : ℕ) (p : Bytes) (s : Store) → over_budget budget s ≡ false → Fits budget p s
unfolding lookup
not-over_budget budget p s h = elim (Bool-cases (ltb budget s.used_bytes)) [
  | inl over ↦ inr λ j _. ground arith
  | inr within ↦ inl (ground arith)
]

peek-removed :
    (k : Bytes) (s : Store)
    → is_some (lookup k s.map) ≡ true
    → length (remove_accounted k s).0.map + 1 ≡ length s.map
unfolding remove_accounted
peek-removed k s h = ground (arith, length-remove k s.map h)

evict_victim-Fits :
    (rounds budget : ℕ) (p : Bytes) (next : Store → Store) (s : Store) (o : Option Bytes)
    → Distinct s.map
    → length s.map ≤ suc rounds
    → ((k : Bytes) → o ≡ some k → is_some (lookup k s.map) ≡ true)
    → (o ≡ none → (j : Bytes) → (p == j) ≡ false → lookup j s.map ≡ none)
    → ((t : Store) → Distinct t.map → length t.map ≤ rounds → Fits budget p (next t))
    → Fits budget p (evict_victim next s o)
unfolding evict_victim
evict_victim-Fits rounds budget p next s none d le present stop go = inr (stop refl)
evict_victim-Fits rounds budget p next s (some k) d le present stop go =
    go _ (removed-Distinct k s d) (omega (arith, peek-removed k s (present k refl)))

swept-present :
    (p k : Bytes) (s : Store)
    → is_some (lookup k s.map) ≡ true
    → is_some (lookup k (swept p s).map) ≡ true
swept-present p k s h = ground (arith, peek-sample default_sample_size p none s.map k)

lookup-empty : (j : Bytes) (m : List (Bytes × Entry)) → length m ≤ 0 → lookup j m ≡ none
unfolding lookup
lookup-empty j [] le = refl
lookup-empty j (x ∷ m) le = absurd (omega arith)

pub evict_loop-Fits :
    (rounds budget : ℕ) (p : Bytes) (s : Store)
    → Distinct s.map
    → length s.map ≤ rounds
    → Fits budget p (evict_loop rounds budget p s)
unfolding evict_loop
evict_loop-Fits zero budget p s d le = inr λ j _. lookup-empty j s.map le
evict_loop-Fits (suc rounds) budget p s d le =
    if_intro (Fits budget p) (over_budget budget s)
      (λ _.
        evict_victim-Fits rounds budget p (evict_loop rounds budget p) (swept p s) (victim p s)
          (swept-Distinct p s d) (omega (arith, length-sample default_sample_size p none s.map))
          (λ k h. swept-present p k s (sample-IsVictim default_sample_size p s.map k d h).1)
          (λ h j other. peek-none j (swept p s).map (
            peek-sample default_sample_size p none s.map j
            ∙ ap (option_map view) (sample-none 18 p s.map j d h other)))
          (evict_loop-Fits rounds budget p))
      (λ h. not-over_budget budget p s h)

abbrev with_budget : Bytes → Store → Option ℕ → Store
with_budget p s none = s
with_budget p s (some b) = evict_loop (length s.map) b p s

evict_to_budget_lem :
    (p : Bytes) (s : Store) → evict_to_budget p s ≡ with_budget p s s.max_memory_bytes
unfolding evict_to_budget
evict_to_budget_lem p s = ground arith

evict_to_budget-Evicted :
    (p : Bytes) (s : Store) → Distinct s.map → Evicted p s (evict_to_budget p s)
evict_to_budget-Evicted p s d = elim (Option-cases s.max_memory_bytes) [
  | inl e ↦ rw (evict_to_budget_lem, ap (with_budget p s) e) (Evicted-refl p s)
  | inr (b, e) ↦
      rw (evict_to_budget_lem, ap (with_budget p s) e) (evict_loop-Evicted (length s.map) b p s d)
]

pub lookup-written :
    (r : RandomState) (k j : Bytes) (entry : Entry) (s : Store)
    → Distinct s.map
    → lookup j (write_entry r k entry s).map
      ≡ (if k == j then some (record entry { clock_bit = true }) else lookup j s.map)
unfolding write_entry
lookup-written r k j entry s d =
    lookup-insert r.entries k j (record entry { clock_bit = true }) s.map d

write_entry-Distinct :
    (r : RandomState) (k : Bytes) (entry : Entry) (s : Store)
    → Distinct s.map
    → Distinct (write_entry r k entry s).map
unfolding write_entry
write_entry-Distinct r k entry s d = insert-Distinct r.entries k _ s.map d

pub insert_accounted-Evicted :
    (r : RandomState) (k : Bytes) (entry : Entry) (s : Store)
    → Distinct s.map
    → Evicted k (write_entry r k entry s) (insert_accounted r k entry s)
unfolding insert_accounted
insert_accounted-Evicted r k entry s d =
    evict_to_budget-Evicted k (write_entry r k entry s) (write_entry-Distinct r k entry s d)

-- A write is never evicted by its own call: the key holds the new entry, marked as referenced.
pub lookup-insert_accounted_self :
    (r : RandomState) (k : Bytes) (entry : Entry) (s : Store)
    → Distinct s.map
    → lookup k (insert_accounted r k entry s).map ≡ some (record entry { clock_bit = true })
lookup-insert_accounted_self r k entry s d =
    (insert_accounted-Evicted r k entry s d).spared
    ∙ lookup-written r k k entry s d
    ∙ ground (arith, eq_iff k k)

-- Another key shows what it showed, or was evicted.
pub peek-insert_accounted_ne :
    (r : RandomState) (k j : Bytes) (entry : Entry) (s : Store)
    → Distinct s.map
    → (k == j) ≡ false
    → (lookup j (insert_accounted r k entry s).map ≡ none)
      ⊎ (peek j (insert_accounted r k entry s).map ≡ peek j s.map)
peek-insert_accounted_ne r k j entry s d other =
    ground
      (arith, (insert_accounted-Evicted r k entry s d).others j, lookup-written r k j entry s d)

budget-written :
    (r : RandomState) (k : Bytes) (entry : Entry) (s : Store)
    → (write_entry r k entry s).max_memory_bytes ≡ s.max_memory_bytes
unfolding write_entry
budget-written r k entry s = refl

-- With no budget nothing is evicted.
pub insert_accounted_unbounded :
    (r : RandomState) (k : Bytes) (entry : Entry) (s : Store)
    → s.max_memory_bytes ≡ none
    → insert_accounted r k entry s ≡ write_entry r k entry s
unfolding insert_accounted
insert_accounted_unbounded r k entry s e =
    evict_to_budget_lem k (write_entry r k entry s)
    ∙ ap (with_budget k (write_entry r k entry s)) (budget-written r k entry s ∙ e)

-- After a write the store is within its budget, or it holds nothing but the key just written.
pub insert_accounted-Fits :
    (r : RandomState) (k : Bytes) (entry : Entry) (s : Store) (budget : ℕ)
    → Distinct s.map
    → s.max_memory_bytes ≡ some budget
    → Fits budget k (insert_accounted r k entry s)
unfolding insert_accounted
insert_accounted-Fits r k entry s budget d e =
    let t = write_entry r k entry s in
    let same : t.max_memory_bytes ≡ some budget = budget-written r k entry s ∙ e in
    rw (evict_to_budget_lem k t, ap (with_budget k t) same)
      (evict_loop-Fits (length t.map) budget k t (write_entry-Distinct r k entry s d) (omega arith))
