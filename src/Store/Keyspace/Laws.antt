-- ===== src/Store/Keyspace/Laws.antt =====
-- What DEL, EXISTS, KEYS, RANDOMKEY and FLUSHDB do, against the visible contents of the store.
use pg_resp.Prelude.{
  bytes_eq, ℕ, suc, ◌≡◌, refl, ap, ◌∙◌, Bool, false, ◌||◌, Option, none, some, List, [], ◌∷◌, arith,
  Bytes, ◌==◌, eq_iff, if◌then◌else◌, is_some,
}
use mathlib.Core.Path.{fun_ext, subst}
use pg_resp.HashMap.Laws.{remove_absent}
use pg_resp.HashMap.{lookup, remove, Distinct}
use pg_resp.Store.Types.{Instant, Entry, Store}
use pg_resp.Store.Account.{is_live, remove_accounted, expire_if_needed, expired_sample, remove_all}
use pg_resp.Store.Account.Clock.{peek}
use pg_resp.Store.Account.Valid.{
  IsValid, expire_if_needed-IsValid, remove_accounted-IsValid, remove_all-IsValid,
}
use pg_resp.Store.Account.View.{
  visible, alive_at, peek-expire_self, visible-expire, contains-visible,
}
use pg_resp.Store.Values.Reads.{visible-remove_accounted}
use pg_resp.Store.Keyspace.{del, exists, all_keys, live_keys, random_key, first_key, clear}

abbrev pub contains : Bytes → List Bytes → Bool
contains j [] = false
contains j (k ∷ ks) = k == j || contains j ks

-- one step of `del`
abbrev drop_key : Instant → Bytes → Store → Store
drop_key now k s = (remove_accounted k (expire_if_needed k now s)).0

drop_key-IsValid : (now : Instant) (k : Bytes) (s : Store) → IsValid s → IsValid (drop_key now k s)
drop_key-IsValid now k s v = remove_accounted-IsValid k _ (expire_if_needed-IsValid k now s v)

visible-drop_key :
    (now : Instant) (k j : Bytes) (s : Store)
    → IsValid s
    → visible now j (drop_key now k s) ≡ (if k == j then none else visible now j s)
visible-drop_key now k j s v =
    visible-remove_accounted now k j (expire_if_needed k now s)
      (expire_if_needed-IsValid k now s v).distinct
    ∙ ap (λ o. if k == j then none else o) (visible-expire k j now s v.distinct)

pub del-IsValid :
    (now : Instant) (ks : List Bytes) (s : Store) → IsValid s → IsValid (del now ks s).0
unfolding del
del-IsValid now [] s v = v
del-IsValid now (k ∷ ks) s v = del-IsValid now ks (drop_key now k s) (drop_key-IsValid now k s v)

-- DEL takes the named keys away and changes no other.
pub visible-del :
    (now : Instant) (ks : List Bytes) (j : Bytes) (s : Store)
    → IsValid s
    → visible now j (del now ks s).0 ≡ (if contains j ks then none else visible now j s)
unfolding del
visible-del now [] j s v = refl
visible-del now (k ∷ ks) j s v =
    visible-del now ks j (drop_key now k s) (drop_key-IsValid now k s v)
    ∙ ground (arith, visible-drop_key now k j s v)

-- How many of the keys pass the test, a key that was met before not counted.
abbrev pub first_hits : (Bytes → Bool) → List Bytes → ℕ
first_hits p [] = 0
first_hits p (k ∷ ks) =
    let rest = first_hits (λ j. if k == j then false else p j) ks in if p k then suc rest else rest

removed-visible :
    (now : Instant) (k : Bytes) (s : Store)
    → IsValid s
    → is_some (remove_accounted k (expire_if_needed k now s)).1 ≡ is_some (visible now k s)
unfolding remove_accounted
removed-visible now k s v = ground (arith, peek-expire_self k now s v.distinct)

count_removed :
    (o : Option Entry) (n : ℕ)
    → (elim o [ none ↦ n | some _ ↦ suc n ]) ≡ (if is_some o then suc n else n)
count_removed none n = refl
count_removed (some e) n = refl

-- DEL answers how many distinct visible keys were named.
pub del-count :
    (now : Instant) (ks : List Bytes) (s : Store)
    → IsValid s
    → (del now ks s).1 ≡ first_hits (λ k. is_some (visible now k s)) ks
unfolding del
del-count now [] s v = refl
del-count now (k ∷ ks) s v =
    let s' = drop_key now k s in
    let same : (j : Bytes)
        → is_some (visible now j s') ≡ (if k == j then false else is_some (visible now j s)) =
      λ j. ground (arith, visible-drop_key now k j s v) in
    let rest =
      del-count now ks s' (drop_key-IsValid now k s v) ∙ ap (λ p. first_hits p ks) (fun_ext same) in
    count_removed (remove_accounted k (expire_if_needed k now s)).1 (del now ks s').1
    ∙ ground (arith, rest, removed-visible now k s v)

abbrev pub count_true : (Bytes → Bool) → List Bytes → ℕ
count_true p [] = 0
count_true p (k ∷ ks) = let rest = count_true p ks in if p k then suc rest else rest

-- EXISTS counts the visible keys, repeats included, and changes nothing that can be seen.
pub exists-visible :
    (now : Instant) (ks : List Bytes) (j : Bytes) (s : Store)
    → IsValid s
    → ((exists now ks s).1 ≡ count_true (λ k. is_some (visible now k s)) ks)
      × (visible now j (exists now ks s).0 ≡ visible now j s)
      × IsValid (exists now ks s).0
unfolding exists
exists-visible now [] j s v = (refl, refl, v)
exists-visible now (k ∷ ks) j s v =
    let s' = expire_if_needed k now s in
    let (count, same, w) = exists-visible now ks j s' (expire_if_needed-IsValid k now s v) in
    let count' =
      count
      ∙ ap (λ p. count_true p ks) (fun_ext λ i. ap is_some (visible-expire k i now s v.distinct)) in
    (
      ground (arith, count', contains-visible now k s v.distinct),
      same ∙ visible-expire k j now s v.distinct,
      w,
    )

pub contains-live_keys :
    (now : Instant) (m : List (Bytes × Entry)) (j : Bytes)
    → Distinct m
    → contains j (live_keys now m) ≡ is_some (alive_at now (peek j m))
unfolding live_keys lookup is_live
contains-live_keys now [] j d = refl
contains-live_keys now ((k, e) ∷ m) j (a, d) =
    ground (arith, contains-live_keys now m j d, eq_iff k j)

-- KEYS lists exactly the visible keys.
pub all_keys-visible :
    (now : Instant) (j : Bytes) (s : Store)
    → IsValid s
    → contains j (all_keys now s) ≡ is_some (visible now j s)
unfolding all_keys
all_keys-visible now j s v = contains-live_keys now s.map j v.distinct

map-removed : (k : Bytes) (s : Store) → (remove_accounted k s).0.map ≡ remove k s.map
unfolding remove_accounted
map-removed k s = ground (arith, remove_absent k s.map)

remove-head : (k : Bytes) (e : Entry) (m : List (Bytes × Entry)) → remove k ((k, e) ∷ m) ≡ m
unfolding remove
remove-head k e m = ground (arith, eq_iff k k)

sample-head :
    (now : Instant) (k : Bytes) (e : Entry) (m : List (Bytes × Entry))
    → is_live e now ≡ false
    → expired_sample now 1 ((k, e) ∷ m) ≡ k ∷ []
unfolding expired_sample
sample-head now k e m dead = ground arith

second-invisible :
    (now : Instant) (k j : Bytes) (e u : Entry) (m : List (Bytes × Entry))
    → Distinct ((k, e) ∷ (j, u) ∷ m)
    → is_live u now ≡ false
    → alive_at now (peek j ((k, e) ∷ (j, u) ∷ m)) ≡ none
unfolding is_live lookup
second-invisible now k j e u m (a, _) dead = ground (arith, eq_iff k j, eq_iff j k, eq_iff j j)

random-first :
    (now : Instant) (s : Store) (k : Bytes)
    → (expired_sample now 1 s.map ≡ k ∷ [])
    → (random_key now s).1 ≡ first_key (remove_accounted k s).0.map
unfolding random_key remove_all
random-first now s k p = ap (λ ks. first_key (remove_all ks s).map) p

-- RANDOMKEY looks at one entry only: where the first two entries of the table have both expired,
-- it answers the second of them, a key that is not visible.
pub random_key_expired :
    (now : Instant) (s : Store) (k j : Bytes) (e u : Entry) (m : List (Bytes × Entry))
    → IsValid s
    → s.map ≡ (k, e) ∷ (j, u) ∷ m
    → is_live e now ≡ false
    → is_live u now ≡ false
    → ((random_key now s).1 ≡ some j) × (visible now j s ≡ none)
random_key_expired now s k j e u m v shape dead dead' = (
  random-first now s k (ap (expired_sample now 1) shape ∙ sample-head now k e ((j, u) ∷ m) dead)
      ∙ ap first_key (map-removed k s ∙ ap (remove k) shape ∙ remove-head k e ((j, u) ∷ m)),
  ap (λ m'. alive_at now (peek j m')) shape
      ∙ second-invisible now k j e u m (subst Distinct shape v.distinct) dead',
)

-- FLUSHDB leaves a valid store in which nothing is visible, and keeps the lifetime counters.
pub clear-visible :
    (now : Instant) (j : Bytes) (s : Store)
    → (visible now j (clear s) ≡ none)
      × IsValid (clear s)
      × ((clear s).hits ≡ s.hits)
      × ((clear s).misses ≡ s.misses)
      × ((clear s).evictions ≡ s.evictions)
unfolding clear lookup
clear-visible now j s = (refl, record { distinct = tt; accounted = refl }, refl, refl, refl)

pub random_key-IsValid : (now : Instant) (s : Store) → IsValid s → IsValid (random_key now s).0
unfolding random_key
random_key-IsValid now s v = remove_all-IsValid _ s v
