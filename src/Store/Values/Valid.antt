-- ===== src/Store/Values/Valid.antt =====
-- Every operation on values keeps the invariant of the store.
use pg_resp.Prelude.{
  ◌%◌, bytes_eq, ℕ, ◌≡◌, refl, sym, ap, ◌∙◌, Bool, Option, none, some, List, [], ◌∷◌, arith, Bytes,
  Option-cases, inl, inr, if_intro,
}
use pg_resp.Prelude.Int.{ℤ}
use pg_resp.Prelude.Int.{u64_mod}
use pg_resp.HashMap.{lookup, modify, total, contains_key}
use pg_resp.HashMap.Laws.{modify-Distinct}
use pg_resp.Store.Types.{Instant, Entry, Expiry, Condition, SetOutcome, Store, RandomState}
use pg_resp.Store.Account.{expire_if_needed, insert_accounted}
use pg_resp.Store.Account.Clock.{weight}
use pg_resp.Store.Account.Valid.{
  IsValid, remove_accounted-IsValid, insert_accounted-IsValid, expire_if_needed-IsValid,
}
use pg_resp.Store.Values.{
  get, set, get_del, get_ex, incr_by, store_sum, add_delta, mget, mset, hit, miss, set_deadline,
  update_deadline, fresh, condition_ok,
}

total-modify_value :
    (k : Bytes) (f : Entry → Entry) (m : List (Bytes × Entry))
    → ((e : Entry) → (f e).value ≡ e.value)
    → total weight (modify k f m) ≡ total weight m
unfolding modify
total-modify_value k f [] keep = refl
total-modify_value k f ((j, e) ∷ m) keep = ground (arith, total-modify_value k f m keep, keep e)

pub modify-IsValid :
    (k : Bytes) (f : Entry → Entry) (s : Store)
    → ((e : Entry) → (f e).value ≡ e.value)
    → IsValid s
    → IsValid (record s { map = modify k f s.map })
modify-IsValid k f s keep v = record {
  distinct = modify-Distinct k f s.map v.distinct;
  accounted = v.accounted ∙ ap (λ (t : ℕ). t % u64_mod) (sym (total-modify_value k f s.map keep));
}

hit-IsValid : (s : Store) → IsValid s → IsValid (hit s)
hit-IsValid s v = record { distinct = v.distinct; accounted = v.accounted }

miss-IsValid : (s : Store) → IsValid s → IsValid (miss s)
miss-IsValid s v = record { distinct = v.distinct; accounted = v.accounted }

pub set_deadline-IsValid :
    (k : Bytes) (t : Option Instant) (s : Store) → IsValid s → IsValid (set_deadline k t s)
set_deadline-IsValid k t s v = modify-IsValid k _ s (λ e. refl) v

update_deadline-IsValid :
    (o : Option Expiry) (k : Bytes) (s : Store) → IsValid s → IsValid (update_deadline o k s)
update_deadline-IsValid none k s v = v
update_deadline-IsValid (some x) k s v = set_deadline-IsValid k _ s v

pub get-IsValid : (now : Instant) (k : Bytes) (s : Store) → IsValid s → IsValid (get now k s).0
unfolding get
get-IsValid now k s v =
    let w = expire_if_needed-IsValid k now s v in
    elim (Option-cases (lookup k (expire_if_needed k now s).map)) [
      | inl e ↦ rw (e, get) (miss-IsValid _ w)
      | inr (x, e) ↦ rw (e, get) (hit-IsValid _ (modify-IsValid k _ _ (λ e. refl) w))
    ]

pub set-IsValid :
    (r : RandomState) (now : Instant) (k v : Bytes) (x : Expiry) (c : Condition) (w : Bool)
    (s : Store)
    → IsValid s
    → IsValid (set r now k v x c w s).0
unfolding set
set-IsValid r now k v x c w s valid =
    let kept = expire_if_needed-IsValid k now s valid in
    if_intro {A = Store × SetOutcome} (λ p. IsValid p.0)
      (condition_ok c (contains_key k (expire_if_needed k now s).map))
      (λ _. insert_accounted-IsValid r k _ (expire_if_needed k now s) kept) (λ _. kept)

pub get_del-IsValid :
    (now : Instant) (k : Bytes) (s : Store) → IsValid s → IsValid (get_del now k s).0
unfolding get_del
get_del-IsValid now k s v =
    let w = expire_if_needed-IsValid k now s v in
    elim (Option-cases (lookup k (expire_if_needed k now s).map)) [
      | inl e ↦ rw (e, get_del) (miss-IsValid _ w)
      | inr (x, e) ↦ rw (e, get_del) (remove_accounted-IsValid k _ (hit-IsValid _ w))
    ]

pub get_ex-IsValid :
    (now : Instant) (k : Bytes) (o : Option Expiry) (s : Store)
    → IsValid s
    → IsValid (get_ex now k o s).0
unfolding get_ex
get_ex-IsValid now k o s v =
    let w = expire_if_needed-IsValid k now s v in
    elim (Option-cases (lookup k (expire_if_needed k now s).map)) [
      | inl e ↦ rw (e, get_ex) (miss-IsValid _ w)
      | inr (x, e) ↦ rw (e, get_ex) (update_deadline-IsValid o k _ (hit-IsValid _ w))
    ]

pub mget-IsValid :
    (now : Instant) (ks : List Bytes) (s : Store) → IsValid s → IsValid (mget now ks s).0
unfolding mget
mget-IsValid now [] s v = v
mget-IsValid now (k ∷ ks) s v = mget-IsValid now ks (get now k s).0 (get-IsValid now k s v)

pub mset-IsValid :
    (r : RandomState) (ps : List (Bytes × Bytes)) (s : Store) → IsValid s → IsValid (mset r ps s)
unfolding mset
mset-IsValid r [] s v = v
mset-IsValid r ((k, x) ∷ ps) s v =
    mset-IsValid r ps (insert_accounted r k (fresh x none) s)
      (insert_accounted-IsValid r k (fresh x none) s v)

store_sum-IsValid :
    (r : RandomState) (k : Bytes) (s : Store) (o : Option ℤ)
    → IsValid s
    → IsValid (store_sum r k s o).0
unfolding store_sum
store_sum-IsValid r k s none v = v
store_sum-IsValid r k s (some n) v = insert_accounted-IsValid r k _ s v

add_delta-IsValid :
    (r : RandomState) (k : Bytes) (d : ℤ) (s : Store) (o : Option ℤ)
    → IsValid s
    → IsValid (add_delta r k d s o).0
unfolding add_delta
add_delta-IsValid r k d s none v = v
add_delta-IsValid r k d s (some n) v = store_sum-IsValid r k s _ v

pub incr_by-IsValid :
    (r : RandomState) (now : Instant) (k : Bytes) (d : ℤ) (s : Store)
    → IsValid s
    → IsValid (incr_by r now k d s).0
unfolding incr_by
incr_by-IsValid r now k d s v = add_delta-IsValid r k d _ _ (expire_if_needed-IsValid k now s v)
