-- ===== src/Store/Values/Reads.antt =====
-- What GET, MGET, GETDEL and GETEX return, against the visible contents of the store.
use pg_resp.Prelude.{
  bytes_eq, ◌≡◌, refl, sym, ap, ◌∙◌, false, Option, none, some, List, [], ◌∷◌, arith, Bytes, map,
  ◌==◌, eq_iff, if◌then◌else◌, option_map, Option-cases, Bool-cases, inl, inr,
}
use mathlib.Core.Path.{ap₂, fun_ext}
use pg_resp.HashMap.{lookup, Distinct}
use pg_resp.HashMap.Laws.{lookup-remove_ne, lookup-remove_self}
use pg_resp.Store.Types.{Instant, Entry, Store}
use pg_resp.Store.Account.{remove_accounted, expire_if_needed}
use pg_resp.Store.Account.Clock.{view, peek}
use pg_resp.Store.Account.Valid.{IsValid, expire_if_needed-IsValid}
use pg_resp.Store.Account.View.{
  visible, alive_at, peek-expire_self, visible-expire, peek-modify-view,
}
use pg_resp.Store.Values.{get, get_del, mget, touch, hit}
use pg_resp.Store.Values.Valid.{get-IsValid}

peek_inv :
    (k : Bytes) (m : List (Bytes × Entry)) (o : Option (Bytes × Option Instant)) (e : Entry)
    → peek k m ≡ o
    → lookup k m ≡ some e
    → o ≡ some (view e)
peek_inv k m o e p q = sym p ∙ ap (option_map view) q

visible-touch :
    (now : Instant) (k j : Bytes) (s : Store) → visible now j (touch k s) ≡ visible now j s
visible-touch now k j s = ap (alive_at now) (peek-modify-view k j _ s.map (λ e. refl))

abbrev pub value_of : Option (Bytes × Option Instant) → Option Bytes
value_of none = none
value_of (some x) = some x.0

get-peek :
    (now : Instant) (k : Bytes) (s : Store)
    → (get now k s).1 ≡ value_of (peek k (expire_if_needed k now s).map)
unfolding get
get-peek now k s = ground arith

-- GET returns the visible value of the key: the stored one, and never an expired one.
pub get-visible :
    (now : Instant) (k : Bytes) (s : Store)
    → IsValid s
    → (get now k s).1 ≡ value_of (visible now k s)
get-visible now k s v = get-peek now k s ∙ ap value_of (peek-expire_self k now s v.distinct)

-- GET changes nothing that a client can see.
pub visible-get :
    (now : Instant) (k j : Bytes) (s : Store)
    → IsValid s
    → visible now j (get now k s).0 ≡ visible now j s
unfolding get
visible-get now k j s v = elim (Option-cases (lookup k (expire_if_needed k now s).map)) [
  | inl e ↦ rw (e, get) (visible-expire k j now s v.distinct)
  | inr (x, e) ↦
      rw (e, get)
        (visible-touch now k j (expire_if_needed k now s) ∙ visible-expire k j now s v.distinct)
]

-- MGET returns the visible value of each key, in order.
pub mget-visible :
    (now : Instant) (ks : List Bytes) (s : Store)
    → IsValid s
    → (mget now ks s).1 ≡ map (λ k. value_of (visible now k s)) ks
unfolding mget
mget-visible now [] s v = refl
mget-visible now (k ∷ ks) s v = ap₂ ◌∷◌ (get-visible now k s v) (
    mget-visible now ks (get now k s).0 (get-IsValid now k s v)
    ∙ ap (λ f. map f ks) (fun_ext λ j. ap value_of (visible-get now k j s v)))

get_del-peek :
    (now : Instant) (k : Bytes) (s : Store)
    → (get_del now k s).1 ≡ value_of (peek k (expire_if_needed k now s).map)
unfolding get_del
get_del-peek now k s = ground arith

removed-peek_self :
    (k : Bytes) (s : Store) → Distinct s.map → peek k (remove_accounted k s).0.map ≡ none
unfolding remove_accounted
removed-peek_self k s d = ground (arith, lookup-remove_self k s.map d)

pub removed-peek_ne :
    (k j : Bytes) (s : Store)
    → (k == j) ≡ false
    → peek j (remove_accounted k s).0.map ≡ peek j s.map
unfolding remove_accounted
removed-peek_ne k j s h = ground (arith, lookup-remove_ne k j s.map h)

-- After a removal the key shows nothing and every other key what it showed.
pub visible-remove_accounted :
    (now : Instant) (k j : Bytes) (s : Store)
    → Distinct s.map
    → visible now j (remove_accounted k s).0 ≡ (if k == j then none else visible now j s)
visible-remove_accounted now k j s d = elim (Bool-cases (k == j)) [
  | inl h ↦ rw h (
      ap (λ i. visible now i (remove_accounted k s).0) (sym ((eq_iff k j).0 h))
      ∙ ap (alive_at now) (removed-peek_self k s d))
  | inr h ↦ rw h (ap (alive_at now) (removed-peek_ne k j s h))
]

-- GETDEL returns what GET would, and afterwards the key is gone and the others are as they were.
pub get_del-visible :
    (now : Instant) (k j : Bytes) (s : Store)
    → IsValid s
    → ((get_del now k s).1 ≡ value_of (visible now k s))
      × (visible now j (get_del now k s).0 ≡ (if k == j then none else visible now j s))
unfolding get_del
get_del-visible now k j s v =
    let s' = expire_if_needed k now s in
    let seen = visible-expire k j now s v.distinct in
    let d = (expire_if_needed-IsValid k now s v).distinct in
    (
      get_del-peek now k s ∙ ap value_of (peek-expire_self k now s v.distinct),
      elim (Option-cases (lookup k s'.map)) [
        | inl e ↦
            rw (e, get_del)
              (seen ∙ elim (Bool-cases (k == j)) [
                | inl h ↦ rw h (
                    ap (λ i. visible now i s) (sym ((eq_iff k j).0 h))
                    ∙ sym (peek-expire_self k now s v.distinct)
                    ∙ ap (option_map view) e)
                | inr h ↦ rw h
              ])
        | inr (x, e) ↦
            rw (e, get_del)
              (visible-remove_accounted now k j (hit s') d
                ∙ ap (λ o. if k == j then none else o) seen)
      ],
    )
