-- ===== src/Store/Account/View.antt =====
-- What a client can see of the store at a time: the value and deadline of each key that has not
-- expired. Lazy expiry does not change it, and a write changes it at one key.
use pg_resp.Prelude.{
  bytes_eq, ◌≡◌, refl, sym, ap, ◌∙◌, ◌⊎◌, false, Option, none, some, List, [], ◌∷◌, arith, Bytes,
  ◌==◌, eq_iff, if◌then◌else◌, option_map, is_some, Bool-cases, inl, inr, ltb,
}
use pg_resp.HashMap.{lookup, modify, Distinct, contains_key}
use pg_resp.HashMap.Laws.{lookup-remove_ne, lookup-remove_self}
use pg_resp.Store.Types.{Instant, Entry, Store, RandomState}
use pg_resp.Store.Account.{is_live, remove_accounted, insert_accounted, expire_if_needed}
use pg_resp.Store.Account.Clock.{view, peek}
use pg_resp.Store.Account.Budget.{lookup-insert_accounted_self, peek-insert_accounted_ne}

-- A value with its deadline, unless the deadline has come.
abbrev pub alive : Instant → Bytes × Option Instant → Option (Bytes × Option Instant)
alive now (value, none) = some (value, none)
alive now (value, some deadline) = if ltb now deadline then some (value, some deadline) else none

abbrev pub alive_at : Instant → Option (Bytes × Option Instant) → Option (Bytes × Option Instant)
alive_at now none = none
alive_at now (some x) = alive now x

-- The abstract state: a partial map from keys to values and deadlines.
abbrev pub visible : Instant → Bytes → Store → Option (Bytes × Option Instant)
visible now k s = alive_at now (peek k s.map)

abbrev pub live_entry : Instant → Option Entry → Option Entry
live_entry now none = none
live_entry now (some e) = if is_live e now then some e else none

pub lookup-expire_self :
    (k : Bytes) (now : Instant) (s : Store)
    → Distinct s.map
    → lookup k (expire_if_needed k now s).map ≡ live_entry now (lookup k s.map)
unfolding expire_if_needed remove_accounted
lookup-expire_self k now s d = ground (arith, lookup-remove_self k s.map d)

pub lookup-expire_ne :
    (k j : Bytes) (now : Instant) (s : Store)
    → (k == j) ≡ false
    → lookup j (expire_if_needed k now s).map ≡ lookup j s.map
unfolding expire_if_needed remove_accounted
lookup-expire_ne k j now s h = ground (arith, lookup-remove_ne k j s.map h)

alive-live_entry :
    (now : Instant) (o : Option Entry)
    → option_map view (live_entry now o) ≡ alive_at now (option_map view o)
unfolding is_live
alive-live_entry now none = refl
alive-live_entry now (some e) = ground arith

-- After lazy expiry what the table holds of the key is what can be seen of it.
pub peek-expire_self :
    (k : Bytes) (now : Instant) (s : Store)
    → Distinct s.map
    → peek k (expire_if_needed k now s).map ≡ visible now k s
peek-expire_self k now s d =
    ap (option_map view) (lookup-expire_self k now s d) ∙ alive-live_entry now (lookup k s.map)

-- The lazy expiry decides presence by what is visible.
pub contains-visible :
    (now : Instant) (k : Bytes) (s : Store)
    → Distinct s.map
    → contains_key k (expire_if_needed k now s).map ≡ is_some (visible now k s)
contains-visible now k s d = ground (arith, peek-expire_self k now s d)

alive_twice :
    (now : Instant) (o : Option (Bytes × Option Instant))
    → alive_at now (alive_at now o) ≡ alive_at now o
alive_twice now none = refl
alive_twice now (some (v, none)) = refl
alive_twice now (some (v, some t)) = ground arith

pub visible-expire :
    (k j : Bytes) (now : Instant) (s : Store)
    → Distinct s.map
    → visible now j (expire_if_needed k now s) ≡ visible now j s
visible-expire k j now s d = elim (Bool-cases (k == j)) [
  | inl h ↦
      let e : k ≡ j = (eq_iff k j).0 h in
      ap (λ i. visible now i (expire_if_needed k now s)) (sym e)
      ∙ ap (alive_at now) (peek-expire_self k now s d)
      ∙ alive_twice now (peek k s.map)
      ∙ ap (λ i. visible now i s) e
  | inr h ↦ ap (λ o. alive_at now (option_map view o)) (lookup-expire_ne k j now s h)
]

pub peek-modify-view :
    (k j : Bytes) (f : Entry → Entry) (m : List (Bytes × Entry))
    → ((e : Entry) → view (f e) ≡ view e)
    → peek j (modify k f m) ≡ peek j m
unfolding lookup modify
peek-modify-view k j f [] keep = refl
peek-modify-view k j f ((i, e) ∷ m) keep =
    ground (arith, peek-modify-view k j f m keep, keep e, eq_iff i k, eq_iff i j)

-- A write shows at its key, unless its deadline has come already.
pub visible-insert_accounted_self :
    (r : RandomState) (now : Instant) (k : Bytes) (entry : Entry) (s : Store)
    → Distinct s.map
    → visible now k (insert_accounted r k entry s) ≡ alive now (view entry)
visible-insert_accounted_self r now k entry s d =
    ap (λ o. alive_at now (option_map view o)) (lookup-insert_accounted_self r k entry s d)

-- At any other key a write changes nothing, but it may evict it.
pub visible-insert_accounted_ne :
    (r : RandomState) (now : Instant) (k j : Bytes) (entry : Entry) (s : Store)
    → Distinct s.map
    → (k == j) ≡ false
    → (visible now j (insert_accounted r k entry s) ≡ none)
      ⊎ (visible now j (insert_accounted r k entry s) ≡ visible now j s)
visible-insert_accounted_ne r now k j entry s d h =
    elim (peek-insert_accounted_ne r k j entry s d h) [
      | inl gone ↦ inl (ap (λ o. alive_at now (option_map view o)) gone)
      | inr same ↦ inr (ap (alive_at now) same)
    ]
