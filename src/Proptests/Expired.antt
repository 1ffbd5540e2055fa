-- ===== src/Proptests/Expired.antt =====
-- The test `expired_keys_never_returned` of crates/resp-store/src/proptests.rs.
use pg_resp.Prelude.{
  bytes_eq, ℕ, suc, ◌+◌, ◌*◌, ◌≤◌, ◌<◌, ◌≡◌, refl, sym, ap, ◌∙◌, true, false, ◌&&◌, not, Bool,
  Option, none, some, List, [], ◌∷◌, All, weaken-All, arith, Bytes, codes, is_some, option_map,
  ◌==◌, eq_iff, inl, inr, Bool-cases,
}
use pg_resp.HashMap.{lookup, Distinct}
use pg_resp.Store.Types.{Instant, Entry, Store, RandomState, at, Condition, nanos_per_milli}
use pg_resp.Store.Account.{new, expire_if_needed, insert_accounted}
use pg_resp.Store.Account.Clock.{view}
use pg_resp.Store.Account.Valid.{IsValid, expire_if_needed-IsValid}
use pg_resp.Store.Account.View.{
  visible, alive_at, live_entry, lookup-expire_self, lookup-expire_ne,
  visible-insert_accounted_self, visible-insert_accounted_ne,
}
use pg_resp.Store.Values.{set, get, fresh}
use pg_resp.Store.Values.Reads.{value_of, get-visible, visible-get}
use pg_resp.Store.Values.Valid.{set-IsValid, get-IsValid}
use pg_resp.Proptests.Limit.{numbered_key}

-- The keys that the loops go through, from the `i`th.
unfoldable pub keys_from : ℕ → List ℕ → List Bytes
keys_from i [] = []
keys_from i (_ ∷ ttls_ms) = numbered_key i ∷ keys_from (suc i) ttls_ms

-- The first loop.
unfoldable pub write_expiring : RandomState → Instant → ℕ → List ℕ → Store → Store
write_expiring r now i [] s = s
write_expiring r now i (ttl_ms ∷ ttls_ms) s =
    let deadline = at (now + ttl_ms * nanos_per_milli) in
    write_expiring r now (suc i) ttls_ms
      (set r now (numbered_key i) (codes "v") deadline Condition.none false s).0

-- The second loop: whether each GET answers nothing.
unfoldable pub none_returned : Instant → List Bytes → Store → Bool
none_returned later [] s = true
none_returned later (key ∷ keys) s =
    let (s', value) = get later key s in not (is_some value) && none_returned later keys s'

unfoldable pub expired_keys_never_returned : RandomState → Instant → List ℕ → Bool
expired_keys_never_returned r now ttls_ms =
    let s = write_expiring r now 0 ttls_ms new in
    none_returned (now + 1001 * nanos_per_milli) (keys_from 0 ttls_ms) s

-- Nothing shows at `later`.
abbrev Gone : Instant → Store → Type 0
Gone later s = (j : Bytes) → visible later j s ≡ none

-- What shows of an entry, and what shows of it after an expiry at any time.
live_entry-Gone :
    (now later : Instant) (o : Option Entry)
    → alive_at later (option_map view o) ≡ none
    → alive_at later (option_map view (live_entry now o)) ≡ none
live_entry-Gone now later none h = h
live_entry-Gone now later (some e) h = ground (arith, h)

expire-Gone :
    (k : Bytes) (now later : Instant) (s : Store)
    → Distinct s.map
    → Gone later s
    → Gone later (expire_if_needed k now s)
expire-Gone k now later s d h j = elim (Bool-cases (k == j)) [
  | inl same ↦
      let e : k ≡ j = (eq_iff k j).0 same in
      ap (λ i. visible later i (expire_if_needed k now s)) (sym e)
      ∙ ap (λ o. alive_at later (option_map view o)) (lookup-expire_self k now s d)
      ∙ live_entry-Gone now later (lookup k s.map) (h k)
  | inr other ↦
      ap (λ o. alive_at later (option_map view o)) (lookup-expire_ne k j now s other) ∙ h j
]

-- A write whose deadline will have come does not show then.
insert-Gone :
    (r : RandomState) (later deadline : Instant) (k value : Bytes) (s : Store)
    → Distinct s.map
    → deadline ≤ later
    → Gone later s
    → Gone later (insert_accounted r k (fresh value (some deadline)) s)
insert-Gone r later deadline k value s d past h j = elim (Bool-cases (k == j)) [
  | inl same ↦
      let e : k ≡ j = (eq_iff k j).0 same in
      let entry = fresh value (some deadline) in
      ap (λ i. visible later i (insert_accounted r k entry s)) (sym e)
      ∙ visible-insert_accounted_self r later k entry s d
      ∙ ground arith
  | inr other ↦
      elim (visible-insert_accounted_ne r later k j (fresh value (some deadline)) s d other) [
        | inl gone ↦ gone
        | inr kept ↦ kept ∙ h j
      ]
]

set-Gone :
    (r : RandomState) (now later deadline : Instant) (k value : Bytes) (s : Store)
    → IsValid s
    → deadline ≤ later
    → Gone later s
    → Gone later (set r now k value (at deadline) Condition.none false s).0
unfolding set
set-Gone r now later deadline k value s v past h =
    insert-Gone r later deadline k value (expire_if_needed k now s)
      (expire_if_needed-IsValid k now s v).distinct past (expire-Gone k now later s v.distinct h)

record Over (later : Instant) (s : Store) : Type 0 where
  valid : IsValid s
  gone : Gone later s

write_expiring-Over :
    (r : RandomState) (now later : Instant) (i : ℕ) (ttls_ms : List ℕ) (s : Store)
    → All (λ ttl_ms. now + ttl_ms * nanos_per_milli ≤ later) ttls_ms
    → Over later s
    → Over later (write_expiring r now i ttls_ms s)
unfolding write_expiring
write_expiring-Over r now later i [] s short h = h
write_expiring-Over r now later i (ttl_ms ∷ ttls_ms) s (past, short) h =
    let deadline : Instant = now + ttl_ms * nanos_per_milli in
    let k = numbered_key i in
    write_expiring-Over r now later (suc i) ttls_ms
      (set r now k (codes "v") (at deadline) Condition.none false s).0 short
      (record {
        valid = set-IsValid r now k (codes "v") (at deadline) Condition.none false s h.valid;
        gone = set-Gone r now later deadline k (codes "v") s h.valid past h.gone;
      })

none_returned_lem :
    (later : Instant) (keys : List Bytes) (s : Store)
    → Over later s
    → none_returned later keys s ≡ true
unfolding none_returned
none_returned_lem later [] s h = refl
none_returned_lem later (k ∷ keys) s h =
    let answer : (get later k s).1 ≡ none =
      get-visible later k s h.valid ∙ ap value_of (h.gone k) in
    let rest = none_returned_lem later keys (get later k s).0 (record {
      valid = get-IsValid later k s h.valid;
      gone = λ j. visible-get later k j s h.valid ∙ h.gone j;
    }) in
    ground (arith, answer, rest)

-- The test holds: whatever times to live below a second the keys are given, no GET at 1001 ms
-- answers any of them.
pub expired_keys_never_returned_lem :
    (r : RandomState) (now : Instant) (ttls_ms : List ℕ)
    → All (λ ttl_ms. ttl_ms < 1000) ttls_ms
    → expired_keys_never_returned r now ttls_ms ≡ true
unfolding expired_keys_never_returned lookup
expired_keys_never_returned_lem r now ttls_ms short =
    let later : Instant = now + 1001 * nanos_per_milli in
    none_returned_lem later (keys_from 0 ttls_ms) (write_expiring r now 0 ttls_ms new) (
      write_expiring-Over r now later 0 ttls_ms new
        (weaken-All ttls_ms (λ ttl below. omega (arith, below)) short)
        (record { valid = record { distinct = tt; accounted = refl }; gone = λ j. refl }))
