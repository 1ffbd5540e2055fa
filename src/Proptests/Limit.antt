-- ===== src/Proptests/Limit.antt =====
-- The test `never_exceeds_budget_by_more_than_one_entry` of crates/resp-store/src/proptests.rs.
use pg_resp.Prelude.{
  bytes_eq, ℕ, ◌+◌, ◌≤◌, ◌≡◌, refl, sym, ap, ◌∙◌, true, false, ◌&&◌, Bool, none, some, List, [],
  ◌∷◌, ◌++◌, arith, Bytes, codes, length, leb, ◌==◌, eq_iff, inl, inr, Bool-cases,
}
use Prim.Native.Nat.{max}
use mathlib.Core.Path.{subst}
use pg_resp.Decimal.{nat_to_string}
use pg_resp.HashMap.{lookup, Distinct, total}
use pg_resp.Store.Types.{Instant, Entry, Store, RandomState}
use pg_resp.Store.Account.{entry_bytes, with_max_memory, expire_if_needed}
use pg_resp.Store.Account.Budget.{Fits, insert_accounted-Fits, lookup-insert_accounted_self}
use pg_resp.Store.Account.Clock.{weight}
use pg_resp.Store.Account.Valid.{IsValid, expire_if_needed-IsValid}
use pg_resp.Store.Steady.{expire_if_needed-Steady}
use pg_resp.Store.Values.{fresh}
use pg_resp.Proptests.{put, repeat}
use pg_resp.Proptests.Writes.{put_lem, put-IsValid, put-Steady}

-- `format!("k{key_id}")`
abbrev pub numbered_key : ℕ → Bytes
numbered_key i = codes "k" ++ nat_to_string i

-- The loop: whether no assertion fails.
unfoldable pub within_budget :
    RandomState → Instant → (budget max_single_entry : ℕ) → List (ℕ × ℕ) → Store → Bool
within_budget r now budget max_single_entry [] s = true
within_budget r now budget max_single_entry ((key_id, value_len) ∷ ops) s =
    let key = numbered_key key_id in
    let value = repeat b'x' value_len in
    let largest = max max_single_entry (entry_bytes key (length value)) in
    let s' = put r now key value s in
    leb s'.used_bytes (budget + largest) && within_budget r now budget largest ops s'

unfoldable pub never_exceeds_budget_by_more_than_one_entry :
    RandomState → Instant → List (ℕ × ℕ) → Bool
never_exceeds_budget_by_more_than_one_entry r now ops =
    within_budget r now 4096 0 ops (with_max_memory 4096)

-- A table with no key but `k` weighs what `k` weighs.
total-alone :
    (k : Bytes) (e : Entry) (m : List (Bytes × Entry))
    → Distinct m
    → lookup k m ≡ some e
    → ((j : Bytes) → (k == j) ≡ false → lookup j m ≡ none)
    → total weight m ≡ weight (k, e)
unfolding lookup
total-alone k e [] d held alone = cc
total-alone k e ((j, u) ∷ []) d held alone = elim (Bool-cases (k == j)) [
  | inl same ↦ ground (arith, held, eq_iff k j, eq_iff j k)
  | inr other ↦ ground (arith, alone j other, eq_iff j j)
]
total-alone k e ((j, u) ∷ (i, v) ∷ m) (a, d) held alone = elim (Bool-cases (k == j)) [
  | inl same ↦ ground (arith, alone i, eq_iff k j, eq_iff k i, eq_iff i i, eq_iff j i, eq_iff i j)
  | inr other ↦ ground (arith, alone j other, eq_iff j j)
]

-- What a write leaves: no more bytes than the budget and the entry that was written.
put-bound :
    (r : RandomState) (now : Instant) (k value : Bytes) (budget : ℕ) (s : Store)
    → IsValid s
    → s.max_memory_bytes ≡ some budget
    → (put r now k value s).used_bytes ≤ budget + entry_bytes k (length value)
put-bound r now k value budget s v limit =
    let s' = expire_if_needed k now s in
    let t = put r now k value s in
    let d = (expire_if_needed-IsValid k now s v).distinct in
    let fits : Fits budget k t = subst (Fits budget k) (sym (put_lem r now k value s)) (
      insert_accounted-Fits r k (fresh value none) s' budget d
        ((expire_if_needed-Steady k now s).budget ∙ limit)) in
    let held =
      ap (λ u. lookup k u.map) (put_lem r now k value s)
      ∙ lookup-insert_accounted_self r k (fresh value none) s' d in
    let w = put-IsValid r now k value s v in
    elim fits [
      | inl small ↦ omega (arith, small)
      | inr alone ↦ omega (arith, w.accounted, total-alone k _ t.map w.distinct held alone)
    ]

within_budget_lem :
    (r : RandomState) (now : Instant) (budget largest : ℕ) (ops : List (ℕ × ℕ)) (s : Store)
    → IsValid s
    → s.max_memory_bytes ≡ some budget
    → within_budget r now budget largest ops s ≡ true
unfolding within_budget
within_budget_lem r now budget largest [] s v limit = refl
within_budget_lem r now budget largest ((key_id, value_len) ∷ ops) s v limit =
    let key = numbered_key key_id in
    let value = repeat b'x' value_len in
    let size = entry_bytes key (length value) in
    let rest =
      within_budget_lem r now budget (max largest size) ops (put r now key value s)
        (put-IsValid r now key value s v) ((put-Steady r now key value s v).budget ∙ limit) in
    let bound = put-bound r now key value budget s v limit in
    let small : leb (put r now key value s).used_bytes (budget + max largest size) ≡ true =
      ground (arith, bound) in
    ground (arith, small, rest)

-- The test holds: under a budget of 4096 bytes, however many values of whatever sizes are written
-- one after another, the store never holds more bytes than the budget and its largest entry.
pub never_exceeds_budget_by_more_than_one_entry_lem :
    (r : RandomState) (now : Instant) (ops : List (ℕ × ℕ))
    → never_exceeds_budget_by_more_than_one_entry r now ops ≡ true
unfolding never_exceeds_budget_by_more_than_one_entry
never_exceeds_budget_by_more_than_one_entry_lem r now ops =
    within_budget_lem r now 4096 0 ops (with_max_memory 4096)
      (record { distinct = tt; accounted = refl }) refl
