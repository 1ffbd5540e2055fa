-- ===== src/Scan/Registry.antt =====
-- The cursors of the registry: no id twice, and none that was not issued yet.
use pg_resp.Prelude.{
  nat_eq, ℕ, zero, suc, ◌+◌, ◌<◌, ◌≡◌, refl, ap, ◌∙◌, arith, Bool, Option, none, some, List, [],
  ◌∷◌, Bytes, keep_if, length, ltb, leb, if◌then◌else◌, if_intro,
}
use pg_resp.Prelude.Int.{u64_mod}
use pg_resp.HashMap.{HashOrder, lookup, remove, modify, Distinct}
use pg_resp.HashMap.Laws.{
  lookup-modify, lookup-remove_none, lookup-insert, remove-Distinct, modify-Distinct,
  insert-Distinct,
}
use pg_resp.Store.Types.{Instant, ScanState, ScanRegistry, max_live_cursors}
use pg_resp.Scan.{
  take_page, is_fresh, oldest, drop_oldest, evict_stale_and_over_capacity, next_cursor, start,
  resume,
}

abbrev pub Cursors : Type 0
Cursors = List (ℕ × ScanState)

-- `m'` is a table and holds no id that `m` does not hold.
record Shrunk (m m' : Cursors) : Type 0 where
  distinct : Distinct m'
  absent : (k : ℕ) → lookup k m ≡ none → lookup k m' ≡ none

lookup-keep_if_none :
    (p : ℕ × ScanState → Bool) (k : ℕ) (m : Cursors)
    → lookup k m ≡ none
    → lookup k (keep_if p m) ≡ none
unfolding lookup
lookup-keep_if_none p k [] h = h
lookup-keep_if_none p k ((j, st) ∷ m) h = ground (arith, lookup-keep_if_none p k m)

keep_if-Distinct : (p : ℕ × ScanState → Bool) (m : Cursors) → Distinct m → Distinct (keep_if p m)
keep_if-Distinct p [] d = tt
keep_if-Distinct p ((j, st) ∷ m) (a, d) =
    if_intro Distinct (p (j, st)) (λ _. (lookup-keep_if_none p j m a, keep_if-Distinct p m d))
      (λ _. keep_if-Distinct p m d)

Shrunk-refl : (m : Cursors) → Distinct m → Shrunk m m
Shrunk-refl m d = record { distinct = d; absent = λ k h. h }

drop_round-Shrunk :
    (rounds : ℕ) (m : Cursors) (o : Option (ℕ × Instant))
    → Distinct m
    → ((m' : Cursors) → Distinct m' → Shrunk m' (drop_oldest rounds m'))
    → Shrunk m (elim o [
      | none ↦ m
      | some (id, _) ↦
          let rest = drop_oldest rounds (remove id m) in
          if leb max_live_cursors (length m) then rest else m
    ])
drop_round-Shrunk rounds m none d next = Shrunk-refl m d
drop_round-Shrunk rounds m (some (id, t)) d next =
    let below = next (remove id m) (remove-Distinct id m d) in
    if_intro (Shrunk m) (leb max_live_cursors (length m))
      (λ _. record {
        distinct = below.distinct;
        absent = λ k h. below.absent k (lookup-remove_none id k m h);
      })
      (λ _. Shrunk-refl m d)

drop_oldest-Shrunk : (rounds : ℕ) (m : Cursors) → Distinct m → Shrunk m (drop_oldest rounds m)
unfolding drop_oldest
drop_oldest-Shrunk zero m d = Shrunk-refl m d
drop_oldest-Shrunk (suc rounds) m d =
    drop_round-Shrunk rounds m (oldest m) d (drop_oldest-Shrunk rounds)

evict-Shrunk :
    (now : Instant) (reg : ScanRegistry)
    → Distinct reg.cursors
    → Shrunk reg.cursors (evict_stale_and_over_capacity now reg).cursors
unfolding evict_stale_and_over_capacity
evict-Shrunk now reg d =
    let p : ℕ × ScanState → Bool = λ x. is_fresh now x.1 in
    let kept = keep_if p reg.cursors in
    let less = drop_oldest-Shrunk (length kept) kept (keep_if-Distinct p reg.cursors d) in
    record {
      distinct = less.distinct;
      absent = λ k h. less.absent k (lookup-keep_if_none p k reg.cursors h);
    }

-- A table of cursors whose ids are all issued: at most `next_id`.
pub record IsIssued (reg : ScanRegistry) : Type 0 where
  pub distinct : Distinct reg.cursors
  pub unissued : (k : ℕ) → reg.next_id < k → lookup k reg.cursors ≡ none

-- The id of a new cursor is the next number, as long as the counter does not wrap around.
pub next_cursor-suc : (n : ℕ) → n + 1 < u64_mod → next_cursor n ≡ n + 1
next_cursor-suc n h = omega arith

next_id-evict :
    (now : Instant) (reg : ScanRegistry)
    → (evict_stale_and_over_capacity now reg).next_id ≡ reg.next_id
unfolding evict_stale_and_over_capacity
next_id-evict now reg = refl

pub evict-Distinct :
    (now : Instant) (reg : ScanRegistry)
    → Distinct reg.cursors
    → Distinct (evict_stale_and_over_capacity now reg).cursors
evict-Distinct now reg d = (evict-Shrunk now reg d).distinct

-- A new scan keeps the ids below the counter, which it moves by one.
pub start-IsIssued :
    (h : HashOrder (ℕ × ScanState)) (now : Instant) (keys : List Bytes) (count : ℕ)
    (reg : ScanRegistry)
    → IsIssued reg
    → reg.next_id + 1 < u64_mod
    → IsIssued (start h now keys count reg).0
      × ((start h now keys count reg).0.next_id ≡ reg.next_id + 1)
unfolding start
start-IsIssued h now keys count reg i room =
    let kept = evict_stale_and_over_capacity now reg in
    let less = evict-Shrunk now reg i.distinct in
    let id = next_cursor kept.next_id in
    let fresh : ScanState = record { snapshot = keys; position = 0; last_used = now } in
    let paged = take_page fresh count in
    let step : id ≡ reg.next_id + 1 =
      ap next_cursor (next_id-evict now reg) ∙ next_cursor-suc reg.next_id room in
    let absent : (k : ℕ) → id < k → lookup k kept.cursors ≡ none =
      λ k past. less.absent k (i.unissued k (omega (arith, step, past))) in
    if_intro {A = ScanRegistry × ℕ × List Bytes}
      (λ p. IsIssued p.0 × (p.0.next_id ≡ reg.next_id + 1))
      (ltb paged.0.position (length paged.0.snapshot))
      (λ _. (
        record {
          distinct = insert-Distinct h id paged.0 kept.cursors less.distinct;
          unissued = λ k past.
              lookup-insert h id k paged.0 kept.cursors less.distinct
              ∙ ground (arith, absent k past);
        },
        step,
      ))
      (λ _. (record { distinct = less.distinct; unissued = absent }, step))

-- A page of a live cursor keeps them too, and issues none.
pub resume-IsIssued :
    (now : Instant) (cursor count : ℕ) (st : ScanState) (reg : ScanRegistry)
    → IsIssued reg
    → IsIssued (resume now cursor count st reg).0
      × ((resume now cursor count st reg).0.next_id ≡ reg.next_id)
unfolding resume
resume-IsIssued now cursor count st reg i =
    let paged = take_page (record st { last_used = now }) count in
    let put : ScanState → ScanState = λ _. paged.0 in
    let written = modify cursor put reg.cursors in
    let d = modify-Distinct cursor put reg.cursors i.distinct in
    let absent : (k : ℕ) → reg.next_id < k → lookup k written ≡ none =
      λ k past. lookup-modify cursor k put reg.cursors ∙ ground (arith, i.unissued k past) in
    if_intro {A = ScanRegistry × ℕ × List Bytes} (λ p. IsIssued p.0 × (p.0.next_id ≡ reg.next_id))
      (leb (length paged.0.snapshot) paged.0.position)
      (λ _. (
        record {
          distinct = remove-Distinct cursor written d;
          unissued = λ k past. lookup-remove_none cursor k written (absent k past);
        },
        refl,
      ))
      (λ _. (record { distinct = d; unissued = absent }, refl))
