-- ===== src/Scan/Capacity.antt =====
-- The number of SCAN cursors is bounded.
use pg_resp.Prelude.{
  nat_eq, ℕ, zero, suc, ◌+◌, ◌≤◌, ◌<◌, ◌≡◌, refl, arith, Option, none, some, List, [], ◌∷◌, Bytes,
  true, length, ltb, leb, nat_beq, if◌then◌else◌, is_some, eq_refl, if_intro,
}
use pg_resp.HashMap.{HashOrder, lookup, remove, modify, insert}
use pg_resp.HashMap.Laws.{length-remove, length-modify, length-insert}
use pg_resp.Store.Types.{Instant, ScanState, ScanRegistry, max_live_cursors}
use pg_resp.Scan.{
  take_page, is_fresh, oldest, drop_oldest, evict_stale_and_over_capacity, next_cursor, start,
  resume, scan,
}

abbrev Cursors : Type 0
Cursors = List (ℕ × ScanState)

abbrev Found : Cursors → Option (ℕ × Instant) → Type 0
Found m none = length m ≡ 0
Found m (some x) = is_some (lookup x.0 m) ≡ true

Found-cons :
    (id : ℕ) (state : ScanState) (m : Cursors) (o : Option (ℕ × Instant))
    → Found m o
    → Found ((id, state) ∷ m) (elim o [
      | none ↦ some (id, state.last_used)
      | some (j, t) ↦ if leb state.last_used t then some (id, state.last_used) else some (j, t)
    ])
unfolding lookup
Found-cons id state m none h = ground (arith, eq_refl id)
Found-cons id state m (some (j, t)) h =
    if_intro (Found ((id, state) ∷ m)) (leb state.last_used t) (λ _. ground (arith, eq_refl id))
      (λ _. ground (arith, h))

oldest-Found : (m : Cursors) → Found m (oldest m)
unfolding oldest
oldest-Found [] = refl
oldest-Found ((id, state) ∷ m) = Found-cons id state m (oldest m) (oldest-Found m)

drop_round :
    (rounds : ℕ) (m : Cursors) (o : Option (ℕ × Instant))
    → Found m o
    → length m ≤ suc rounds
    → ((m' : Cursors) → length m' ≤ rounds → length (drop_oldest rounds m') < max_live_cursors)
    → length {A = ℕ × ScanState} (elim o [
      | none ↦ m
      | some (id, _) ↦
          let rest = drop_oldest rounds (remove id m) in
          if leb max_live_cursors (length m) then rest else m
    ])
      < max_live_cursors
drop_round rounds m none h le next = omega (arith, h)
drop_round rounds m (some (id, t)) h le next =
    let shorter : length (remove id m) ≤ rounds = omega (arith, length-remove id m h) in
    if_intro {A = Cursors} (λ m'. length m' < max_live_cursors) (leb max_live_cursors (length m))
      (λ _. next (remove id m) shorter) (λ room. ground arith)

drop_oldest-bound :
    (rounds : ℕ) (m : Cursors)
    → length m ≤ rounds
    → length (drop_oldest rounds m) < max_live_cursors
unfolding drop_oldest
drop_oldest-bound zero m le = omega arith
drop_oldest-bound (suc rounds) m le =
    drop_round rounds m (oldest m) (oldest-Found m) le (drop_oldest-bound rounds)

evict-bound :
    (now : Instant) (reg : ScanRegistry)
    → length (evict_stale_and_over_capacity now reg).cursors < max_live_cursors
unfolding evict_stale_and_over_capacity
evict-bound now reg = drop_oldest-bound _ _ (omega arith)

insert-bound :
    (h : HashOrder (ℕ × ScanState)) (id : ℕ) (st : ScanState) (m : Cursors)
    → length (insert h id st m) ≤ length m + 1
insert-bound h id st m = ground (arith, length-insert h id st m)

start-bound :
    (h : HashOrder (ℕ × ScanState)) (now : Instant) (keys : List Bytes) (count : ℕ)
    (reg : ScanRegistry)
    → length (start h now keys count reg).0.cursors ≤ max_live_cursors
unfolding start
start-bound h now keys count reg =
    let kept = evict_stale_and_over_capacity now reg in
    let id = next_cursor kept.next_id in
    let fresh : ScanState = record { snapshot = keys; position = 0; last_used = now } in
    let paged = take_page fresh count in
    if_intro {A = ScanRegistry × ℕ × List Bytes} (λ p. length p.0.cursors ≤ max_live_cursors)
      (ltb paged.0.position (length paged.0.snapshot))
      (λ _. omega (arith, evict-bound now reg, insert-bound h id paged.0 kept.cursors))
      (λ _. omega (arith, evict-bound now reg))

length-remove_le : (k : ℕ) (m : Cursors) → length (remove k m) ≤ length m
unfolding remove
length-remove_le k [] = omega arith
length-remove_le k ((j, v) ∷ m) = ground (arith, length-remove_le k m)

resume-bound :
    (now : Instant) (cursor count : ℕ) (st : ScanState) (reg : ScanRegistry)
    → length (resume now cursor count st reg).0.cursors ≤ length reg.cursors
unfolding resume
resume-bound now cursor count st reg =
    let paged = take_page (record st { last_used = now }) count in
    let written = modify cursor (λ _. paged.0) reg.cursors in
    let same = length-modify cursor (λ _. paged.0) reg.cursors in
    if_intro {A = ScanRegistry × ℕ × List Bytes} (λ p. length p.0.cursors ≤ length reg.cursors)
      (leb (length paged.0.snapshot) paged.0.position)
      (λ _. omega (arith, same, length-remove_le cursor written)) (λ _. omega (arith, same))

abbrev resumed :
    Instant
    → ℕ
    → ℕ
    → ScanRegistry
    → ScanRegistry × ℕ × List Bytes
    → Option ScanState
    → ScanRegistry × ℕ × List Bytes
resumed now cursor count reg anew o = elim o [
  | none ↦ anew
  | some state ↦ if is_fresh now state then resume now cursor count state reg else anew
]

resumed-bound :
    (now : Instant) (cursor count : ℕ) (reg : ScanRegistry) (anew : ScanRegistry × ℕ × List Bytes)
    (o : Option ScanState)
    → length anew.0.cursors ≤ max_live_cursors
    → length reg.cursors ≤ max_live_cursors
    → length (resumed now cursor count reg anew o).0.cursors ≤ max_live_cursors
resumed-bound now cursor count reg anew none a r = a
resumed-bound now cursor count reg anew (some state) a r =
    if_intro {A = ScanRegistry × ℕ × List Bytes} (λ p. length p.0.cursors ≤ max_live_cursors)
      (is_fresh now state) (λ _. omega (arith, r, resume-bound now cursor count state reg)) (λ _. a)

-- However SCAN is called, a registry of at most 64 cursors holds at most 64 afterwards.
pub scan-bound :
    (h : HashOrder (ℕ × ScanState)) (now : Instant) (cursor count : ℕ) (keys : List Bytes)
    (reg : ScanRegistry)
    → length reg.cursors ≤ max_live_cursors
    → length (scan h now cursor count keys reg).0.cursors ≤ max_live_cursors
unfolding scan
scan-bound h now cursor count keys reg r =
    let a = start-bound h now keys count reg in
    if_intro {A = ScanRegistry × ℕ × List Bytes} (λ p. length p.0.cursors ≤ max_live_cursors)
      (nat_beq cursor 0) (λ _. a)
      (λ _.
        resumed-bound now cursor count reg (start h now keys count reg) (lookup cursor reg.cursors)
          a r)
