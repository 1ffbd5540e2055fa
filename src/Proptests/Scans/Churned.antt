-- ===== src/Proptests/Scans/Churned.antt =====
-- SCAN under churn: the pages of a scan are the keys that were live at its start.
use pg_resp.Prelude.{
  bytes_eq, nat_eq, ℕ, zero, suc, ◌+◌, ◌*◌, ◌%◌, ◌≤◌, ◌<◌, ◌≡◌, refl, sym, ap, ◌∙◌, ◌⊎◌, true,
  Option, none, some, List, [], ◌∷◌, ◌++◌, append_assoc, arith, Bytes, codes, length, nat_beq,
  if◌then◌else◌, inl, inr,
}
use mathlib.Core.Path.{subst}
use pg_resp.HashMap.{lookup, Distinct}
use pg_resp.Scan.Session.{Delivers, Pending, scan-first, scan-next}
use pg_resp.Store.Types.{Instant, Entry, Store, RandomState}
use pg_resp.Store.Account.{new}
use pg_resp.Store.Account.Valid.{IsValid}
use pg_resp.Store.Keyspace.{live_keys, scan}
use pg_resp.Store.Keyspace.Laws.{contains, contains-live_keys, del-IsValid}
use pg_resp.Store.Steady.{Steady, Steady-refl, del-Steady}
use pg_resp.Proptests.{init_key, new_key, write_initial}
use pg_resp.Proptests.Writes.{
  put-IsValid, put-Steady, write_initial-Started, initial-visible, Started-IsIssued,
}
use pg_resp.Proptests.Scans.{
  Churn, apply_churn, rest_of, churned_pages, all_seen, scan_never_misses_stable_keys_under_churn,
}

-- What `Store::scan` hands out of the keys that were to come.
abbrev pub Owes : Instant → List Bytes → Store × ℕ × List Bytes → Type 0
Owes now owed p = Delivers now owed (p.0.scan_registry, p.1, p.2)

-- The next page is owed as long as nobody else touched the cursors.
pub next-Owes :
    (r : RandomState) (now : Instant) (cursor count : ℕ) (owed : List Bytes) (s t : Store)
    → Pending now cursor owed s.scan_registry
    → Steady s t
    → Owes now owed (scan r now cursor count t)
unfolding scan
next-Owes r now cursor count owed s t p same =
    scan-next r.cursors now now cursor count (live_keys now t.map) owed t.scan_registry
      (ground arith) (subst (Pending now cursor owed) (sym same.cursors) p)

-- A new scan owes the live keys.
pub first-Owes :
    (r : RandomState) (now : Instant) (cursor count : ℕ) (s : Store)
    → Distinct s.scan_registry.cursors
    → (nat_beq cursor 0 ≡ true) ⊎ (lookup cursor s.scan_registry.cursors ≡ none)
    → Owes now (live_keys now s.map) (scan r now cursor count s)
unfolding scan
first-Owes r now cursor count s d unknown =
    scan-first r.cursors now cursor count (live_keys now s.map) s.scan_registry d unknown

-- SCAN writes nothing but the cursors.
pub map-scan :
    (r : RandomState) (now : Instant) (cursor count : ℕ) (s : Store)
    → (scan r now cursor count s).0.map ≡ s.map
unfolding scan
map-scan r now cursor count s = refl

pub scan-IsValid :
    (r : RandomState) (now : Instant) (cursor count : ℕ) (s : Store)
    → IsValid s
    → IsValid (scan r now cursor count s).0
unfolding scan
scan-IsValid r now cursor count s v = record { distinct = v.distinct; accounted = v.accounted }

pub apply_churn-Steady :
    (r : RandomState) (now : Instant) (n : ℕ) (churn : List Churn) (deleted : List Bytes)
    (s : Store)
    → IsValid s
    → IsValid (apply_churn r now n churn (s, deleted)).0
      × Steady s (apply_churn r now n churn (s, deleted)).0
unfolding apply_churn
apply_churn-Steady r now n [] deleted s v = (v, Steady-refl s)
apply_churn-Steady r now n (Churn.touch i ∷ _) deleted s v =
    let k = init_key (i % n) in
    (put-IsValid r now k (codes "v1") s v, put-Steady r now k (codes "v1") s v)
apply_churn-Steady r now n (Churn.delete i ∷ _) deleted s v =
    let k = init_key (i % n) in (del-IsValid now (k ∷ []) s v, del-Steady now (k ∷ []) s)
apply_churn-Steady r now n (Churn.insert i ∷ _) deleted s v =
    (put-IsValid r now (new_key i) (codes "v") s v, put-Steady r now (new_key i) (codes "v") s v)
apply_churn-Steady r now n (Churn.idle ∷ _) deleted s v = (v, Steady-refl s)

-- The loop ends and has seen what it had seen and what was owed.
record Ends (seen : List Bytes) (o : Option (List Bytes × List Bytes)) : Type 0 where
  deleted : List Bytes
  result : o ≡ some (deleted, seen)

last-Ends :
    (next : ℕ) (deleted seen page owed : List Bytes) (more : Option (List Bytes × List Bytes))
    → next ≡ 0
    → page ≡ owed
    → Ends (seen ++ owed) (if nat_beq next 0 then some (deleted, seen ++ page) else more)
last-Ends next deleted seen page owed more ended all =
    let test : nat_beq next 0 ≡ true = ground (arith, ended) in
    record { deleted = deleted; result = rw test (ap (λ l. some (deleted, seen ++ l)) all) }

-- The loop within its bound: however the store is changed between the pages, it ends, and it has
-- seen all that was owed.
churned_pages-Ends :
    (r : RandomState) (now : Instant) (n count left cursor : ℕ) (churn : List Churn)
    (deleted seen owed : List Bytes) (s : Store)
    → IsValid s
    → Owes now owed (scan r now cursor count s)
    → length owed < left
    → Ends (seen ++ owed) (churned_pages r now n count left cursor churn deleted seen s)
unfolding churned_pages
churned_pages-Ends r now n count zero cursor churn deleted seen owed s v o room =
    absurd (omega arith)
churned_pages-Ends r now n count (suc left) cursor churn deleted seen owed s v o room =
    let p = scan r now cursor count s in
    let (s', next, page) = p in
    let changed = apply_churn r now n churn (s', deleted) in
    let (w, same) =
      apply_churn-Steady r now n churn deleted s' (scan-IsValid r now cursor count s v) in
    let more =
      churned_pages r now n count left next (rest_of churn) changed.1 (seen ++ page) changed.0 in
    elim o [
      | inl (ended, all) ↦ last-Ends next deleted seen page owed more ended all
      | inr c ↦
          let enough : length c.others < left = omega (arith, c.fewer, room) in
          let rest =
            churned_pages-Ends r now n count left next (rest_of churn) changed.1 (seen ++ page)
              c.others changed.0 w (next-Owes r now next count c.others s' changed.0 c.pending same)
              enough in
          rw c.pending.nonzero (
            subst (λ l. Ends l more) (append_assoc seen page c.others ∙ ap (◌++◌ seen) c.paid) rest)
    ]

pub all_seen_lem :
    (n : ℕ) (deleted seen : List Bytes)
    → ((i : ℕ) → i < n → contains (init_key i) seen ≡ true)
    → all_seen n deleted seen ≡ true
unfolding all_seen
all_seen_lem zero deleted seen h = refl
all_seen_lem (suc n) deleted seen h =
    let earlier = all_seen_lem n deleted seen (λ i below. h i (omega arith)) in
    let last = h n (omega arith) in ground (arith, earlier, last)

-- The live keys of the store after the initial writes: no more than were written, and each of them.
pub initial-live :
    (r : RandomState) (now : Instant) (n i : ℕ)
    → i < n
    → contains (init_key i) (live_keys now (write_initial r now n new).map) ≡ true
initial-live r now n i below =
    contains-live_keys now (write_initial r now n new).map (init_key i)
      (write_initial-Started r now n).valid.distinct
    ∙ initial-visible r now n i below

pub length-live_keys :
    (now : Instant) (m : List (Bytes × Entry)) → length (live_keys now m) ≤ length m
unfolding live_keys
length-live_keys now [] = omega arith
length-live_keys now ((k, e) ∷ m) = ground (arith, length-live_keys now m)

-- The test holds: however many keys there are at the start, whatever the page size, and however
-- keys are overwritten, deleted and inserted between the pages, the scan ends within its bound and
-- has handed out every initial key that was not deleted.
pub scan_never_misses_stable_keys_under_churn_lem :
    (r : RandomState) (now : Instant) (n_initial count : ℕ) (churn : List Churn)
    → scan_never_misses_stable_keys_under_churn r now n_initial count churn ≡ true
unfolding scan_never_misses_stable_keys_under_churn
scan_never_misses_stable_keys_under_churn_lem r now n_initial count churn =
    let s = write_initial r now n_initial new in
    let h = write_initial-Started r now n_initial in
    let owed = live_keys now s.map in
    let first = first-Owes r now 0 count s (Started-IsIssued n_initial s h).distinct (inl refl) in
    let room : length owed < 8 * (n_initial + 40) + 64 =
      omega (arith, length-live_keys now s.map, h.few) in
    let ends =
      churned_pages-Ends r now n_initial count (8 * (n_initial + 40) + 64) 0 churn [] [] owed s
        h.valid first room in
    rw (ends.result, scan_never_misses_stable_keys_under_churn)
      (all_seen_lem n_initial ends.deleted owed (initial-live r now n_initial))
