-- ===== src/Proptests/Scans.antt =====
-- The SCAN tests of crates/resp-store/src/proptests.rs.
pub mod Churned
pub mod Restarted
pub mod Written
use pg_resp.Prelude.{
  ℕ, zero, suc, ◌+◌, ◌-◌, ◌*◌, ◌%◌, Bool, true, false, ◌&&◌, ◌||◌, Option, none, some, List, [],
  ◌∷◌, ◌++◌, Bytes, codes, ltb, nat_beq, if◌then◌else◌,
}
use pg_resp.Prelude.Int.{u64_mod}
use pg_resp.Store.Types.{Instant, Store, RandomState}
use pg_resp.Store.Account.{new}
use pg_resp.Store.Keyspace.{scan, del}
use pg_resp.Store.Keyspace.Laws.{contains}
use pg_resp.Proptests.{put, init_key, new_key, write_initial}

-- What happens between two pages.
pub data Churn : Type 0 where
  touch delete insert : ℕ → Churn
  idle : Churn

-- The `match churn.next()`: the store, and the keys deleted so far.
unfoldable pub apply_churn :
    RandomState → Instant → ℕ → List Churn → Store × List Bytes → Store × List Bytes
apply_churn r now n_initial [] (s, deleted) = (s, deleted)
apply_churn r now n_initial (Churn.touch i ∷ _) (s, deleted) =
    (put r now (init_key (i % n_initial)) (codes "v1") s, deleted)
apply_churn r now n_initial (Churn.delete i ∷ _) (s, deleted) =
    let k = init_key (i % n_initial) in ((del now (k ∷ []) s).0, k ∷ deleted)
apply_churn r now n_initial (Churn.insert i ∷ _) (s, deleted) =
    (put r now (new_key i) (codes "v") s, deleted)
apply_churn r now n_initial (Churn.idle ∷ _) (s, deleted) = (s, deleted)

abbrev pub rest_of {ℓ} : {A : Type ℓ} → List A → List A
rest_of [] = []
rest_of (x ∷ xs) = xs

-- The `loop`, with `left` pages to go: the deleted keys and the keys seen, `none` if the bound on
-- the pages is exceeded.
unfoldable pub churned_pages :
    RandomState
    → Instant
    → ℕ
    → ℕ
    → (left cursor : ℕ) → List Churn
    → (deleted seen : List Bytes) → Store
    → Option (List Bytes × List Bytes)
churned_pages r now n_initial count zero cursor churn deleted seen s = none
churned_pages r now n_initial count (suc left) cursor churn deleted seen s =
    let (s', next, page) = scan r now cursor count s in
    let (s'', deleted') = apply_churn r now n_initial churn (s', deleted) in
    let more =
      churned_pages r now n_initial count left next (rest_of churn) deleted' (seen ++ page) s'' in
    if nat_beq next 0 then some (deleted, seen ++ page) else more

-- The last `for` loop: each initial key was deleted or is among the keys seen.
unfoldable pub all_seen : ℕ → (deleted seen : List Bytes) → Bool
all_seen zero deleted seen = true
all_seen (suc i) deleted seen =
    all_seen i deleted seen && (contains (init_key i) deleted || contains (init_key i) seen)

unfoldable pub scan_never_misses_stable_keys_under_churn :
    RandomState → Instant → (n_initial count : ℕ) → List Churn → Bool
scan_never_misses_stable_keys_under_churn r now n_initial count churn =
    let s = write_initial r now n_initial new in
    let max_pages = 8 * (n_initial + 40) + 64 in
    elim (churned_pages r now n_initial count max_pages 0 churn [] [] s) [
      | none ↦ false
      | some (deleted, seen) ↦ all_seen n_initial deleted seen
    ]

-- The cursor for the next page and the count of pages since a restart: the cursor is thrown away
-- for one that was never issued when enough pages have passed.
unfoldable pub forced_restart : (budget next pages : ℕ) → List ℕ → ℕ × ℕ
forced_restart budget next pages [] = (next, pages)
forced_restart budget next pages (after ∷ _) =
    if ltb after pages then (u64_mod - 1 - budget, 0) else (next, pages)

-- The `loop`, with what is left of `budget`: the keys seen, `none` if the budget is used up.
unfoldable pub restarted_pages :
    RandomState
    → Instant
    → ℕ
    → (budget cursor pages : ℕ) → List ℕ
    → List Bytes
    → Store
    → Option (List Bytes)
restarted_pages r now count zero cursor pages restarts seen s = none
restarted_pages r now count (suc budget) cursor pages restarts seen s =
    let (s', next, page) = scan r now cursor count s in
    let (next', pages') = forced_restart budget next (suc pages) restarts in
    let more =
      restarted_pages r now count budget next' pages' (rest_of restarts) (seen ++ page) s' in
    if nat_beq budget 0 then none else if nat_beq next 0 then some (seen ++ page) else more

unfoldable pub scan_never_misses_stable_keys_across_forced_restarts :
    RandomState → Instant → (n_initial count : ℕ) → List ℕ → Bool
scan_never_misses_stable_keys_across_forced_restarts r now n_initial count restart_after =
    let s = write_initial r now n_initial new in
    elim (restarted_pages r now count (8 * n_initial + 256) 0 0 restart_after [] s) [
      | none ↦ false
      | some seen ↦ all_seen n_initial [] seen
    ]

abbrev pub contains_all : (page written : List Bytes) → Bool
contains_all [] written = true
contains_all (k ∷ page) written = contains k written && contains_all page written

-- The initial keys, as `ever_written` holds them.
unfoldable pub initial_keys : ℕ → List Bytes
initial_keys zero = []
initial_keys (suc i) = init_key i ∷ initial_keys i

-- The `if let Some(i) = inserts.next()`
unfoldable pub insert_new : RandomState → Instant → List ℕ → Store × List Bytes → Store × List Bytes
insert_new r now [] (s, written) = (s, written)
insert_new r now (i ∷ _) (s, written) = (put r now (new_key i) (codes "v") s, new_key i ∷ written)

-- The `loop`: whether no assertion fails.
unfoldable pub written_pages :
    RandomState → Instant → ℕ → (budget cursor : ℕ) → List ℕ → List Bytes → Store → Bool
written_pages r now count zero cursor inserts written s = false
written_pages r now count (suc budget) cursor inserts written s =
    let (s', next, page) = scan r now cursor count s in
    let (s'', written') = insert_new r now inserts (s', written) in
    let more = written_pages r now count budget next (rest_of inserts) written' s'' in
    contains_all page written
    && (if nat_beq budget 0 then false else if nat_beq next 0 then true else more)

unfoldable pub scan_never_returns_a_key_that_was_never_written :
    RandomState → Instant → (n_initial count : ℕ) → List ℕ → Bool
scan_never_returns_a_key_that_was_never_written r now n_initial count inserts =
    written_pages r now count (8 * (n_initial + 40) + 64) 0 inserts (initial_keys n_initial)
      (write_initial r now n_initial new)
