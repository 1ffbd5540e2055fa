-- ===== src/Proptests/Scans/Written.antt =====
-- SCAN invents no key: what it hands out was written.
use pg_resp.Prelude.{
  bytes_eq, ℕ, zero, suc, ◌+◌, ◌*◌, ◌<◌, ◌≡◌, refl, sym, ap, ◌∙◌, true, false, List, [], ◌∷◌, ◌++◌,
  arith, Bytes, codes, length, nat_beq, ◌==◌, eq_iff, is_some, Bool-cases, inl, inr,
}
use mathlib.Core.Path.{subst}
use pg_resp.HashMap.{lookup}
use pg_resp.Store.Types.{Instant, Store, RandomState}
use pg_resp.Store.Account.{new}
use pg_resp.Store.Account.Valid.{IsValid}
use pg_resp.Store.Account.View.{visible}
use pg_resp.Store.Keyspace.{live_keys, scan}
use pg_resp.Store.Keyspace.Laws.{contains, contains-live_keys}
use pg_resp.Store.Steady.{Steady, Steady-refl}
use pg_resp.Proptests.{init_key, new_key, write_initial}
use pg_resp.Proptests.Writes.{
  put-IsValid, put-Steady, visible-put_ne, write_initial-Started, Started-IsIssued,
}
use pg_resp.Proptests.Scans.{
  contains_all, initial_keys, insert_new, rest_of, written_pages,
  scan_never_returns_a_key_that_was_never_written,
}
use pg_resp.Proptests.Scans.Churned.{Owes, next-Owes, first-Owes, scan-IsValid, length-live_keys}

-- Every key of `keys` was written.
abbrev Within : (keys written : List Bytes) → Type 0
Within keys written = (k : Bytes) → contains k keys ≡ true → contains k written ≡ true

contains_all-Within :
    (keys written : List Bytes) → Within keys written → contains_all keys written ≡ true
contains_all-Within [] written h = refl
contains_all-Within (k ∷ keys) written h =
    let first : contains k written ≡ true = h k (ground (arith, eq_iff k k)) in
    let rest = contains_all-Within keys written (λ j there. h j (ground (arith, there))) in
    ground (arith, first, rest)

contains-left :
    (k : Bytes) (xs ys : List Bytes) → contains k xs ≡ true → contains k (xs ++ ys) ≡ true
contains-left k (x ∷ xs) ys h = ground (arith, contains-left k xs ys)
contains-left k [] ys h = cc

contains-right :
    (k : Bytes) (xs ys : List Bytes) → contains k ys ≡ true → contains k (xs ++ ys) ≡ true
contains-right k [] ys h = h
contains-right k (x ∷ xs) ys h = ground (arith, contains-right k xs ys h)

insert_new-Within :
    (r : RandomState) (now : Instant) (inserts : List ℕ) (written : List Bytes) (s : Store)
    (keys : List Bytes)
    → Within keys written
    → Within keys (insert_new r now inserts (s, written)).1
unfolding insert_new
insert_new-Within r now [] written s keys h = h
insert_new-Within r now (i ∷ _) written s keys h = λ k there. ground (arith, h k there)

insert_new-Steady :
    (r : RandomState) (now : Instant) (inserts : List ℕ) (written : List Bytes) (s : Store)
    → IsValid s
    → IsValid (insert_new r now inserts (s, written)).0
      × Steady s (insert_new r now inserts (s, written)).0
unfolding insert_new
insert_new-Steady r now [] written s v = (v, Steady-refl s)
insert_new-Steady r now (i ∷ _) written s v =
    (put-IsValid r now (new_key i) (codes "v") s v, put-Steady r now (new_key i) (codes "v") s v)

-- The loop within its budget.
written_pages_lem :
    (r : RandomState) (now : Instant) (count budget cursor : ℕ) (inserts : List ℕ)
    (written owed : List Bytes) (s : Store)
    → IsValid s
    → Owes now owed (scan r now cursor count s)
    → Within owed written
    → length owed + 1 < budget
    → written_pages r now count budget cursor inserts written s ≡ true
unfolding written_pages
written_pages_lem r now count zero cursor inserts written owed s v o h room = absurd (omega arith)
written_pages_lem r now count (suc budget) cursor inserts written owed s v o h room =
    let (s', next, page) = scan r now cursor count s in
    let changed = insert_new r now inserts (s', written) in
    let (w, same) =
      insert_new-Steady r now inserts written s' (scan-IsValid r now cursor count s v) in
    let enough : nat_beq budget 0 ≡ false = ground arith in
    elim o [
      | inl (ended, all) ↦
          let last : nat_beq next 0 ≡ true = ground (arith, ended) in
          rw
            (
              enough,
              last,
              contains_all-Within page written (subst (λ l. Within l written) (sym all) h),
            )
            refl
      | inr c ↦
          let begun : Within page written =
            λ k there. h k (ap (contains k) (sym c.paid) ∙ contains-left k page c.others there) in
          let others : Within c.others written =
            λ k there. h k (ap (contains k) (sym c.paid) ∙ contains-right k page c.others there) in
          let left : length c.others + 1 < budget = omega (arith, c.fewer, room) in
          rw (enough, c.pending.nonzero, contains_all-Within page written begun)
            (written_pages_lem r now count budget next (rest_of inserts) changed.1 c.others
              changed.0 w (next-Owes r now next count c.others s' changed.0 c.pending same)
              (insert_new-Within r now inserts written s' c.others others) left)
    ]

-- What shows after the initial writes was written.
initial-written :
    (r : RandomState) (now : Instant) (n : ℕ) (k : Bytes)
    → is_some (visible now k (write_initial r now n new)) ≡ true
    → contains k (initial_keys n) ≡ true
unfolding write_initial initial_keys lookup
initial-written r now zero k shows = cc
initial-written r now (suc n) k shows =
    let s = write_initial r now n new in
    let h = write_initial-Started r now n in
    elim (Bool-cases (init_key n == k)) [
      | inl same ↦ ground (arith, same)
      | inr other ↦
          let before =
            ap is_some (
              sym
                (visible-put_ne r now (init_key n) k (codes "v0") s h.valid h.steady.budget other))
            ∙ shows in
          ground (arith, initial-written r now n k before)
    ]

-- The test holds: a key that SCAN hands out was written before, whatever the page size and
-- whatever is inserted between the pages, and the scan ends within its budget.
pub scan_never_returns_a_key_that_was_never_written_lem :
    (r : RandomState) (now : Instant) (n_initial count : ℕ) (inserts : List ℕ)
    → scan_never_returns_a_key_that_was_never_written r now n_initial count inserts ≡ true
unfolding scan_never_returns_a_key_that_was_never_written
scan_never_returns_a_key_that_was_never_written_lem r now n_initial count inserts =
    let s = write_initial r now n_initial new in
    let h = write_initial-Started r now n_initial in
    let owed = live_keys now s.map in
    written_pages_lem r now count (8 * (n_initial + 40) + 64) 0 inserts (initial_keys n_initial)
      owed s h.valid
      (first-Owes r now 0 count s (Started-IsIssued n_initial s h).distinct (inl refl))
      (λ k there.
        initial-written r now n_initial k
          (sym (contains-live_keys now s.map k h.valid.distinct) ∙ there))
      (omega (arith, length-live_keys now s.map, h.few))
