-- ===== src/Proptests/Scans/Restarted.antt =====
-- SCAN across forced restarts: a cursor that was never issued starts a new scan.
use pg_resp.Prelude.{
  bytes_eq, nat_eq, ℕ, zero, suc, ◌+◌, ◌-◌, ◌*◌, ◌≤◌, ◌<◌, ◌≡◌, refl, sym, ap, ◌∙◌, true, false,
  ◌||◌, Option, none, some, List, [], ◌∷◌, ◌++◌, arith, Bytes, length, ltb, nat_beq, if_intro,
  if◌then◌else◌, inl, inr,
}
use mathlib.Core.Path.{subst}
use pg_resp.Prelude.Int.{u64_mod}
use pg_resp.Scan.Registry.{IsIssued}
use pg_resp.Scan.Session.{Pending, scan-IsIssued}
use pg_resp.Store.Types.{Instant, Store, RandomState}
use pg_resp.Store.Account.{new}
use pg_resp.Store.Keyspace.{live_keys, scan}
use pg_resp.Store.Keyspace.Laws.{contains}
use pg_resp.Store.Steady.{Steady-refl}
use pg_resp.Proptests.{init_key, write_initial}
use pg_resp.Proptests.Writes.{write_initial-Started, Started-IsIssued}
use pg_resp.Proptests.Scans.{
  forced_restart, restarted_pages, rest_of, scan_never_misses_stable_keys_across_forced_restarts,
}
use pg_resp.Proptests.Scans.Churned.{
  Owes, next-Owes, first-Owes, map-scan, all_seen_lem, initial-live, length-live_keys,
}

contains-append :
    (k : Bytes) (xs ys : List Bytes) → contains k (xs ++ ys) ≡ (contains k xs || contains k ys)
contains-append k [] ys = refl
contains-append k (x ∷ xs) ys = ground (arith, contains-append k xs ys)

-- The keys `live` are among those seen and those owed.
abbrev Covers : (live seen owed : List Bytes) → Type 0
Covers live seen owed =
    (k : Bytes) → contains k live ≡ true → (contains k seen || contains k owed) ≡ true

-- A page moves keys from those owed to those seen.
Covers-page :
    (live seen page others owed : List Bytes)
    → page ++ others ≡ owed
    → Covers live seen owed
    → Covers live (seen ++ page) others
Covers-page live seen page others owed paid h k there =
    let before : (contains k seen || contains k (page ++ others)) ≡ true =
      ap (λ l. contains k seen || contains k l) paid ∙ h k there in
    ground (arith, before, contains-append k page others, contains-append k seen page)

-- Where a new scan owes all the live keys.
Covers-all : (live seen : List Bytes) → Covers live seen live
Covers-all live seen k there = ground (arith, there)

-- The loop ends and has seen all the live keys.
record Ends (live : List Bytes) (o : Option (List Bytes)) : Type 0 where
  seen : List Bytes
  result : o ≡ some seen
  all : (k : Bytes) → contains k live ≡ true → contains k seen ≡ true

-- The registry between two pages: the id that a restart makes up is out of its reach.
record Ready (room budget : ℕ) (s : Store) : Type 0 where
  issued : IsIssued s.scan_registry
  within : s.scan_registry.next_id + budget ≤ room

scan-Ready :
    (r : RandomState) (now : Instant) (cursor count room budget : ℕ) (s : Store)
    → room + 1 < u64_mod
    → Ready room (suc budget) s
    → Ready room budget (scan r now cursor count s).0
unfolding scan
scan-Ready r now cursor count room budget s small h =
    let kept =
      scan-IsIssued r.cursors now cursor count (live_keys now s.map) s.scan_registry h.issued
        (omega (arith, h.within, small)) in
    record { issued = kept.0; within = omega (arith, kept.1, h.within) }

-- The budget is enough: for the keys that are owed, and, while restarts may come, for each of them
-- and for all the live keys after the last.
abbrev Room : (budget : ℕ) (live owed : List Bytes) → List ℕ → Type 0
Room budget live owed [] = length owed + 2 ≤ budget
Room budget live owed (after ∷ restarts) =
    (length owed ≤ length live) × (length live + length restarts + 3 ≤ budget)

Room-rest :
    (budget : ℕ) (live owed owed' : List Bytes) (after : ℕ) (restarts : List ℕ)
    → length owed' ≤ length live
    → Room (suc budget) live owed (after ∷ restarts)
    → Room budget live owed' restarts
Room-rest budget live owed owed' after [] less h = omega (arith, less, h.1)
Room-rest budget live owed owed' after (a ∷ restarts) less h = (less, omega (arith, h.1))

Room-two :
    (budget : ℕ) (live owed : List Bytes) (restarts : List ℕ)
    → Room budget live owed restarts
    → 2 ≤ budget
Room-two budget live owed [] h = omega (arith, h)
Room-two budget live owed (a ∷ restarts) h = omega (arith, h.1)

-- What the next page will find.
record Next (r : RandomState) (now : Instant) (count budget : ℕ) (live seen : List Bytes)
    (restarts : List ℕ) (s : Store) (cursor : ℕ) : Type 0 where
  owed : List Bytes
  owes : Owes now owed (scan r now cursor count s)
  covers : Covers live seen owed
  room : Room budget live owed restarts

module _ (r : RandomState) (now : Instant) (count : ℕ) (live : List Bytes) where
  -- A cursor that was made up starts over, and any other goes on.
  forced_restart-Next :
      (limit budget next pages : ℕ) (restarts : List ℕ) (seen owed others : List Bytes) (s : Store)
      → live ≡ live_keys now s.map
      → limit + 1 < u64_mod
      → Ready limit budget s
      → Pending now next others s.scan_registry
      → length others < length owed
      → Covers live seen others
      → Room (suc budget) live owed restarts
      → Next r now count budget live seen
          (rest_of restarts)
          s
          (forced_restart budget next pages restarts).0
  unfolding forced_restart
  forced_restart-Next limit budget next pages [] seen owed others s same small ready p fewer c
        room =
      record {
        owed = others;
        owes = next-Owes r now next count others s s p (Steady-refl s);
        covers = c;
        room = omega (arith, fewer, room);
      }
  forced_restart-Next limit budget next pages (after ∷ restarts) seen owed others s same small ready
        p fewer c room =
      let less : length others ≤ length live = omega (arith, fewer, room.0) in
      let made_up : ℕ = u64_mod - 1 - budget in
      let past : s.scan_registry.next_id < made_up = omega (arith, ready.within, small) in
      if_intro {A = ℕ × ℕ} (λ x. Next r now count budget live seen restarts s x.0) (ltb after pages)
        (λ _. record {
          owed = live;
          owes =
              subst (λ l. Owes now l (scan r now made_up count s)) (sym same)
                (first-Owes r now made_up count s ready.issued.distinct
                  (inr (ready.issued.unissued made_up past)));
          covers = Covers-all live seen;
          room = Room-rest budget live owed live after restarts (omega arith) room;
        })
        (λ _. record {
          owed = others;
          owes = next-Owes r now next count others s s p (Steady-refl s);
          covers = c;
          room = Room-rest budget live owed others after restarts less room;
        })

  last-Ends :
      (budget next : ℕ) (seen page owed : List Bytes) (more : Option (List Bytes))
      → 0 < budget
      → next ≡ 0
      → page ≡ owed
      → Covers live seen owed
      → Ends live
          (if nat_beq budget 0 then none else if nat_beq next 0 then some (seen ++ page) else more)
  last-Ends budget next seen page owed more left ended all c =
      let test : nat_beq next 0 ≡ true = ground (arith, ended) in
      let enough : nat_beq budget 0 ≡ false = ground arith in
      record {
        seen = seen ++ page;
        result = rw (enough, test) refl;
        all = λ k there.
            contains-append k seen page ∙ ap (λ l. contains k seen || contains k l) all ∙ c k there;
      }

  -- The loop within its budget.
  restarted_pages-Ends :
      (limit budget cursor pages : ℕ) (restarts : List ℕ) (seen owed : List Bytes) (s : Store)
      → live ≡ live_keys now s.map
      → limit + 1 < u64_mod
      → Ready limit budget s
      → Owes now owed (scan r now cursor count s)
      → Covers live seen owed
      → Room budget live owed restarts
      → Ends live (restarted_pages r now count budget cursor pages restarts seen s)
  unfolding restarted_pages
  restarted_pages-Ends limit zero cursor pages restarts seen owed s same small ready o c room =
      absurd (omega (arith, Room-two zero live owed restarts room))
  restarted_pages-Ends limit (suc budget) cursor pages restarts seen owed s same small ready o c
        room =
      let (s', next, page) = scan r now cursor count s in
      let after = forced_restart budget next (suc pages) restarts in
      let more =
        restarted_pages r now count budget after.0 after.1 (rest_of restarts) (seen ++ page) s' in
      let left : 0 < budget = omega (arith, Room-two (suc budget) live owed restarts room) in
      let enough : nat_beq budget 0 ≡ false = ground arith in
      elim o [
        | inl (ended, all) ↦ last-Ends budget next seen page owed more left ended all c
        | inr d ↦
            let same' : live ≡ live_keys now s'.map =
              same ∙ ap (live_keys now) (sym (map-scan r now cursor count s)) in
            let ready' = scan-Ready r now cursor count limit budget s small ready in
            let c' = Covers-page live seen page d.others owed d.paid c in
            let n =
              forced_restart-Next limit budget next (suc pages) restarts (seen ++ page) owed
                d.others s' same' small ready' d.pending d.fewer c' room in
            rw (enough, d.pending.nonzero)
              (restarted_pages-Ends limit budget after.0 after.1 (rest_of restarts) (seen ++ page)
                n.owed s' same' small ready' n.owes n.covers n.room)
      ]

Room-start :
    (live : List Bytes) (n : ℕ) (restarts : List ℕ)
    → length live ≤ n
    → length restarts < 20
    → Room (8 * n + 256) live live restarts
Room-start live n [] few short = omega (arith, few)
Room-start live n (a ∷ restarts) few short = (omega arith, omega (arith, few, short))

-- The test holds for the numbers of keys and the lists of restarts that it generates: wherever the
-- cursor is thrown away for one that was never issued, the scan ends within its budget and has
-- handed out every key.
pub scan_never_misses_stable_keys_across_forced_restarts_lem :
    (r : RandomState) (now : Instant) (n_initial count : ℕ) (restart_after : List ℕ)
    → n_initial < 30
    → length restart_after < 20
    → scan_never_misses_stable_keys_across_forced_restarts r now n_initial count restart_after
      ≡ true
unfolding scan_never_misses_stable_keys_across_forced_restarts
scan_never_misses_stable_keys_across_forced_restarts_lem r now n_initial count restart_after few
      short =
    let s = write_initial r now n_initial new in
    let h = write_initial-Started r now n_initial in
    let live = live_keys now s.map in
    let budget : ℕ = 8 * n_initial + 256 in
    let issued = Started-IsIssued n_initial s h in
    let small : budget + 1 < u64_mod = omega (arith, few) in
    let within : s.scan_registry.next_id + budget ≤ budget =
      omega (arith, ap (λ g. g.next_id) h.steady.cursors) in
    let bound : length live ≤ n_initial = omega (arith, length-live_keys now s.map, h.few) in
    let ends =
      restarted_pages-Ends r now count live budget budget 0 0 restart_after [] live s refl small
        (record { issued = issued; within = within })
        (first-Owes r now 0 count s issued.distinct (inl refl)) (Covers-all live [])
        (Room-start live n_initial restart_after bound short) in
    rw (ends.result, scan_never_misses_stable_keys_across_forced_restarts)
      (all_seen_lem n_initial [] ends.seen
        (λ i below. ends.all (init_key i) (initial-live r now n_initial i below)))
