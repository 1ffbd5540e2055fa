-- ===== src/Scan/Session.antt =====
-- What a cursor still owes its client, and how SCAN pays it off.
use pg_resp.Prelude.{
  nat_eq, ℕ, ◌+◌, ◌-◌, ◌≤◌, ◌<◌, ◌≡◌, refl, sym, ap, ◌∙◌, ◌⊎◌, inl, inr, true, false, Option, none,
  some, arith, List, ◌++◌, Bytes, length, take, drop, ltb, leb, nat_beq, if◌then◌else◌, if_intro,
  length-drop, drop-all, append-nil,
}
use Prim.Native.Nat.{min, max}
use mathlib.Core.Path.{subst, subst₂}
use pg_resp.Prelude.Int.{u64_mod}
use pg_resp.HashMap.{HashOrder, lookup, insert, modify, Distinct}
use pg_resp.HashMap.Laws.{lookup-insert, lookup-modify}
use pg_resp.Store.Types.{Instant, ScanState, ScanRegistry, cursor_idle_expiry}
use pg_resp.Scan.{
  take_page, is_fresh, evict_stale_and_over_capacity, next_cursor, start, resume, scan,
}
use pg_resp.Scan.Pages.{rejoin}
use pg_resp.Scan.Registry.{IsIssued, evict-Distinct, start-IsIssued, resume-IsIssued}

-- A live cursor, last used at `used`, that has `keys` still to hand out.
pub record Pending (used : Instant) (cursor : ℕ) (keys : List Bytes) (reg : ScanRegistry)
    : Type 0 where
  pub nonzero : nat_beq cursor 0 ≡ false
  pub state : ScanState
  pub held : lookup cursor reg.cursors ≡ some state
  pub recent : state.last_used ≡ used
  pub inside : state.position < length state.snapshot
  pub rest : drop state.position state.snapshot ≡ keys

-- What SCAN answers where `keys` were to come: all of them with cursor 0, or a page of them with
-- a live cursor for the others, which are fewer.
pub record Continues (now : Instant) (keys : List Bytes) (p : ScanRegistry × ℕ × List Bytes)
    : Type 0 where
  pub others : List Bytes
  pub paid : p.2 ++ others ≡ keys
  pub fewer : length others < length keys
  pub pending : Pending now p.1 others p.0

abbrev pub Delivers : Instant → List Bytes → ScanRegistry × ℕ × List Bytes → Type 0
Delivers now keys p = ((p.1 ≡ 0) × (p.2 ≡ keys)) ⊎ Continues now keys p

-- A page, and whether it was the last.
page_end :
    (st : ScanState) (count : ℕ)
    → st.position ≤ length st.snapshot
    → length st.snapshot ≤ (take_page st count).0.position
    → (take_page st count).1 ≡ drop st.position st.snapshot
unfolding take_page
page_end st count le last =
    let end : ℕ = min (st.position + max count 1) (length st.snapshot) in
    let page = take (end - st.position) (drop st.position st.snapshot) in
    sym (append-nil page)
    ∙ ap (◌++◌ page) (sym (drop-all end st.snapshot last))
    ∙ rejoin st.position end st.snapshot (omega arith)

page_more :
    (st : ScanState) (count : ℕ)
    → st.position ≤ length st.snapshot
    → (take_page st count).1 ++ drop (take_page st count).0.position st.snapshot
      ≡ drop st.position st.snapshot
unfolding take_page
page_more st count le =
    rejoin st.position (min (st.position + max count 1) (length st.snapshot)) st.snapshot
      (omega arith)

page_onward :
    (st : ScanState) (count : ℕ)
    → (take_page st count).0.position < length st.snapshot
    → st.position < (take_page st count).0.position
unfolding take_page
page_onward st count more = omega arith

snapshot-take_page : (st : ScanState) (count : ℕ) → (take_page st count).0.snapshot ≡ st.snapshot
unfolding take_page
snapshot-take_page st count = refl

last_used-take_page : (st : ScanState) (count : ℕ) → (take_page st count).0.last_used ≡ st.last_used
unfolding take_page
last_used-take_page st count = refl

-- A page that was not the last, with the cursor written back.
page-Continues :
    (now : Instant) (cursor count : ℕ) (st : ScanState) (reg : ScanRegistry)
    → nat_beq cursor 0 ≡ false
    → st.last_used ≡ now
    → st.position ≤ length st.snapshot
    → (take_page st count).0.position < length st.snapshot
    → lookup cursor reg.cursors ≡ some (take_page st count).0
    → Continues now (drop st.position st.snapshot) (reg, cursor, (take_page st count).1)
page-Continues now cursor count st reg nonzero recent le more held =
    let end = (take_page st count).0.position in
    let onward = page_onward st count more in
    record {
      others = drop end st.snapshot;
      paid = page_more st count le;
      fewer =
          omega
            (arith, length-drop end st.snapshot, length-drop st.position st.snapshot, onward, more);
      pending = record {
        nonzero = nonzero;
        state = (take_page st count).0;
        held = held;
        recent = last_used-take_page st count ∙ recent;
        inside = rw (snapshot-take_page st count) more;
        rest = ap (drop end) (snapshot-take_page st count);
      };
    }

start-Delivers :
    (h : HashOrder (ℕ × ScanState)) (now : Instant) (keys : List Bytes) (count : ℕ)
    (reg : ScanRegistry)
    → Distinct reg.cursors
    → Delivers now keys (start h now keys count reg)
unfolding start
start-Delivers h now keys count reg d =
    let kept = evict_stale_and_over_capacity now reg in
    let id = next_cursor kept.next_id in
    let fresh : ScanState = record { snapshot = keys; position = 0; last_used = now } in
    let paged = take_page fresh count in
    let put : ScanRegistry = record { cursors = insert h id paged.0 kept.cursors; next_id = id } in
    if_intro {A = ScanRegistry × ℕ × List Bytes} (Delivers now keys)
      (ltb paged.0.position (length paged.0.snapshot))
      (λ more.
        let further : paged.0.position < length keys =
          ground (arith, snapshot-take_page fresh count) in
        let held : lookup id put.cursors ≡ some paged.0 =
          lookup-insert h id id paged.0 kept.cursors (evict-Distinct now reg d) ∙ ground arith in
        let some_id : nat_beq id 0 ≡ false = ground arith in
        inr (page-Continues now id count fresh put some_id refl (omega arith) further held))
      (λ last.
        let done : length keys ≤ paged.0.position =
          ground (arith, snapshot-take_page fresh count) in
        inl (refl, page_end fresh count (omega arith) done))

resume-Delivers :
    (now : Instant) (cursor count : ℕ) (st : ScanState) (reg : ScanRegistry)
    → nat_beq cursor 0 ≡ false
    → lookup cursor reg.cursors ≡ some st
    → st.position < length st.snapshot
    → Delivers now (drop st.position st.snapshot) (resume now cursor count st reg)
unfolding resume
resume-Delivers now cursor count st reg nonzero held inside =
    let used : ScanState = record st { last_used = now } in
    let paged = take_page used count in
    let written = modify cursor (λ _. paged.0) reg.cursors in
    if_intro {A = ScanRegistry × ℕ × List Bytes} (Delivers now (drop st.position st.snapshot))
      (leb (length paged.0.snapshot) paged.0.position)
      (λ last.
        let done : length st.snapshot ≤ paged.0.position =
          ground (arith, snapshot-take_page used count) in
        inl (refl, page_end used count (omega arith) done))
      (λ more.
        let further : paged.0.position < length st.snapshot =
          ground (arith, snapshot-take_page used count) in
        let put : lookup cursor written ≡ some paged.0 =
          lookup-modify cursor cursor (λ _. paged.0) reg.cursors ∙ ground (arith, held) in
        inr (
          page-Continues now cursor count used (record reg { cursors = written }) nonzero refl
            (omega arith) further put))

abbrev resumed :
    Instant
    → ℕ
    → ℕ
    → ScanRegistry
    → ScanRegistry × ℕ × List Bytes
    → Option ScanState
    → ScanRegistry × ℕ × List Bytes
resumed now cursor count reg anew o = elim o [
  | none ↦ anew
  | some state ↦ if is_fresh now state then resume now cursor count state reg else anew
]

-- Cursor 0, and a cursor that is not in the registry, start a new scan.
pub scan-start :
    (h : HashOrder (ℕ × ScanState)) (now : Instant) (cursor count : ℕ) (keys : List Bytes)
    (reg : ScanRegistry)
    → (nat_beq cursor 0 ≡ true) ⊎ (lookup cursor reg.cursors ≡ none)
    → scan h now cursor count keys reg ≡ start h now keys count reg
unfolding scan
scan-start h now cursor count keys reg (inl nought) = rw nought refl
scan-start h now cursor count keys reg (inr absent) =
    if_intro (λ p. p ≡ start h now keys count reg) (nat_beq cursor 0) (λ _. refl)
      (λ _. ap (resumed now cursor count reg (start h now keys count reg)) absent)

-- A cursor that was used less than a minute ago goes on.
pub scan-resume :
    (h : HashOrder (ℕ × ScanState)) (now : Instant) (cursor count : ℕ) (keys : List Bytes)
    (reg : ScanRegistry) (st : ScanState)
    → nat_beq cursor 0 ≡ false
    → lookup cursor reg.cursors ≡ some st
    → is_fresh now st ≡ true
    → scan h now cursor count keys reg ≡ resume now cursor count st reg
unfolding scan
scan-resume h now cursor count keys reg st nonzero held recent = rw nonzero (
    ap (resumed now cursor count reg (start h now keys count reg)) held
    ∙ ap (λ b. if b then resume now cursor count st reg else start h now keys count reg) recent)

-- The first page of a new scan, and what it leaves for the next ones: together the keys there are.
pub scan-first :
    (h : HashOrder (ℕ × ScanState)) (now : Instant) (cursor count : ℕ) (keys : List Bytes)
    (reg : ScanRegistry)
    → Distinct reg.cursors
    → (nat_beq cursor 0 ≡ true) ⊎ (lookup cursor reg.cursors ≡ none)
    → Delivers now keys (scan h now cursor count keys reg)
scan-first h now cursor count keys reg d new =
    subst (Delivers now keys) (sym (scan-start h now cursor count keys reg new))
      (start-Delivers h now keys count reg d)

-- A page of a live cursor, and what it leaves: together what the cursor still owed, whatever keys
-- there are by now.
pub scan-next :
    (h : HashOrder (ℕ × ScanState)) (used now : Instant) (cursor count : ℕ) (keys owed : List Bytes)
    (reg : ScanRegistry)
    → ltb (now - used) cursor_idle_expiry ≡ true
    → Pending used cursor owed reg
    → Delivers now owed (scan h now cursor count keys reg)
scan-next h used now cursor count keys owed reg soon p =
    let recent : is_fresh now p.state ≡ true =
      ap (λ t. ltb (now - t) cursor_idle_expiry) p.recent ∙ soon in
    let same = scan-resume h now cursor count keys reg p.state p.nonzero p.held recent in
    subst₂ (Delivers now) p.rest (sym same)
      (resume-Delivers now cursor count p.state reg p.nonzero p.held p.inside)

abbrev KeptFrom : ScanRegistry → ScanRegistry × ℕ × List Bytes → Type 0
KeptFrom reg p = IsIssued p.0 × (p.0.next_id ≤ reg.next_id + 1)

resumed-KeptFrom :
    (now : Instant) (cursor count : ℕ) (reg : ScanRegistry) (anew : ScanRegistry × ℕ × List Bytes)
    (o : Option ScanState)
    → IsIssued reg
    → KeptFrom reg anew
    → KeptFrom reg (resumed now cursor count reg anew o)
resumed-KeptFrom now cursor count reg anew none i begun = begun
resumed-KeptFrom now cursor count reg anew (some st) i begun =
    if_intro {A = ScanRegistry × ℕ × List Bytes} (KeptFrom reg) (is_fresh now st)
      (λ _. let kept = resume-IsIssued now cursor count st reg i in (kept.0, omega (arith, kept.1)))
      (λ _. begun)

-- SCAN keeps the ids of the registry issued: a new scan takes the next one.
pub scan-IsIssued :
    (h : HashOrder (ℕ × ScanState)) (now : Instant) (cursor count : ℕ) (keys : List Bytes)
    (reg : ScanRegistry)
    → IsIssued reg
    → reg.next_id + 1 < u64_mod
    → IsIssued (scan h now cursor count keys reg).0
      × ((scan h now cursor count keys reg).0.next_id ≤ reg.next_id + 1)
unfolding scan
scan-IsIssued h now cursor count keys reg i room =
    let kept = start-IsIssued h now keys count reg i room in
    let begun : KeptFrom reg (start h now keys count reg) = (kept.0, omega (arith, kept.1)) in
    if_intro {A = ScanRegistry × ℕ × List Bytes} (KeptFrom reg) (nat_beq cursor 0) (λ _. begun)
      (λ _.
        resumed-KeptFrom now cursor count reg (start h now keys count reg)
          (lookup cursor reg.cursors) i begun)
