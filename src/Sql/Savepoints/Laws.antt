-- ===== src/Sql/Savepoints/Laws.antt =====
-- A transaction with savepoints: what its queue holds against what its savepoints say.
use mathlib.Core.Path.{subst}
use pg_resp.Prelude.{
  ℕ, suc, ◌≤◌, ◌<◌, ◌≡◌, refl, sym, ap, ◌∙◌, arith, List, [], ◌∷◌, ◌++◌, map, length, append_assoc,
  append-nil,
}
use pg_resp.Sql.Queue.{QueuedOp, QueuedItem, enqueue, abort_sub, commit_sub, reparent}
use pg_resp.Sql.Savepoints.{
  Event, write, savepoint, release, rollback, Transaction, begun, step, run, level_step, levels,
  all_writes,
}

abbrev tag : ℕ → QueuedOp → QueuedItem
tag i op = record { subxid = i; op = op }

abbrev tagged : List ℕ → List (List QueuedOp) → List QueuedItem
tagged (i ∷ is) (f ∷ fs) = tagged is fs ++ map (tag i) f
tagged _ _ = []

-- Ids fall from the innermost out, below a bound.
abbrev Below : ℕ → List ℕ → Type 0
Below n [] = Unit
Below n (i ∷ is) = (i < n) × Below i is

record Tracks (t : Transaction) (fs : List (List QueuedOp)) : Type 0 where
  tags : t.queue ≡ tagged t.subxids fs
  same : length t.subxids ≡ length fs
  some_open : 0 < length fs
  falls : Below t.next t.subxids

map-append : {A B : Type 0} (f : A → B) (xs ys : List A) → map f (xs ++ ys) ≡ map f xs ++ map f ys
map-append f [] ys = refl
map-append f (x ∷ xs) ys = ap (◌∷◌ (f x)) (map-append f xs ys)

abort-append :
    (n : ℕ) (xs ys : List QueuedItem) → abort_sub n (xs ++ ys) ≡ abort_sub n xs ++ abort_sub n ys
unfolding abort_sub
abort-append n [] ys = refl
abort-append n (x ∷ xs) ys = ground (arith, abort-append n xs ys)

abort-low : (n i : ℕ) (f : List QueuedOp) → i < n → abort_sub n (map (tag i) f) ≡ map (tag i) f
unfolding abort_sub
abort-low n i [] h = refl
abort-low n i (x ∷ f) h = let t = abort-low n i f h in ground arith

abort-own : (i : ℕ) (f : List QueuedOp) → abort_sub i (map (tag i) f) ≡ []
unfolding abort_sub
abort-own i [] = refl
abort-own i (x ∷ f) = ground (arith, abort-own i f)

Below-up : (i n : ℕ) (is : List ℕ) → i ≤ n → Below i is → Below n is
Below-up i n [] h b = b
Below-up i n (j ∷ is) h b = (omega (arith, b.0), b.1)

abort-tagged :
    (n : ℕ) (is : List ℕ) (fs : List (List QueuedOp))
    → Below n is
    → abort_sub n (tagged is fs) ≡ tagged is fs
unfolding abort_sub
abort-tagged n [] fs b = refl
abort-tagged n (i ∷ is) [] b = refl
abort-tagged n (i ∷ is) (f ∷ fs) b =
    let low : i ≤ n = omega (arith, b.0) in
    let rest = abort-tagged n is fs (Below-up i n is low b.1) in
    let own = abort-low n i f b.0 in
    abort-append n (tagged is fs) (map (tag i) f) ∙ rw (rest, own) refl

commit-own : (i p : ℕ) (f : List QueuedOp) → commit_sub i p (map (tag i) f) ≡ map (tag p) f
unfolding commit_sub
commit-own i p [] = refl
commit-own i p (x ∷ f) = ground (arith, commit-own i p f)

commit-other :
    (n p i : ℕ) (f : List QueuedOp) → i < n → commit_sub n p (map (tag i) f) ≡ map (tag i) f
unfolding commit_sub
commit-other n p i [] h = refl
commit-other n p i (x ∷ f) h = let t = commit-other n p i f h in ground arith

commit-append :
    (n p : ℕ) (xs ys : List QueuedItem)
    → commit_sub n p (xs ++ ys) ≡ commit_sub n p xs ++ commit_sub n p ys
unfolding commit_sub
commit-append n p xs ys = map-append (reparent n p) xs ys

commit-tagged :
    (n p : ℕ) (is : List ℕ) (fs : List (List QueuedOp))
    → Below n is
    → commit_sub n p (tagged is fs) ≡ tagged is fs
unfolding commit_sub
commit-tagged n p [] fs b = refl
commit-tagged n p (i ∷ is) [] b = refl
commit-tagged n p (i ∷ is) (f ∷ fs) b =
    let low : i ≤ n = omega (arith, b.0) in
    let rest = commit-tagged n p is fs (Below-up i n is low b.1) in
    let own = commit-other n p i f b.0 in
    commit-append n p (tagged is fs) (map (tag i) f) ∙ rw (rest, own) refl

released :
    (i p : ℕ) (is : List ℕ) (f g : List QueuedOp) (fs : List (List QueuedOp))
    → Below i (p ∷ is)
    → commit_sub i p (tagged (i ∷ p ∷ is) (f ∷ g ∷ fs)) ≡ tagged (p ∷ is) ((g ++ f) ∷ fs)
released i p is f g fs b =
    commit-append i p (tagged (p ∷ is) (g ∷ fs)) (map (tag i) f)
    ∙ rw (commit-tagged i p (p ∷ is) (g ∷ fs) b, commit-own i p f, map-append (tag p) g f)
        (append_assoc (tagged is fs) (map (tag p) g) (map (tag p) f))

dropped :
    (i p : ℕ) (is : List ℕ) (f g : List QueuedOp) (fs : List (List QueuedOp))
    → Below i (p ∷ is)
    → abort_sub i (tagged (i ∷ p ∷ is) (f ∷ g ∷ fs)) ≡ tagged (p ∷ is) (g ∷ fs)
dropped i p is f g fs b =
    abort-append i (tagged (p ∷ is) (g ∷ fs)) (map (tag i) f)
    ∙ rw (abort-tagged i (p ∷ is) (g ∷ fs) b, abort-own i f) (append-nil (tagged (p ∷ is) (g ∷ fs)))

written :
    (i : ℕ) (is : List ℕ) (op : QueuedOp) (f : List QueuedOp) (fs : List (List QueuedOp))
    → enqueue i op (tagged (i ∷ is) (f ∷ fs)) ≡ tagged (i ∷ is) ((f ++ op ∷ []) ∷ fs)
unfolding enqueue
written i is op f fs =
    rw (map-append (tag i) f (op ∷ []))
      (append_assoc (tagged is fs) (map (tag i) f) (tag i op ∷ []))

step-Tracks :
    (e : Event) (is : List ℕ) (n : ℕ) (fs : List (List QueuedOp))
    → length is ≡ length fs
    → 0 < length fs
    → Below n is
    → Tracks (step e (record { subxids = is; next = n; queue = tagged is fs })) (level_step e fs)
unfolding step level_step
step-Tracks (write op) [] n fs l o b = absurd (omega arith)
step-Tracks (write op) (i ∷ is) n [] l o b = absurd (omega arith)
step-Tracks (write op) (i ∷ is) n (f ∷ fs) l o b = record {
  tags = written i is op f fs;
  same = l;
  some_open = omega arith;
  falls = b;
}
step-Tracks savepoint is n fs l o b = record {
  tags = sym (append-nil (tagged is fs));
  same = ap suc l;
  some_open = omega arith;
  falls = (omega arith, Below-up n n is (omega arith) b);
}
step-Tracks release [] n fs l o b = absurd (omega arith)
step-Tracks release (i ∷ []) n [] l o b = absurd (omega arith)
step-Tracks release (i ∷ []) n (f ∷ []) l o b = record {
  tags = refl;
  same = l;
  some_open = omega arith;
  falls = b;
}
step-Tracks release (i ∷ []) n (f ∷ g ∷ fs) l o b = absurd (omega arith)
step-Tracks release (i ∷ p ∷ is) n [] l o b = absurd (omega arith)
step-Tracks release (i ∷ p ∷ is) n (f ∷ []) l o b = absurd (omega arith)
step-Tracks release (i ∷ p ∷ is) n (f ∷ g ∷ fs) l o b = record {
  tags = released i p is f g fs b.1;
  same = omega arith;
  some_open = omega arith;
  falls = Below-up i n (p ∷ is) (omega (arith, b.0)) b.1;
}
step-Tracks rollback [] n fs l o b = absurd (omega arith)
step-Tracks rollback (i ∷ []) n [] l o b = absurd (omega arith)
step-Tracks rollback (i ∷ []) n (f ∷ []) l o b = record {
  tags = refl;
  same = l;
  some_open = omega arith;
  falls = b;
}
step-Tracks rollback (i ∷ []) n (f ∷ g ∷ fs) l o b = absurd (omega arith)
step-Tracks rollback (i ∷ p ∷ is) n [] l o b = absurd (omega arith)
step-Tracks rollback (i ∷ p ∷ is) n (f ∷ []) l o b = absurd (omega arith)
step-Tracks rollback (i ∷ p ∷ is) n (f ∷ g ∷ fs) l o b = record {
  tags = dropped i p is f g fs b.1;
  same = omega arith;
  some_open = omega arith;
  falls = Below-up i n (p ∷ is) (omega (arith, b.0)) b.1;
}

step-Tracks_of :
    (e : Event) (t : Transaction) (fs : List (List QueuedOp))
    → Tracks t fs
    → Tracks (step e t) (level_step e fs)
step-Tracks_of e t fs h =
    subst (λ q. Tracks (step e (record t { queue = q })) (level_step e fs)) (sym h.tags)
      (step-Tracks e t.subxids t.next fs h.same h.some_open h.falls)

run-Tracks :
    (es : List Event) (t : Transaction) (fs : List (List QueuedOp))
    → Tracks t fs
    → Tracks (run es t) (levels es fs)
unfolding run levels
run-Tracks [] t fs h = h
run-Tracks (e ∷ es) t fs h = run-Tracks es (step e t) (level_step e fs) (step-Tracks_of e t fs h)

ops-tag : (i : ℕ) (f : List QueuedOp) → map (λ x. x.op) (map (tag i) f) ≡ f
ops-tag i [] = refl
ops-tag i (x ∷ f) = ap (◌∷◌ x) (ops-tag i f)

ops-tagged :
    (is : List ℕ) (fs : List (List QueuedOp))
    → length is ≡ length fs
    → map (λ x. x.op) (tagged is fs) ≡ all_writes fs
ops-tagged [] [] l = refl
ops-tagged [] (f ∷ fs) l = absurd (omega arith)
ops-tagged (i ∷ is) [] l = refl
ops-tagged (i ∷ is) (f ∷ fs) l =
    map-append (λ x. x.op) (tagged is fs) (map (tag i) f)
    ∙ rw (ops-tagged is fs (omega arith), ops-tag i f) refl

begun-Tracks : Tracks begun ([] ∷ [])
begun-Tracks = record {
  tags = refl;
  same = refl;
  some_open = omega arith;
  falls = (omega arith, tt);
}

-- After any savepoints, releases and rollbacks a transaction's queue holds exactly the writes whose
-- savepoints were not rolled back, in the order in which they were made: a write is dropped if its
-- savepoint is rolled back, or one that its savepoint was released into.
pub queue-levels :
    (es : List Event) → map (λ x. x.op) (run es begun).queue ≡ all_writes (levels es ([] ∷ []))
queue-levels es =
    let h = run-Tracks es begun ([] ∷ []) begun-Tracks in
    ap (map (λ x. x.op)) h.tags ∙ ops-tagged (run es begun).subxids (levels es ([] ∷ [])) h.same
