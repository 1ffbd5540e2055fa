-- ===== src/Sql/Savepoints.antt =====
-- A transaction with savepoints, as its queue sees it and as its savepoints say (crates/pg_resp/src/sql.rs).
pub mod Laws
use mathlib.Core.Path.{subst}
use pg_resp.Prelude.{
  ℕ, suc, ◌≤◌, ◌<◌, ◌≡◌, refl, sym, ap, ◌∙◌, arith, List, [], ◌∷◌, ◌++◌, map, keep_if, length, ltb,
  nat_beq, append_assoc, append-nil, true, false, if◌then◌else◌,
}
use pg_resp.Sql.Queue.{QueuedOp, QueuedItem, enqueue, abort_sub, commit_sub, reparent}

-- A write that is queued, a savepoint, its release, and the rollback to it, which ends it.
pub data Event : Type 0 where
  write : QueuedOp → Event
  savepoint release rollback : Event

-- The open subtransactions of a backend, innermost first, the next id, and the queue. Ids grow.
pub record Transaction : Type 0 where
  pub subxids : List ℕ
  pub next : ℕ
  pub queue : List QueuedItem

-- The top transaction has the id 1.
abbrev pub begun : Transaction
begun = record { subxids = 1 ∷ []; next = 2; queue = [] }

abbrev pub current : List ℕ → ℕ
current [] = 1
current (i ∷ _) = i

abbrev pub end_savepoint :
    (ℕ → ℕ → List QueuedItem → List QueuedItem) → List ℕ → Transaction → Transaction
end_savepoint f (i ∷ p ∷ subxids) t = record t { subxids = p ∷ subxids; queue = f i p t.queue }
end_savepoint f _ t = t

-- Which callback Postgres makes on an event.
unfoldable pub step : Event → Transaction → Transaction
step (write op) t = record t { queue = enqueue (current t.subxids) op t.queue }
step savepoint t = record t { subxids = t.next ∷ t.subxids; next = suc t.next }
step release t = end_savepoint commit_sub t.subxids t
step rollback t = end_savepoint (λ i _ q. abort_sub i q) t.subxids t

unfoldable pub run : List Event → Transaction → Transaction
run [] t = t
run (e ∷ es) t = run es (step e t)

-- The specification: for each subxids level, innermost first, the writes that hang on it.
unfoldable pub level_step : Event → List (List QueuedOp) → List (List QueuedOp)
level_step (write op) [] = []
level_step (write op) (f ∷ fs) = (f ++ op ∷ []) ∷ fs
level_step savepoint fs = [] ∷ fs
level_step release (f ∷ g ∷ fs) = (g ++ f) ∷ fs
level_step release (f ∷ []) = f ∷ []
level_step release [] = []
level_step rollback (f ∷ g ∷ fs) = g ∷ fs
level_step rollback (f ∷ []) = f ∷ []
level_step rollback [] = []

unfoldable pub levels : List Event → List (List QueuedOp) → List (List QueuedOp)
levels [] fs = fs
levels (e ∷ es) fs = levels es (level_step e fs)

abbrev pub all_writes : List (List QueuedOp) → List QueuedOp
all_writes [] = []
all_writes (f ∷ fs) = all_writes fs ++ f
