-- ===== src/Sql/Queue.antt =====
-- The queue of a backend and the transaction callbacks on it (crates/pg_resp/src/sql.rs).
pub mod Laws
use pg_resp.Prelude.{
  ℕ, suc, ◌+◌, ◌%◌, Option, none, some, List, [], ◌∷◌, ◌++◌, Bytes, codes, map, keep_if, length,
  ltb, nat_beq, Bool, true, false, if◌then◌else◌,
}
use pg_resp.Prelude.Int.{ℤ}
use pg_resp.Decimal.{to_string}
use pg_resp.Store.Types.{wrapping_add}

pub data QueuedOp : Type 0 where
  set : Bytes → Bytes → Option ℤ → QueuedOp
  del : Bytes → QueuedOp

pub record QueuedItem : Type 0 where
  pub subxid : ℕ
  pub op : QueuedOp

-- `subxid` is what `GetCurrentSubTransactionId` returns.
unfoldable pub enqueue : ℕ → QueuedOp → List QueuedItem → List QueuedItem
enqueue subxid op queue = queue ++ record { subxid = subxid; op = op } ∷ []

-- the callback of `AbortSub`
unfoldable pub abort_sub : ℕ → List QueuedItem → List QueuedItem
abort_sub my_subid queue = keep_if (λ item. ltb item.subxid my_subid) queue

abbrev pub reparent : ℕ → ℕ → QueuedItem → QueuedItem
reparent my_subid parent item =
    if nat_beq item.subxid my_subid then record item { subxid = parent } else item

-- the callback of `CommitSub`
unfoldable pub commit_sub : ℕ → ℕ → List QueuedItem → List QueuedItem
commit_sub my_subid parent queue = map (reparent my_subid parent) queue

-- What `client.command` does: a reply, an error with its text, or a panic.
pub data Sent : Type 0 where
  replied : Sent
  failed : Bytes → Sent
  panicked : Sent

abbrev pub ttl_args : Option ℤ → List Bytes
ttl_args none = []
ttl_args (some ttl) = codes "EX" ∷ to_string ttl ∷ []

unfoldable pub command_of : QueuedOp → List Bytes
command_of (set key value ttl) = codes "SET" ∷ key ∷ value ∷ ttl_args ttl
command_of (del key) = codes "DEL" ∷ key ∷ []

-- The failures and the first error's text.
pub record Tally : Type 0 where
  pub count : ℕ
  pub first_error : Option Bytes

abbrev pub with_error : Bytes → Tally → Tally
with_error msg t = record {
  count = suc t.count;
  first_error = elim (t.first_error) [ none ↦ some msg | some first ↦ some first ];
}

-- The loop over the queue. `W` is the world that the client talks to; `none` is a panic.
module _ {W : Type 0} (command : List Bytes → W → W × Sent) where
  unfoldable pub send_all : List QueuedItem → Tally → W → W × Option Tally
  send_all [] t w = (w, some t)
  send_all (item ∷ items) t w =
      let (w', sent) = command (command_of item.op) w in
      elim sent [
        | replied ↦ send_all items t w'
        | failed msg ↦ send_all items (with_error msg t) w'
        | panicked ↦ (w', none)
      ]

  abbrev pub tally : ℕ → Option Tally → Tally
  tally total (some t) = t
  tally total none = record {
    count = total;
    first_error = some (codes "internal panic while applying queued cache writes");
  }

  -- The world after the sends, what was lost, and the counter of lost invalidations.
  unfoldable pub apply_queue : List QueuedItem → W → ℕ → W × Tally × ℕ
  apply_queue ops w lost =
      let (w', outcome) = send_all ops (record { count = 0; first_error = none }) w in
      let t = tally (length ops) outcome in (w', t, wrapping_add lost t.count)
