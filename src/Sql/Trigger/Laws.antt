-- ===== src/Sql/Trigger/Laws.antt =====
-- What the trigger queues for an updated row.
use pg_resp.Prelude.{
  bytes_eq, ◌==◌, ℕ, ◌≡◌, refl, ap, sym, ◌∙◌, ◌||◌, false, Option, none, some, List, [], ◌∷◌, ◌++◌,
  append-nil, append_assoc, Bytes, map, if◌then◌else◌, if_intro,
}
use pg_resp.Sql.Queue.{del, QueuedItem, enqueue}
use pg_resp.Sql.Surface.{value}
use pg_resp.Sql.Trigger.{
  Row, render_column_as_text, add_key, collect_keys, queue_deletes, del_key, Trigger, evict,
}

abbrev pub deletes : ℕ → List Bytes → List QueuedItem
deletes subxid ks = map (λ k. record { subxid = subxid; op = del k }) ks

queue_deletes-deletes :
    (subxid : ℕ) (ks : List Bytes) (queue : List QueuedItem)
    → queue_deletes subxid ks queue ≡ queue ++ deletes subxid ks
unfolding queue_deletes del_key enqueue
queue_deletes-deletes subxid [] queue = sym (append-nil queue)
queue_deletes-deletes subxid (k ∷ ks) queue =
    queue_deletes-deletes subxid ks (queue ++ record { subxid = subxid; op = del k } ∷ [])
    ∙ append_assoc queue (record { subxid = subxid; op = del k } ∷ []) (deletes subxid ks)

-- The keys of a row's change: none for NULL, and one if both names are the same.
abbrev pub changed_keys : Bytes → Option Bytes → Option Bytes → List Bytes
changed_keys prefix none none = []
changed_keys prefix none (some b) = (prefix ++ b) ∷ []
changed_keys prefix (some a) none = (prefix ++ a) ∷ []
changed_keys prefix (some a) (some b) =
    if (prefix ++ a) == (prefix ++ b)
    then (prefix ++ a) ∷ []
    else (prefix ++ a) ∷ (prefix ++ b) ∷ []

add-changed :
    (prefix : Bytes) (o n : Option Bytes)
    → add_key prefix n (add_key prefix o []) ≡ changed_keys prefix o n
add-changed prefix none none = refl
add-changed prefix none (some b) = refl
add-changed prefix (some a) none = refl
add-changed prefix (some a) (some b) =
    if_intro
      (λ ks.
        (if ((prefix ++ a) == (prefix ++ b)) || false
          then (prefix ++ a) ∷ []
          else (prefix ++ a) ∷ (prefix ++ b) ∷ [])
        ≡ ks)
      ((prefix ++ a) == (prefix ++ b)) (λ h. rw h refl) (λ h. rw h refl)

abbrev pub on_update : Bytes → Bytes → Row → Row → Trigger
on_update prefix column old new = record {
  args = some (prefix ∷ column ∷ []);
  statement_level = false;
  old = some old;
  new = some new;
}

-- An UPDATE queues the delete of the key of the old row and of the key of the new one, once if they are
-- the same and none for a NULL column, behind what the transaction has queued before.
pub evict-update :
    (subxid : ℕ) (prefix column : Bytes) (old new : Row) (o n : Option Bytes)
    (queue : List QueuedItem)
    → render_column_as_text old column ≡ value o
    → render_column_as_text new column ≡ value n
    → evict subxid (on_update prefix column old new) queue
      ≡ value (queue ++ deletes subxid (changed_keys prefix o n))
unfolding evict collect_keys
evict-update subxid prefix column old new o n queue h k =
    rw (h, k)
      (ap value (
        queue_deletes-deletes subxid (add_key prefix n (add_key prefix o [])) queue
        ∙ ap (λ ks. queue ++ deletes subxid ks) (add-changed prefix o n)))
