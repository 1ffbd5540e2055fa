-- ===== src/Tests/OnSql.antt =====
-- The theorems on the transaction queue at concrete inputs.
use pg_resp.Prelude.{
  bytes_eq, bytes_beq, ◌==◌, ◌++◌, ◌&&◌, Bool, true, if◌then◌else◌, Option, some, ltb, ap, refl,
  arith, ◌≡◌, none, List, [], ◌∷◌, Bytes, codes, map,
}
use pg_resp.Sql.Queue.{set, del, QueuedItem, Sent, failed, apply_queue}
use pg_resp.Sql.Savepoints.{
  Event, write, savepoint, release, rollback, begun, run, levels, all_writes,
}
use pg_resp.Sql.Savepoints.Laws.{queue-levels}
use pg_resp.Prelude.Int.{ℤ, pos}
use pg_resp.Decimal.{to_string}
use pg_resp.Proto.Reply.{simple, integer, bulk, to_bytes}
use pg_resp.Store.Keyspace.{stats}
use pg_resp.Dispatch.Server.{info_text}
use pg_resp.Client.{Client, got}
use pg_resp.Client.Retry.{holding}
use pg_resp.Client.Answers.{command-to_bytes}
use pg_resp.Sql.Info.{stats_row}
use pg_resp.Sql.Info.Laws.{row, stats_row-info_text}
use pg_resp.Sql.Surface.{value, get, ask, answered, bulk_to_text}
use pg_resp.Sql.Trigger.{Row, int, render_column_as_text, evict}
use pg_resp.Sql.Trigger.Laws.{deletes, changed_keys, on_update, evict-update}
use pg_resp.Sql.Delivery.{Exchange, items, room, arriving, requests, deliver, apply_queue-requests}
use pg_resp.Store.Types.{wrapping_add}
use pg_resp.Tests.OnClient.{texts, client, world, target}
use pg_resp.Tests.Samples.{hits, name, runtime, locked, two_keys}

-- the delete is released into a savepoint that is rolled back
abbrev story : List Event
story =
    write (set hits (codes "1") none)
    ∷ savepoint
    ∷ savepoint
    ∷ write (del name)
    ∷ release
    ∷ rollback
    ∷ write (del hits)
    ∷ []

queue-levels_example : map (λ x. x.op) (run story begun).queue ≡ all_writes (levels story ([] ∷ []))
queue-levels_example = queue-levels story

abbrev unreachable : List Bytes → List Bytes → List Bytes × Sent
unreachable args log = (args, failed (codes "connection refused"))

abbrev queued : List QueuedItem
queued = record { subxid = 1; op = del hits } ∷ record { subxid = 1; op = del name } ∷ []

abbrev is_ascii : Bytes → Bool
is_ascii [] = true
is_ascii (c ∷ s) = ltb c 128 && is_ascii s

abbrev told_null : Option Client
told_null = some (holding client (none ∷ none ∷ []) (got (to_bytes (bulk none)) ∷ []))

-- A null bulk string is answered by NULL.
answers_null : (get texts target is_ascii hits told_null world).2 ≡ value none
unfolding get ask
answers_null =
    ap (λ r. (answered texts (bulk_to_text texts is_ascii hits) r).2)
      (command-to_bytes texts (codes "GET" ∷ hits ∷ []) client world [] (bulk none) [] (omega arith)
        tt)

abbrev product : ℤ → Row
product id column = if column == codes "id" then some (int (some id)) else none

id_of : (id : ℤ) → render_column_as_text (product id) (codes "id") ≡ value (some (to_string id))
unfolding render_column_as_text bytes_beq
id_of id = refl

evict-update_example :
    evict 3 (on_update (codes "product:") (codes "id") (product (pos 7)) (product (pos 8))) queued
    ≡ value (
        queued
        ++ deletes 3
            (changed_keys (codes "product:") (some (to_string (pos 7))) (some (to_string (pos 8)))))
evict-update_example =
    evict-update 3 (codes "product:") (codes "id") (product (pos 7)) (product (pos 8))
      (some (to_string (pos 7))) (some (to_string (pos 8))) queued (id_of (pos 7)) (id_of (pos 8))

stats_row-info_text_example :
    stats_row (λ s. s) (info_text runtime locked (stats two_keys)) ≡ row locked (stats two_keys)
unfolding stats
stats_row-info_text_example =
    stats_row-info_text (λ s. s) (λ s digits. refl) runtime locked (stats two_keys)
      (
        (omega arith, (omega arith, (omega arith, (omega arith, (omega arith, tt))))),
        omega arith,
        omega arith,
        omega arith,
        omega arith,
        omega arith,
        omega arith,
        omega arith,
      )

abbrev settled : Exchange
settled =
    (record { subxid = 1; op = set hits (codes "8") (some (pos 60)) }, simple (codes "OK"))
    ∷ (record { subxid = 1; op = del name }, integer (pos 1))
    ∷ []

apply_queue-requests_example :
    apply_queue
      (deliver texts)
      (items settled)
      (holding client (room settled) (arriving settled), world)
      5
    ≡ (
      (holding client [] [], record world { sent = [] ++ requests settled }),
      record { count = 0; first_error = none },
      wrapping_add 5 0,
    )
apply_queue-requests_example = apply_queue-requests texts client settled world 5 (
  (omega arith, (omega arith, (omega arith, tt))),
  ((omega arith, (omega arith, omega arith)), tt),
)
