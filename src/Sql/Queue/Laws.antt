-- ===== src/Sql/Queue/Laws.antt =====
-- What the post-commit application of a queue reports.
use pg_resp.Prelude.{ℕ, ◌≤◌, ◌≡◌, ap, Option, none, List, ◌∷◌, Bytes, is_some, ltb}
use pg_resp.Sql.Queue.{
  QueuedItem, Sent, replied, failed, panicked, Tally, with_error, send_all, tally, command_of,
}

-- No more losses than writes, and an error's text exactly where there is a loss.
pub record Counted (total : ℕ) (t : Tally) : Type 0 where
  pub bounded : t.count ≤ total
  pub explained : is_some t.first_error ≡ ltb 0 t.count

module _ {W : Type 0} (command : List Bytes → W → W × Sent) where
  Reports : ℕ → W × Option Tally → Type 0
  Reports total p = Counted total (tally command total p.1)

  pub send_all-replied :
      (item : QueuedItem) (items : List QueuedItem) (t : Tally) (w w' : W)
      → command (command_of item.op) w ≡ (w', replied)
      → send_all command (item ∷ items) t w ≡ send_all command items t w'
  unfolding send_all
  send_all-replied item items t w w' e =
      ap
        (λ p. elim (p.1) [
          | replied ↦ send_all command items t p.0
          | failed msg ↦ send_all command items (with_error msg t) p.0
          | panicked ↦ (p.0, none)
        ])
        e
