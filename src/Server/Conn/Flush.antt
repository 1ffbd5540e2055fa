-- ===== src/Server/Conn/Flush.antt =====
-- What a flush sends and what it leaves.
use pg_resp.Prelude.{
  zero, suc, ◌+◌, ◌≤◌, ◌<◌, ◌≡◌, refl, sym, ap, ◌∙◌, arith, true, false, List, [], ◌∷◌, ◌++◌,
  append_assoc, Bytes, length, take, drop, leb, if_intro, take-append-drop, drop-drop, drop-all,
  length-drop,
}
use pg_resp.Server.Conn.{
  Conn, unsent, owes, park, cleared, FlushOutcome, drained, pending, failed, WriteResult, wrote,
  full, interrupted, broken, flush_writes, write_prefix_reclaim_bytes,
}

-- The outcome of a flush of `c` fits what it leaves and what was sent.
pub record Flushed (c : Conn) (r : Conn × Bytes × FlushOutcome) : Type 0 where
  pub in_order : r.1 ++ unsent r.0 ≡ unsent c
  pub complete : r.2 ≡ drained → unsent r.0 ≡ []
  pub owing : r.2 ≡ pending → owes r.0 ≡ true
  pub reclaimed : r.2 ≡ pending → r.0.write_pos < write_prefix_reclaim_bytes
  pub read_kept : r.0.read_buf ≡ c.read_buf
  pub close_kept : r.0.close_after_flush ≡ c.close_after_flush

not-owes : (c : Conn) → owes c ≡ false → unsent c ≡ []
not-owes c h =
    let le : length c.write_buf ≤ c.write_pos = ground arith in drop-all c.write_pos c.write_buf le

cleared-Flushed : (c : Conn) → owes c ≡ false → Flushed c (cleared c, [], drained)
cleared-Flushed c h = record {
  in_order = sym (not-owes c h);
  complete = λ _. refl;
  owing = λ p. cc;
  reclaimed = λ p. cc;
  read_kept = refl;
  close_kept = refl;
}

park-Flushed : (c : Conn) → owes c ≡ true → Flushed c (park c, [], pending)
park-Flushed c h =
    if_intro (λ d. Flushed c (d, [], pending)) (leb write_prefix_reclaim_bytes c.write_pos)
      (λ old. record {
        in_order = refl;
        complete = λ p. cc;
        owing = λ p. let l = length-drop c.write_pos c.write_buf in ground arith;
        reclaimed = λ p. omega arith;
        read_kept = refl;
        close_kept = refl;
      })
      (λ young. record {
        in_order = refl;
        complete = λ p. cc;
        owing = λ p. h;
        reclaimed = λ p. ground arith;
        read_kept = refl;
        close_kept = refl;
      })

failed-Flushed : (c : Conn) → Flushed c (c, [], failed)
failed-Flushed c = record {
  in_order = refl;
  complete = λ p. cc;
  owing = λ p. cc;
  reclaimed = λ p. cc;
  read_kept = refl;
  close_kept = refl;
}

-- A flush loses and repeats nothing, whatever the socket does: what was sent and what is still owed
-- are together what was owed, in order. It reports `Drained` only when nothing is owed and `Pending` only
-- when something is, and then less than 64 KiB of sent bytes are kept.
pub flush_writes-Flushed : (rs : List WriteResult) (c : Conn) → Flushed c (flush_writes rs c)
unfolding flush_writes
flush_writes-Flushed [] c = if_intro (Flushed c) (owes c) (park-Flushed c) (cleared-Flushed c)
flush_writes-Flushed (wrote zero ∷ rs) c =
    if_intro (Flushed c) (owes c) (λ _. failed-Flushed c) (cleared-Flushed c)
flush_writes-Flushed (wrote (suc n) ∷ rs) c =
    let next = record c { write_pos = c.write_pos + suc n } in
    let ih = flush_writes-Flushed rs next in
    let after = flush_writes rs next in
    let rest : drop (suc n) (unsent c) ≡ unsent next = drop-drop c.write_pos (suc n) c.write_buf in
    if_intro (Flushed c) (owes c)
      (λ _. record {
        in_order =
            append_assoc (take (suc n) (unsent c)) after.1 (unsent after.0)
            ∙ ap (λ t. take (suc n) (unsent c) ++ t) (ih.in_order ∙ sym rest)
            ∙ take-append-drop (suc n) (unsent c);
        complete = ih.complete;
        owing = ih.owing;
        reclaimed = ih.reclaimed;
        read_kept = ih.read_kept;
        close_kept = ih.close_kept;
      })
      (cleared-Flushed c)
flush_writes-Flushed (full ∷ rs) c =
    if_intro (Flushed c) (owes c) (park-Flushed c) (cleared-Flushed c)
flush_writes-Flushed (interrupted ∷ rs) c =
    if_intro (Flushed c) (owes c) (λ _. flush_writes-Flushed rs c) (cleared-Flushed c)
flush_writes-Flushed (broken ∷ rs) c =
    if_intro (Flushed c) (owes c) (λ _. failed-Flushed c) (cleared-Flushed c)
