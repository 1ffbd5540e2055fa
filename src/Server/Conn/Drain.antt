-- ===== src/Server/Conn/Drain.antt =====
-- How far a flush gets when the socket makes no error.
use pg_resp.Prelude.{
  ℕ, zero, suc, ◌+◌, ◌<◌, ◌≡◌, refl, ◌⊎◌, inl, inr, arith, List, [], ◌∷◌, Bytes, length, leb,
  if_intro, length-drop, if◌then◌else◌,
}
use pg_resp.Server.Conn.{
  Conn, unsent, owes, park, cleared, FlushOutcome, drained, pending, WriteResult, wrote, full,
  interrupted, broken, flush_writes, write_prefix_reclaim_bytes,
}

-- How many bytes the socket takes before it would block.
abbrev pub taken : List WriteResult → ℕ
taken [] = 0
taken (wrote n ∷ rs) = n + taken rs
taken (full ∷ rs) = 0
taken (interrupted ∷ rs) = taken rs
taken (broken ∷ rs) = 0

-- Until it would block, the socket makes no error and takes some bytes whenever it takes any.
abbrev pub IsSound : List WriteResult → Type 0
IsSound [] = Unit
IsSound (wrote zero ∷ rs) = ⊥
IsSound (wrote (suc n) ∷ rs) = IsSound rs
IsSound (full ∷ rs) = Unit
IsSound (interrupted ∷ rs) = IsSound rs
IsSound (broken ∷ rs) = ⊥

-- What a flush of `c` comes to: all is sent, or what is left is less by what the socket took.
abbrev pub Drains : Conn → ℕ → Conn × Bytes × FlushOutcome → Type 0
Drains c n r =
    (r.2 ≡ drained)
    ⊎ ((r.2 ≡ pending) × (0 < length (unsent r.0)) × (length (unsent r.0) + n ≡ length (unsent c)))

unsent-park : (c : Conn) → length (unsent (park c)) ≡ length (unsent c)
unsent-park c =
    if_intro (λ d. length (unsent d) ≡ length (unsent c))
      (leb write_prefix_reclaim_bytes c.write_pos) (λ _. refl) (λ _. refl)

stop-Drains :
    (c : Conn) → Drains c 0 (if owes c then (park c, [], pending) else (cleared c, [], drained))
stop-Drains c =
    if_intro {A = Conn × Bytes × FlushOutcome} (Drains c 0) (owes c)
      (λ more.
        let some_left : 0 < length (unsent c) =
          ground (arith, length-drop c.write_pos c.write_buf) in
        inr (refl, omega (arith, unsent-park c, some_left), omega (arith, unsent-park c)))
      (λ _. inl refl)

-- A flush gets as far as the socket goes.
pub flush_writes-Drains :
    (rs : List WriteResult) (c : Conn) → IsSound rs → Drains c (taken rs) (flush_writes rs c)
unfolding flush_writes
flush_writes-Drains [] c h = stop-Drains c
flush_writes-Drains (wrote zero ∷ rs) c h = absurd h
flush_writes-Drains (wrote (suc n) ∷ rs) c h =
    let next = record c { write_pos = c.write_pos + suc n } in
    let after = flush_writes rs next in
    if_intro {A = Conn × Bytes × FlushOutcome} (Drains c (suc n + taken rs)) (owes c)
      (λ _. elim (flush_writes-Drains rs next h) [
        | inl all ↦ inl all
        | inr (some_left, more, rest) ↦
            let past = length-drop c.write_pos c.write_buf in
            let past' = length-drop next.write_pos c.write_buf in
            inr (some_left, more, omega (arith, more, rest, past, past'))
      ])
      (λ _. inl refl)
flush_writes-Drains (full ∷ rs) c h = stop-Drains c
flush_writes-Drains (interrupted ∷ rs) c h =
    if_intro {A = Conn × Bytes × FlushOutcome} (Drains c (taken rs)) (owes c)
      (λ _. flush_writes-Drains rs c h) (λ _. inl refl)
flush_writes-Drains (broken ∷ rs) c h = absurd h
