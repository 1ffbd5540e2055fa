-- ===== src/Server/Loop/Closing.antt =====
-- A connection that is to be closed is closed once its peer has taken what it is owed.
use pg_resp.Prelude.{
  nat_eq, ℕ, ◌+◌, ◌≤◌, ◌<◌, ◌≡◌, refl, sym, ◌∙◌, ◌⊎◌, inl, inr, arith, Bool, true, false, Option,
  none, some, List, [], ◌∷◌, All, Bytes, length, ◌==◌, eq_refl, eq_iff, Bool-cases, if◌then◌else◌,
  if_intro,
}
use mathlib.Core.Path.{subst}
use pg_resp.Prelude.Int.{u64_mod}
use pg_resp.HashMap.{lookup, remove, modify}
use pg_resp.HashMap.Laws.{lookup-modify, lookup-remove_self}
use pg_resp.Server.Conn.{
  Conn, unsent, FlushOutcome, drained, pending, failed, WriteResult, flush_writes,
}
use pg_resp.Server.Conn.Drain.{taken, IsSound, Drains, flush_writes-Drains}
use pg_resp.Server.Conn.Flush.{flush_writes-Flushed}
use pg_resp.Server.Service.{flushed, service_connection}
use pg_resp.Server.Loop.{
  Server, Setup, Event, sweep, accepted, writable, readable, reconcile_interest, settle, with_conn,
  step, run,
}
use pg_resp.Server.Loop.Invariant.{Tidy, step-Tidy, step-next_token, with_conn-next_token}
use pg_resp.Server.Loop.Isolation.{step-lookup_ne, concerns}

-- The peer sends nothing more, and its socket makes no error.
abbrev pub Patient : ℕ → Event → Type 0
Patient token (sweep now) = Unit
Patient token (accepted registered) = Unit
Patient token (writable t writes registered) = ((t == token) ≡ false) ⊎ IsSound writes
Patient token (readable t reads writes clock registered) = (t == token) ≡ false

-- How many bytes the peer takes in the events.
abbrev pub taken_by : ℕ → Event → ℕ
taken_by token (sweep now) = 0
taken_by token (accepted registered) = 0
taken_by token (writable t writes registered) = if t == token then taken writes else 0
taken_by token (readable t reads writes clock registered) = 0

abbrev pub total_taken : ℕ → List Event → ℕ
total_taken token [] = 0
total_taken token (e ∷ es) = taken_by token e + total_taken token es

-- The connection is gone, or it is to be closed and owes some bytes, `n` at most.
abbrev Closing : ℕ → Option Conn → Type 0
Closing n none = Unit
Closing n (some c) =
    (c.close_after_flush ≡ true) × (0 < length (unsent c)) × (length (unsent c) ≤ n)

reconciled-Closing :
    (registered : Bool) (n : ℕ) (c : Conn)
    → Closing n (some c)
    → Closing n (some (reconcile_interest registered c))
unfolding reconcile_interest
reconciled-Closing registered n c h =
    if_intro (λ d. Closing n (some d)) registered (λ _. h) (λ _. h)

Closing-zero : (m : ℕ) (o : Option Conn) → Closing (0 + m) o → Closing m o
Closing-zero m o h = let same : 0 + m ≡ m = omega arith in subst (λ n. Closing n o) same h

module _ (token : ℕ) (srv : Server) (tidy : Tidy srv) where
  gone : lookup token (remove token srv.conns) ≡ none
  gone = lookup-remove_self token srv.conns tidy.distinct

  -- What a flush comes to at the table of connections.
  settled-Closing :
      (registered : Bool) (m n : ℕ) (c : Conn) (r : Conn × Bytes × FlushOutcome)
      → lookup token srv.conns ≡ some c
      → r.0.close_after_flush ≡ true
      → length (unsent c) ≤ n + m
      → Drains c n r
      → Closing m (lookup token (settle token registered srv (flushed srv.store r)).0.conns)
  unfolding settle
  settled-Closing registered m n c (c', sent, drained) held close owed h =
      rw (close, settle) (subst (Closing m) (sym gone) tt)
  settled-Closing registered m n c (c', sent, failed) held close owed h =
      subst (Closing m) (sym gone) tt
  settled-Closing registered m n c (c', sent, pending) held close owed (inl all) = cc
  settled-Closing registered m n c (c', sent, pending) held close owed (inr (_, some_left, rest)) =
      let kept : Closing m (some c') = (close, some_left, omega (arith, rest, owed)) in
      let written : lookup token (modify token (λ _. reconcile_interest registered c') srv.conns)
          ≡ some (reconcile_interest registered c') =
        lookup-modify token token (λ _. reconcile_interest registered c') srv.conns
        ∙ ground (arith, held, eq_refl token) in
      subst (Closing m) (sym written) (reconciled-Closing registered m c' kept)

  writable-Closing :
      (writes : List WriteResult) (registered : Bool) (m : ℕ) (o : Option Conn)
      → lookup token srv.conns ≡ o
      → IsSound writes
      → Closing (taken writes + m) o
      → Closing m (
          lookup token
            (with_conn token registered srv o
              (λ c. flushed srv.store (flush_writes writes c))).0.conns)
  writable-Closing writes registered m none held sound h = subst (Closing m) (sym gone) tt
  writable-Closing writes registered m (some c) held sound (close, some_left, owed) =
      settled-Closing registered m (taken writes) c (flush_writes writes c) held
        ((flush_writes-Flushed writes c).close_kept ∙ close) owed
        (flush_writes-Drains writes c sound)

  untouched-Closing :
      (setup : Setup) (e : Event) (m : ℕ)
      → concerns e srv token ≡ false
      → Closing (0 + m) (lookup token srv.conns)
      → Closing m (lookup token (step setup e srv).0.conns)
  untouched-Closing setup e m other h =
      subst (Closing m) (sym (step-lookup_ne setup e srv token tidy other))
        (Closing-zero m (lookup token srv.conns) h)

  written-Closing :
      (setup : Setup) (writes : List WriteResult) (registered : Bool) (m : ℕ)
      → IsSound writes
      → Closing (taken writes + m) (lookup token srv.conns)
      → Closing m (lookup token (step setup (writable token writes registered) srv).0.conns)
  unfolding step
  written-Closing setup writes registered m sound owed =
      writable-Closing writes registered m (lookup token srv.conns) refl sound owed

  step-Closing :
      (setup : Setup) (e : Event) (m : ℕ)
      → token < srv.next_token
      → Patient token e
      → Closing (taken_by token e + m) (lookup token srv.conns)
      → Closing m (lookup token (step setup e srv).0.conns)
  step-Closing setup (sweep now) m old p h = untouched-Closing setup (sweep now) m refl h
  step-Closing setup (accepted registered) m old p h =
      untouched-Closing setup (accepted registered) m (ground arith) h
  step-Closing setup (writable t writes registered) m old p h = elim (Bool-cases (t == token)) [
    | inl same ↦
        let e : t ≡ token = (eq_iff t token).0 same in
        let sound : IsSound writes = ground (arith, p, same) in
        let owed : Closing (taken writes + m) (lookup token srv.conns) =
          subst (λ b. Closing ((if b then taken writes else 0) + m) (lookup token srv.conns)) same
            h in
        subst
          (λ u. Closing m (lookup token (step setup (writable u writes registered) srv).0.conns))
          (sym e) (written-Closing setup writes registered m sound owed)
    | inr other ↦ untouched-Closing setup (writable t writes registered) m other (
        subst (λ b. Closing ((if b then taken writes else 0) + m) (lookup token srv.conns)) other h)
  ]
  step-Closing setup (readable t reads writes clock registered) m old p h =
      untouched-Closing setup (readable t reads writes clock registered) m p h

next_token-grows :
    (setup : Setup) (e : Event) (srv : Server)
    → srv.next_token + 1 < u64_mod
    → srv.next_token ≤ (step setup e srv).0.next_token
unfolding step
next_token-grows setup (sweep now) srv room = omega arith
next_token-grows setup (accepted true) srv room = omega arith
next_token-grows setup (accepted false) srv room = omega arith
next_token-grows setup (writable token ws registered) srv room = omega (
  arith,
  with_conn-next_token token registered srv (lookup token srv.conns)
      (λ c. flushed srv.store (flush_writes ws c)),
)
next_token-grows setup (readable token reads ws clock registered) srv room = omega (
  arith,
  with_conn-next_token token registered srv (lookup token srv.conns)
      (λ c. service_connection setup.runtime setup.password reads ws clock c srv.store),
)

run-Closing :
    (setup : Setup) (token : ℕ) (es : List Event) (srv : Server) (m : ℕ)
    → Tidy srv
    → srv.next_token + length es < u64_mod
    → token < srv.next_token
    → All (Patient token) es
    → Closing (total_taken token es + m) (lookup token srv.conns)
    → Closing m (lookup token (run setup es srv).conns)
unfolding run
run-Closing setup token [] srv m tidy room old p h = Closing-zero m (lookup token srv.conns) h
run-Closing setup token (e ∷ es) srv m tidy room old (p, ps) h =
    let one : srv.next_token + 1 < u64_mod = omega arith in
    let srv' = (step setup e srv).0 in
    let split : total_taken token (e ∷ es) + m ≡ taken_by token e + (total_taken token es + m) =
      omega arith in
    run-Closing setup token es srv' m (step-Tidy setup e srv one tidy)
      (omega (arith, step-next_token setup e srv one))
      (omega (arith, next_token-grows setup e srv one)) ps
      (step-Closing token srv tidy setup e (total_taken token es + m) old p
        (subst (λ n. Closing n (lookup token srv.conns)) split h))

Closing-none : (o : Option Conn) → Closing 0 o → o ≡ none
Closing-none none h = refl
Closing-none (some c) h = absurd (omega (arith, h.1, h.2))

known_token :
    (srv : Server) (token : ℕ) (c : Conn)
    → Tidy srv
    → lookup token srv.conns ≡ some c
    → token < srv.next_token
known_token srv token c tidy held = ground (arith, tidy.fresh token, held)

-- A connection that is to be closed, after QUIT or a protocol error, and owes its peer some bytes:
-- in any events in which the peer sends nothing more, its socket makes no error and takes as many
-- bytes as are owed, or more, the connection is closed and its token is not in use afterwards,
-- whatever the other connections do meanwhile.
pub run-closed :
    (setup : Setup) (token : ℕ) (es : List Event) (srv : Server) (c : Conn)
    → Tidy srv
    → srv.next_token + length es < u64_mod
    → lookup token srv.conns ≡ some c
    → c.close_after_flush ≡ true
    → 0 < length (unsent c)
    → All (Patient token) es
    → length (unsent c) ≤ total_taken token es
    → lookup token (run setup es srv).conns ≡ none
run-closed setup token es srv c tidy room held close some_left patient enough =
    let owed : Closing (total_taken token es + 0) (some c) = (close, some_left, omega arith) in
    Closing-none (lookup token (run setup es srv).conns) (
      run-Closing setup token es srv 0 tidy room (known_token srv token c tidy held) patient
        (subst (Closing (total_taken token es + 0)) (sym held) owed))
