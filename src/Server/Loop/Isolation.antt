-- ===== src/Server/Loop/Isolation.antt =====
-- What an event leaves alone: every connection but its own.
use pg_resp.Prelude.{
  nat_eq, ℕ, ◌≡◌, refl, ◌∙◌, Bool, true, false, Option, none, some, List, ◌==◌, eq_refl, eq_iff,
  Bool-cases, inl, inr, if◌then◌else◌,
}
use pg_resp.HashMap.{lookup, remove, Distinct}
use pg_resp.HashMap.Laws.{lookup-modify, lookup-remove_ne, lookup-remove_self, lookup-insert}
use pg_resp.Server.Conn.{Conn, new_conn, WriteResult, flush_writes}
use pg_resp.Server.Service.{
  ReadResult, Tick, Served, served, fenced, hung, flushed, service_connection,
}
use pg_resp.Store.Types.{Store}
use pg_resp.Server.Loop.{
  Server, Setup, Event, sweep, accepted, writable, readable, reconcile_interest, settle, with_conn,
  step,
}
use pg_resp.Server.Loop.Invariant.{Tidy}

-- Whether the event is one of the connection with that token.
abbrev pub concerns : Event → Server → ℕ → Bool
concerns (sweep now) srv j = false
concerns (accepted registered) srv j = srv.next_token == j
concerns (writable token ws registered) srv j = token == j
concerns (readable token reads ws clock registered) srv j = token == j

settle-other :
    (token j : ℕ) (registered : Bool) (srv : Server) (r : Served)
    → (token == j) ≡ false
    → lookup j (settle token registered srv r).0.conns ≡ lookup j srv.conns
unfolding settle
settle-other token j registered srv (served true c s sent) h =
    lookup-modify token j (λ _. reconcile_interest registered c) srv.conns ∙ rw h refl
settle-other token j registered srv (served false c s sent) h = lookup-remove_ne token j srv.conns h
settle-other token j registered srv (fenced s) h = lookup-remove_ne token j srv.conns h
settle-other token j registered srv (hung s) h = refl

with_conn-other :
    (token j : ℕ) (registered : Bool) (srv : Server) (o : Option Conn) (serve : Conn → Served)
    → (token == j) ≡ false
    → lookup j (with_conn token registered srv o serve).0.conns ≡ lookup j srv.conns
with_conn-other token j registered srv none serve h = lookup-remove_ne token j srv.conns h
with_conn-other token j registered srv (some c) serve h =
    settle-other token j registered srv (serve c) h

-- An event changes no connection but its own: every other keeps its buffers, its position and its
-- authentication.
pub step-lookup_ne :
    (setup : Setup) (e : Event) (srv : Server) (j : ℕ)
    → Tidy srv
    → concerns e srv j ≡ false
    → lookup j (step setup e srv).0.conns ≡ lookup j srv.conns
unfolding step
step-lookup_ne setup (sweep now) srv j tidy h = refl
step-lookup_ne setup (accepted true) srv j tidy h =
    lookup-insert setup.order srv.next_token j new_conn srv.conns tidy.distinct ∙ rw h refl
step-lookup_ne setup (accepted false) srv j tidy h = refl
step-lookup_ne setup (writable token ws registered) srv j tidy h =
    with_conn-other token j registered srv (lookup token srv.conns)
      (λ c. flushed srv.store (flush_writes ws c)) h
step-lookup_ne setup (readable token reads ws clock registered) srv j tidy h =
    with_conn-other token j registered srv (lookup token srv.conns)
      (λ c. service_connection setup.runtime setup.password reads ws clock c srv.store) h

lookup-remove_drop :
    (token j : ℕ) (conns : List (ℕ × Conn))
    → Distinct conns
    → lookup j (remove token conns) ≡ (if token == j then none else lookup j conns)
lookup-remove_drop token j conns d = elim (Bool-cases (token == j)) [
  | inl h ↦
      let same = (eq_iff token j).0 h in
      let gone = lookup-remove_self j conns d in rw (same, gone, eq_refl j) refl
  | inr h ↦ rw h (lookup-remove_ne token j conns h)
]

-- A panic in a connection's commands takes down that connection alone: it is gone, the others are as
-- they were, and the server goes on with the store that the panic left.
pub step-fenced :
    (setup : Setup) (token j : ℕ) (reads : List ReadResult) (ws : List WriteResult)
    (clock : ℕ → Tick) (registered : Bool) (srv : Server) (c : Conn) (s : Store)
    → Tidy srv
    → lookup token srv.conns ≡ some c
    → service_connection setup.runtime setup.password reads ws clock c srv.store ≡ fenced s
    → let srv' = (step setup (readable token reads ws clock registered) srv).0 in
      (srv'.store ≡ s)
      × (srv'.next_token ≡ srv.next_token)
      × (lookup j srv'.conns ≡ (if token == j then none else lookup j srv.conns))
unfolding step settle
step-fenced setup token j reads ws clock registered srv c s tidy there dies =
    rw (there, dies, settle) (refl, refl, lookup-remove_drop token j srv.conns tidy.distinct)
