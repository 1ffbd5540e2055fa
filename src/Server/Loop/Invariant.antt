-- ===== src/Server/Loop/Invariant.antt =====
-- What holds of the server between two events, whatever its peers do.
use mathlib.Core.Path.{subst}
use pg_resp.Prelude.{
  nat_eq, ℕ, ◌+◌, ◌≤◌, ◌<◌, ◌≡◌, refl, sym, ◌∙◌, arith, Bool, true, false, Option, none, some, List,
  [], ◌∷◌, length, ◌==◌, eq_iff, if◌then◌else◌, if_intro, Bool-cases, inl, inr,
}
use pg_resp.Prelude.Int.{u64_mod}
use pg_resp.HashMap.{HashOrder, lookup, remove, modify, insert, Distinct}
use pg_resp.HashMap.Laws.{
  lookup-modify, lookup-remove_ne, lookup-remove_self, lookup-insert, remove-Distinct,
  modify-Distinct, insert-Distinct,
}
use pg_resp.Store.Types.{Store}
use pg_resp.Store.Account.Valid.{IsValid, active_expire_sweep-IsValid}
use pg_resp.Server.Conn.{Conn, new_conn, unsent, max_pending_write_bytes, flush_writes}
use pg_resp.Server.Service.{Served, served, fenced, hung, flushed, service_connection}
use pg_resp.Server.Service.Bounds.{
  served_store, Capped, flushed-Capped, service_connection-Capped, service_connection-IsValid,
}
use pg_resp.Server.Loop.{
  Server, Setup, started, Event, sweep, accepted, writable, readable, reconcile_interest, drop_conn,
  settle, with_conn, step, run, active_expire_sample_size,
}

abbrev pub Owed : Option Conn → Type 0
Owed none = Unit
Owed (some c) = length (unsent c) ≤ max_pending_write_bytes

-- The store is well formed; no token is used twice, and none that is still to be given out; and no
-- connection owes more than the cap.
pub record Tidy (srv : Server) : Type 0 where
  pub valid : IsValid srv.store
  pub distinct : Distinct srv.conns
  pub fresh : (t : ℕ) → srv.next_token ≤ t → lookup t srv.conns ≡ none
  pub capped : (t : ℕ) → Owed (lookup t srv.conns)

Owed-modified :
    (b : Bool) (o : Option Conn) (c : Conn)
    → Owed (some c)
    → Owed o
    → Owed (if b then (elim o [ none ↦ none | some _ ↦ some c ]) else o)
Owed-modified true none c h k = tt
Owed-modified true (some d) c h k = h
Owed-modified false o c h k = k

none-modified :
    (b : Bool) (o : Option Conn) (c : Conn)
    → o ≡ none
    → (if b then (elim o [ none ↦ none | some _ ↦ some c ]) else o) ≡ none
none-modified true none c h = refl
none-modified true (some d) c h = cc
none-modified false o c h = h

module _ (srv : Server) (tidy : Tidy srv) (token : ℕ) where
  dropped-lookup :
      (P : Option Conn → Type 0) (t : ℕ)
      → P none
      → P (lookup t srv.conns)
      → P (lookup t (remove token srv.conns))
  dropped-lookup P t gone kept = elim (Bool-cases (token == t)) [
    | inl h ↦
        let same = (eq_iff token t).0 h in
        subst P (sym (rw same (lookup-remove_self t srv.conns tidy.distinct))) gone
    | inr h ↦ subst P (sym (lookup-remove_ne token t srv.conns h)) kept
  ]

  drop-Tidy : (s : Store) → IsValid s → Tidy (record (drop_conn token srv) { store = s })
  drop-Tidy s v = record {
    valid = v;
    distinct = remove-Distinct token srv.conns tidy.distinct;
    fresh = λ t le. dropped-lookup (λ o. o ≡ none) t refl (tidy.fresh t le);
    capped = λ t. dropped-lookup Owed t tt (tidy.capped t);
  }

  store-Tidy : (s : Store) → IsValid s → Tidy (record srv { store = s })
  store-Tidy s v = record {
    valid = v;
    distinct = tidy.distinct;
    fresh = tidy.fresh;
    capped = tidy.capped;
  }

  write-Tidy :
      (c : Conn) (s : Store)
      → IsValid s
      → Owed (some c)
      → Tidy (record srv { store = s; conns = modify token (λ _. c) srv.conns })
  write-Tidy c s v small = record {
    valid = v;
    distinct = modify-Distinct token (λ _. c) srv.conns tidy.distinct;
    fresh = λ t le.
        lookup-modify token t (λ _. c) srv.conns
        ∙ none-modified (token == t) (lookup t srv.conns) c (tidy.fresh t le);
    capped = λ t.
        subst Owed (sym (lookup-modify token t (λ _. c) srv.conns))
          (Owed-modified (token == t) (lookup t srv.conns) c small (tidy.capped t));
  }

  settle-Tidy :
      (registered : Bool) (r : Served)
      → IsValid (served_store r)
      → Capped r
      → Tidy (settle token registered srv r).0
  unfolding settle reconcile_interest
  settle-Tidy registered (served true c s sent) v k =
      write-Tidy (reconcile_interest registered c) s v
        (if_intro (λ d. Owed (some d)) registered (λ _. k) (λ _. k))
  settle-Tidy registered (served false c s sent) v k = drop-Tidy s v
  settle-Tidy registered (fenced s) v k = drop-Tidy s v
  settle-Tidy registered (hung s) v k = store-Tidy s v

  with_conn-Tidy :
      (registered : Bool) (o : Option Conn) (serve : Conn → Served)
      → Owed o
      → ((c : Conn) → Owed (some c) → IsValid (served_store (serve c)) × Capped (serve c))
      → Tidy (with_conn token registered srv o serve).0
  with_conn-Tidy registered none serve k go = drop-Tidy srv.store tidy.valid
  with_conn-Tidy registered (some c) serve k go =
      settle-Tidy registered (serve c) (go c k).0 (go c k).1

accept-Tidy :
    (h : HashOrder (ℕ × Conn)) (srv : Server) (n : ℕ)
    → Tidy srv
    → n ≡ srv.next_token + 1
    → Tidy (record srv { next_token = n; conns = insert h srv.next_token new_conn srv.conns })
accept-Tidy h srv n tidy e = record {
  valid = tidy.valid;
  distinct = insert-Distinct h srv.next_token new_conn srv.conns tidy.distinct;
  fresh = λ t le.
      lookup-insert h srv.next_token t new_conn srv.conns tidy.distinct
      ∙ ground (arith, e, le, tidy.fresh t, eq_iff srv.next_token t);
  capped = λ t.
      subst Owed (sym (lookup-insert h srv.next_token t new_conn srv.conns tidy.distinct))
        (if_intro Owed (srv.next_token == t) (λ _. omega arith) (λ _. tidy.capped t));
}

-- Any event keeps it, as long as the counter of tokens has not run out.
pub step-Tidy :
    (setup : Setup) (e : Event) (srv : Server)
    → srv.next_token + 1 < u64_mod
    → Tidy srv
    → Tidy (step setup e srv).0
unfolding step
step-Tidy setup (sweep now) srv room tidy = record {
  valid = active_expire_sweep-IsValid now active_expire_sample_size srv.store tidy.valid;
  distinct = tidy.distinct;
  fresh = tidy.fresh;
  capped = tidy.capped;
}
step-Tidy setup (accepted true) srv room tidy = accept-Tidy setup.order srv _ tidy (omega arith)
step-Tidy setup (accepted false) srv room tidy = record {
  valid = tidy.valid;
  distinct = tidy.distinct;
  fresh = λ t le. tidy.fresh t (omega arith);
  capped = tidy.capped;
}
step-Tidy setup (writable token ws registered) srv room tidy =
    with_conn-Tidy srv tidy token registered (lookup token srv.conns)
      (λ c. flushed srv.store (flush_writes ws c)) (tidy.capped token)
      (λ c k. (tidy.valid, flushed-Capped ws c srv.store k))
step-Tidy setup (readable token reads ws clock registered) srv room tidy =
    with_conn-Tidy srv tidy token registered (lookup token srv.conns)
      (λ c. service_connection setup.runtime setup.password reads ws clock c srv.store)
      (tidy.capped token)
      (λ c k. (
        service_connection-IsValid setup.runtime setup.password reads ws clock c srv.store
            tidy.valid,
        service_connection-Capped setup.runtime setup.password reads ws clock c srv.store,
      ))

settle-next_token :
    (token : ℕ) (registered : Bool) (srv : Server) (r : Served)
    → (settle token registered srv r).0.next_token ≡ srv.next_token
unfolding settle
settle-next_token token registered srv (served true c s sent) = refl
settle-next_token token registered srv (served false c s sent) = refl
settle-next_token token registered srv (fenced s) = refl
settle-next_token token registered srv (hung s) = refl

pub with_conn-next_token :
    (token : ℕ) (registered : Bool) (srv : Server) (o : Option Conn) (serve : Conn → Served)
    → (with_conn token registered srv o serve).0.next_token ≡ srv.next_token
with_conn-next_token token registered srv none serve = refl
with_conn-next_token token registered srv (some c) serve =
    settle-next_token token registered srv (serve c)

pub step-next_token :
    (setup : Setup) (e : Event) (srv : Server)
    → srv.next_token + 1 < u64_mod
    → (step setup e srv).0.next_token ≤ srv.next_token + 1
unfolding step
step-next_token setup (sweep now) srv room = omega arith
step-next_token setup (accepted true) srv room = omega arith
step-next_token setup (accepted false) srv room = omega arith
step-next_token setup (writable token ws registered) srv room = omega (
  arith,
  with_conn-next_token token registered srv (lookup token srv.conns)
      (λ c. flushed srv.store (flush_writes ws c)),
)
step-next_token setup (readable token reads ws clock registered) srv room = omega (
  arith,
  with_conn-next_token token registered srv (lookup token srv.conns)
      (λ c. service_connection setup.runtime setup.password reads ws clock c srv.store),
)

run-Tidy :
    (setup : Setup) (es : List Event) (srv : Server)
    → srv.next_token + length es < u64_mod
    → Tidy srv
    → Tidy (run setup es srv)
unfolding run
run-Tidy setup [] srv room tidy = tidy
run-Tidy setup (e ∷ es) srv room tidy =
    let one : srv.next_token + 1 < u64_mod = omega arith in
    run-Tidy setup es (step setup e srv).0 (omega (arith, step-next_token setup e srv one))
      (step-Tidy setup e srv one tidy)

started-Tidy : (max_memory_bytes : Option ℕ) → Tidy (started max_memory_bytes)
unfolding lookup
started-Tidy none = record {
  valid = record { distinct = tt; accounted = refl };
  distinct = tt;
  fresh = λ t le. refl;
  capped = λ t. tt;
}
started-Tidy (some bytes) = record {
  valid = record { distinct = tt; accounted = refl };
  distinct = tt;
  fresh = λ t le. refl;
  capped = λ t. tt;
}

-- From its start the server stays tidy through any events, fewer than 2^64 - 1 of them, whatever its
-- peers send, however its sockets behave, and whichever commands panic: the store is well formed, no
-- two connections share a token, and none that is kept owes more than 64 MiB.
pub run-started-Tidy :
    (setup : Setup) (max_memory_bytes : Option ℕ) (es : List Event)
    → 1 + length es < u64_mod
    → Tidy (run setup es (started max_memory_bytes))
run-started-Tidy setup max_memory_bytes es room =
    run-Tidy setup es (started max_memory_bytes) room (started-Tidy max_memory_bytes)
