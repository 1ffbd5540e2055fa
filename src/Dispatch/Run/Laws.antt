-- ===== src/Dispatch/Run/Laws.antt =====
-- What holds of every command: the invariant, the gate and AUTH.
use mathlib.Core.Path.{subst}
use pg_resp.Prelude.{
  bytes_eq, bytes_beq, ◌≡◌, ◌≢◌, ◌⊎◌, inl, inr, refl, sym, ap, ◌∙◌, arith, if_intro, Bool-cases,
  true, false, Option, none, some, List, [], ◌∷◌, Bytes, codes, ◌==◌, eq_iff, if◌then◌else◌,
}
use pg_resp.HashMap.{lookup}
use pg_resp.Store.Keyspace.Laws.{contains}
use pg_resp.Store.Types.{Store}
use pg_resp.Store.Account.Valid.{IsValid}
use pg_resp.Dispatch.Verb.{Verb, verbs, verb_of}
use pg_resp.Dispatch.Runtime.{Runtime, Context, ConnState, Answer, reply, upper}
use pg_resp.Dispatch.Connection.{auth_command}
use pg_resp.Dispatch.Strings.{ok_reply}
use pg_resp.Dispatch.Server.{hello_command}
use pg_resp.Dispatch.Strings.Keeps.{
  get_command-IsValid, set_command-IsValid, incr_command-IsValid, decr_command-IsValid,
  incrby_command-IsValid, decrby_command-IsValid, mget_command-IsValid, mset_command-IsValid,
  setex_command-IsValid, setnx_command-IsValid, getdel_command-IsValid, getex_command-IsValid,
}
use pg_resp.Dispatch.Server.Keeps.{
  del_command-IsValid, exists_command-IsValid, ttl_command-IsValid, pttl_command-IsValid,
  expire_command-IsValid, persist_command-IsValid, type_command-IsValid, randomkey_command-IsValid,
  keys_command-IsValid, flush_command-IsValid,
}
use pg_resp.Dispatch.Scanning.{scan_command-IsValid}
use pg_resp.Dispatch.Run.{run, run_named, gated, passes_gate, noauth, dispatch}

run-IsValid :
    (rt : Runtime) (ctx : Context) (verb : Verb) (rest : List Bytes) (s : Store) (conn : ConnState)
    → IsValid s
    → IsValid (run rt ctx verb rest s conn).0
unfolding run
run-IsValid rt ctx Verb.ping rest s conn v = v
run-IsValid rt ctx Verb.echo rest s conn v = v
run-IsValid rt ctx Verb.hello rest s conn v = v
run-IsValid rt ctx Verb.get rest s conn v = get_command-IsValid ctx s v rest
run-IsValid rt ctx Verb.set rest s conn v = set_command-IsValid rt ctx s v rest
run-IsValid rt ctx Verb.del rest s conn v = del_command-IsValid ctx s v rest
run-IsValid rt ctx Verb.exists rest s conn v = exists_command-IsValid ctx s v rest
run-IsValid rt ctx Verb.ttl rest s conn v = ttl_command-IsValid ctx s v rest
run-IsValid rt ctx Verb.pttl rest s conn v = pttl_command-IsValid ctx s v rest
run-IsValid rt ctx Verb.expire rest s conn v = expire_command-IsValid ctx s v rest
run-IsValid rt ctx Verb.incr rest s conn v = incr_command-IsValid rt ctx s v rest
run-IsValid rt ctx Verb.decr rest s conn v = decr_command-IsValid rt ctx s v rest
run-IsValid rt ctx Verb.incrby rest s conn v = incrby_command-IsValid rt ctx s v rest
run-IsValid rt ctx Verb.decrby rest s conn v = decrby_command-IsValid rt ctx s v rest
run-IsValid rt ctx Verb.mget rest s conn v = mget_command-IsValid ctx s v rest
run-IsValid rt ctx Verb.mset rest s conn v = mset_command-IsValid rt ctx s v rest
run-IsValid rt ctx Verb.auth rest s conn v = v
run-IsValid rt ctx Verb.select rest s conn v = v
run-IsValid rt ctx Verb.dbsize rest s conn v = v
run-IsValid rt ctx Verb.flushdb rest s conn v = flush_command-IsValid ctx s v _ rt rest
run-IsValid rt ctx Verb.flushall rest s conn v = flush_command-IsValid ctx s v _ rt rest
run-IsValid rt ctx Verb.info rest s conn v = v
run-IsValid rt ctx Verb.scan rest s conn v = scan_command-IsValid rt ctx s v rest
run-IsValid rt ctx Verb.client rest s conn v = v
run-IsValid rt ctx Verb.command rest s conn v = v
run-IsValid rt ctx Verb.quit rest s conn v = v
run-IsValid rt ctx Verb.setex rest s conn v = setex_command-IsValid rt ctx s v rest
run-IsValid rt ctx Verb.setnx rest s conn v = setnx_command-IsValid rt ctx s v rest
run-IsValid rt ctx Verb.getdel rest s conn v = getdel_command-IsValid ctx s v rest
run-IsValid rt ctx Verb.getex rest s conn v = getex_command-IsValid rt ctx s v rest
run-IsValid rt ctx Verb.persist rest s conn v = persist_command-IsValid ctx s v rest
run-IsValid rt ctx Verb.type rest s conn v = type_command-IsValid ctx s v rest
run-IsValid rt ctx Verb.randomkey rest s conn v = randomkey_command-IsValid ctx s v rest
run-IsValid rt ctx Verb.keys rest s conn v = keys_command-IsValid ctx s v rest

run_named-IsValid :
    (rt : Runtime) (ctx : Context) (name : Bytes) (verb : Option Verb) (rest : List Bytes)
    (s : Store) (conn : ConnState)
    → IsValid s
    → IsValid (run_named rt ctx name verb rest s conn).0
unfolding run_named
run_named-IsValid rt ctx name none rest s conn v = v
run_named-IsValid rt ctx name (some verb) rest s conn v = run-IsValid rt ctx verb rest s conn v

-- Whatever its arguments, a command leaves a well-formed store well formed: no key twice, and a
-- byte count that is the sum of the entries' sizes modulo 2 ^ 64.
pub dispatch-IsValid :
    (rt : Runtime) (ctx : Context) (args : List Bytes) (s : Store) (conn : ConnState)
    → IsValid s
    → IsValid (dispatch rt ctx args s conn).0
unfolding dispatch
dispatch-IsValid rt ctx [] s conn v = v
dispatch-IsValid rt ctx (name ∷ rest) s conn v =
    if_intro {A = Store × ConnState × Answer} (λ p. IsValid p.0)
      (gated ctx conn (verb_of (upper rt name))) (λ h. v)
      (λ h. run_named-IsValid rt ctx name (verb_of (upper rt name)) rest s conn v)

-- The names in a table of commands that pass the gate.
open_names : List (Bytes × Verb) → List Bytes
open_names [] = []
open_names ((name, verb) ∷ table) =
    let rest = open_names table in if passes_gate (some verb) then name ∷ rest else rest

-- A name that is looked up to a command that passes the gate is one of those names.
closed_to :
    (name : Bytes) (table : List (Bytes × Verb))
    → contains name (open_names table) ≡ false
    → passes_gate (lookup name table) ≡ false
unfolding open_names lookup
closed_to name [] = λ _. refl
closed_to name ((j, verb) ∷ table) =
    if_intro
      (λ names.
        contains name names ≡ false
        → passes_gate (if j == name then some verb else lookup name table) ≡ false)
      (passes_gate (some verb))
      (λ _ h.
        if_intro (λ v. passes_gate v ≡ false) (j == name) (λ e. absurd (ground (arith, h, e)))
          (λ _. closed_to name table (ground (arith, h))))
      (λ shut h.
        if_intro (λ v. passes_gate v ≡ false) (j == name) (λ _. shut) (λ _. closed_to name table h))

three_open : open_names verbs ≡ codes "HELLO" ∷ codes "AUTH" ∷ codes "QUIT" ∷ []
unfolding open_names verbs
three_open = refl

differs : (b c : Bytes) → (b == c) ≡ false → b ≢ c
differs b c h same = let equal = (eq_iff b c).1 same in cc

-- What a connection that has not authenticated gets, by the name of the command alone: AUTH, HELLO
-- and QUIT are run, and all else is refused.
abbrev pub Guarded :
    Context → Bytes → List Bytes → Store → ConnState → Store × ConnState × Answer → Type 0
Guarded ctx name rest s conn r =
    ((name ≡ codes "AUTH")
      × (r ≡ (s, (auth_command ctx rest conn).0, (auth_command ctx rest conn).1)))
    ⊎ ((name ≡ codes "HELLO") × (r ≡ (s, conn, hello_command rest)))
    ⊎ ((name ≡ codes "QUIT") × (r ≡ (s, conn, reply ok_reply)))
    ⊎ ((name ≢ codes "AUTH")
        × (name ≢ codes "HELLO")
        × (name ≢ codes "QUIT")
        × (r ≡ (s, conn, noauth)))

module _ (rt : Runtime) (ctx : Context) (password : Bytes) (s : Store) (conn : ConnState)
    (set : ctx.required_password ≡ some password) (unknown : conn.authenticated ≡ false) where
  -- `dispatch` for a name that is looked up already
  abbrev found : Bytes → Option Verb → List Bytes → Store × ConnState × Answer
  found name verb rest =
      if gated ctx conn verb then (s, conn, noauth) else run_named rt ctx name verb rest s conn

  refused :
      (name b : Bytes) (rest : List Bytes)
      → b ≢ codes "AUTH"
      → b ≢ codes "HELLO"
      → b ≢ codes "QUIT"
      → found name (verb_of b) rest ≡ (s, conn, noauth)
  unfolding verb_of
  refused name b rest not_auth not_hello not_quit =
      let shut : contains b (codes "HELLO" ∷ codes "AUTH" ∷ codes "QUIT" ∷ []) ≡ false =
        ground
          (arith, eq_iff (codes "AUTH") b, eq_iff (codes "HELLO") b, eq_iff (codes "QUIT") b) in
      let none_open : contains b (open_names verbs) ≡ false =
        subst (λ names. contains b names ≡ false) (sym three_open) shut in
      rw (set, unknown, closed_to b verbs none_open) refl

  named :
      (name b : Bytes) (verb : Verb) (rest : List Bytes) (given : Bytes)
      → verb_of given ≡ some verb
      → passes_gate (some verb) ≡ true
      → b ≡ given
      → found name (verb_of b) rest ≡ run_named rt ctx name (some verb) rest s conn
  named name b verb rest given looked passes same =
      ap (λ x. found name (verb_of x) rest) same
      ∙ ap (λ v. found name v rest) looked
      ∙ rw (set, unknown, passes) refl

  by_name :
      (name b : Bytes) (rest : List Bytes) → Guarded ctx b rest s conn (found name (verb_of b) rest)
  unfolding verb_of run_named run bytes_beq
  by_name name b rest = elim (Bool-cases (b == codes "AUTH")) [
    | inl e ↦
        let same = (eq_iff b (codes "AUTH")).0 e in
        inl (same, named name b Verb.auth rest (codes "AUTH") refl refl same)
    | inr not_auth ↦ elim (Bool-cases (b == codes "HELLO")) [
      | inl e ↦
          let same = (eq_iff b (codes "HELLO")).0 e in
          inr (inl (same, named name b Verb.hello rest (codes "HELLO") refl refl same))
      | inr not_hello ↦ elim (Bool-cases (b == codes "QUIT")) [
        | inl e ↦
            let same = (eq_iff b (codes "QUIT")).0 e in
            inr (inr (inl (same, named name b Verb.quit rest (codes "QUIT") refl refl same)))
        | inr not_quit ↦
            let a = differs b (codes "AUTH") not_auth in
            let h = differs b (codes "HELLO") not_hello in
            let q = differs b (codes "QUIT") not_quit in
            inr (inr (inr (a, h, q, refused name b rest a h q)))
      ]
    ]
  ]

-- With a password set and no AUTH yet, AUTH, HELLO and QUIT are run, which leaves the store as it
-- was, and every other command, known or not, answers NOAUTH and changes neither the store nor the
-- connection. What counts is the name in capitals.
pub dispatch-noauth :
    (rt : Runtime) (ctx : Context) (name password : Bytes) (rest : List Bytes) (s : Store)
    (conn : ConnState)
    → ctx.required_password ≡ some password
    → conn.authenticated ≡ false
    → Guarded ctx (upper rt name) rest s conn (dispatch rt ctx (name ∷ rest) s conn)
unfolding dispatch
dispatch-noauth rt ctx name password rest s conn set unknown =
    by_name rt ctx password s conn set unknown name (upper rt name) rest
