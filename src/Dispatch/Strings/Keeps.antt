-- ===== src/Dispatch/Strings/Keeps.antt =====
-- The arms on values keep the store well formed.
use pg_resp.Store.Account.Valid.{IsValid}
use pg_resp.Prelude.{List, [], ◌∷◌, Bytes, Option, none, some}
use pg_resp.Prelude.Int.{ℤ, checked_neg}
use pg_resp.Decimal.{parse_i64}
use pg_resp.Store.Types.{
  Store, Instant, Expiry, Result, IncrError, ok, err, not_an_integer, overflow,
}
use pg_resp.Store.Values.Valid.{
  get-IsValid, set-IsValid, get_del-IsValid, get_ex-IsValid, mget-IsValid, mset-IsValid,
  incr_by-IsValid,
}
use pg_resp.Dispatch.Runtime.{Runtime, Context, Parsed, parsed, refused, panics}
use pg_resp.Dispatch.Options.{
  SetOptions, default_options, ex, parse_deadline, parse_set_options, parse_getex_options,
}
use pg_resp.Dispatch.Strings.{
  get_command, set_with, set_command, incr_outcome, incr_reply, step_command, incr_command,
  decr_command, incr_with, incrby_command, decr_negated, decr_with, decrby_command, mget_command,
  pairs_of, mset_pairs, mset_command, setex_with, setex_command, setnx_command, getdel_command,
  getex_with, getex_command,
}

module _ (ctx : Context) (s : Store) (v : IsValid s) where
  pub get_command-IsValid : (rest : List Bytes) → IsValid (get_command ctx rest s).0
  unfolding get_command
  get_command-IsValid [] = v
  get_command-IsValid (k ∷ []) = get-IsValid ctx.mono_now k s v
  get_command-IsValid (k ∷ j ∷ _) = v

  pub mget_command-IsValid : (rest : List Bytes) → IsValid (mget_command ctx rest s).0
  unfolding mget_command
  mget_command-IsValid [] = v
  mget_command-IsValid (k ∷ ks) = mget-IsValid ctx.mono_now (k ∷ ks) s v

  pub getdel_command-IsValid : (rest : List Bytes) → IsValid (getdel_command ctx rest s).0
  unfolding getdel_command
  getdel_command-IsValid [] = v
  getdel_command-IsValid (k ∷ []) = get_del-IsValid ctx.mono_now k s v
  getdel_command-IsValid (k ∷ j ∷ _) = v

  getex_with-IsValid : (k : Bytes) (o : Parsed (Option Expiry)) → IsValid (getex_with ctx k o s).0
  unfolding getex_with
  getex_with-IsValid k (parsed x) = get_ex-IsValid ctx.mono_now k x s v
  getex_with-IsValid k (refused e) = v
  getex_with-IsValid k panics = v

module _ (rt : Runtime) (ctx : Context) (s : Store) (v : IsValid s) where
  set_with-IsValid : (k x : Bytes) (o : Parsed SetOptions) → IsValid (set_with rt ctx k x o s).0
  unfolding set_with
  set_with-IsValid k x (parsed o) = set-IsValid rt.hash ctx.mono_now k x _ _ _ s v
  set_with-IsValid k x (refused e) = v
  set_with-IsValid k x panics = v

  pub set_command-IsValid : (rest : List Bytes) → IsValid (set_command rt ctx rest s).0
  unfolding set_command
  set_command-IsValid [] = v
  set_command-IsValid (k ∷ []) = v
  set_command-IsValid (k ∷ x ∷ opts) =
      set_with-IsValid k x (parse_set_options rt ctx opts default_options)

  incr_outcome-store : (o : Store × Result ℤ IncrError) → IsValid o.0 → IsValid (incr_outcome o).0
  unfolding incr_outcome
  incr_outcome-store (t, ok n) w = w
  incr_outcome-store (t, err not_an_integer) w = w
  incr_outcome-store (t, err overflow) w = w

  incr_reply-IsValid : (k : Bytes) (d : ℤ) → IsValid (incr_reply rt ctx k d s).0
  unfolding incr_reply
  incr_reply-IsValid k d = incr_outcome-store _ (incr_by-IsValid rt.hash ctx.mono_now k d s v)

  step_command-IsValid :
      (name : Bytes) (d : ℤ) (rest : List Bytes) → IsValid (step_command name d rt ctx rest s).0
  unfolding step_command
  step_command-IsValid name d [] = v
  step_command-IsValid name d (k ∷ []) = incr_reply-IsValid k d
  step_command-IsValid name d (k ∷ j ∷ _) = v

  pub incr_command-IsValid : (rest : List Bytes) → IsValid (incr_command rt ctx rest s).0
  unfolding incr_command
  incr_command-IsValid rest = step_command-IsValid _ _ rest

  pub decr_command-IsValid : (rest : List Bytes) → IsValid (decr_command rt ctx rest s).0
  unfolding decr_command
  decr_command-IsValid rest = step_command-IsValid _ _ rest

  incr_with-IsValid : (k : Bytes) (o : Option ℤ) → IsValid (incr_with rt ctx k o s).0
  unfolding incr_with
  incr_with-IsValid k none = v
  incr_with-IsValid k (some d) = incr_reply-IsValid k d

  pub incrby_command-IsValid : (rest : List Bytes) → IsValid (incrby_command rt ctx rest s).0
  unfolding incrby_command
  incrby_command-IsValid [] = v
  incrby_command-IsValid (k ∷ []) = v
  incrby_command-IsValid (k ∷ raw ∷ []) = incr_with-IsValid k (parse_i64 raw)
  incrby_command-IsValid (k ∷ raw ∷ x ∷ _) = v

  decr_negated-IsValid : (k : Bytes) (o : Option ℤ) → IsValid (decr_negated rt ctx k o s).0
  decr_negated-IsValid k none = v
  decr_negated-IsValid k (some d) = incr_reply-IsValid k d

  decr_with-IsValid : (k : Bytes) (o : Option ℤ) → IsValid (decr_with rt ctx k o s).0
  unfolding decr_with
  decr_with-IsValid k none = v
  decr_with-IsValid k (some d) = decr_negated-IsValid k (checked_neg d)

  pub decrby_command-IsValid : (rest : List Bytes) → IsValid (decrby_command rt ctx rest s).0
  unfolding decrby_command
  decrby_command-IsValid [] = v
  decrby_command-IsValid (k ∷ []) = v
  decrby_command-IsValid (k ∷ raw ∷ []) = decr_with-IsValid k (parse_i64 raw)
  decrby_command-IsValid (k ∷ raw ∷ x ∷ _) = v

  mset_pairs-IsValid : (o : Option (List (Bytes × Bytes))) → IsValid (mset_pairs rt o s).0
  mset_pairs-IsValid none = v
  mset_pairs-IsValid (some ps) = mset-IsValid rt.hash ps s v

  pub mset_command-IsValid : (rest : List Bytes) → IsValid (mset_command rt rest s).0
  unfolding mset_command
  mset_command-IsValid [] = v
  mset_command-IsValid (k ∷ rest) = mset_pairs-IsValid (pairs_of (k ∷ rest))

  setex_with-IsValid : (k x : Bytes) (o : Parsed Instant) → IsValid (setex_with rt ctx k x o s).0
  unfolding setex_with
  setex_with-IsValid k x (parsed d) = set-IsValid rt.hash ctx.mono_now k x _ _ _ s v
  setex_with-IsValid k x (refused e) = v
  setex_with-IsValid k x panics = v

  pub setex_command-IsValid : (rest : List Bytes) → IsValid (setex_command rt ctx rest s).0
  unfolding setex_command
  setex_command-IsValid [] = v
  setex_command-IsValid (k ∷ []) = v
  setex_command-IsValid (k ∷ raw ∷ []) = v
  setex_command-IsValid (k ∷ raw ∷ x ∷ []) = setex_with-IsValid k x (parse_deadline ctx _ ex raw)
  setex_command-IsValid (k ∷ raw ∷ x ∷ y ∷ _) = v

  pub setnx_command-IsValid : (rest : List Bytes) → IsValid (setnx_command rt ctx rest s).0
  unfolding setnx_command
  setnx_command-IsValid [] = v
  setnx_command-IsValid (k ∷ []) = v
  setnx_command-IsValid (k ∷ x ∷ []) = set-IsValid rt.hash ctx.mono_now k x _ _ _ s v
  setnx_command-IsValid (k ∷ x ∷ y ∷ _) = v

  pub getex_command-IsValid : (rest : List Bytes) → IsValid (getex_command rt ctx rest s).0
  unfolding getex_command
  getex_command-IsValid [] = v
  getex_command-IsValid (k ∷ opts) = getex_with-IsValid ctx s v k (parse_getex_options rt ctx opts)
