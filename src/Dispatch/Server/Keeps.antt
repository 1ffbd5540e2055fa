-- ===== src/Dispatch/Server/Keeps.antt =====
-- The arms on keys, deadlines and the server keep the store well formed.
use pg_resp.Prelude.{if_intro, List, [], ◌∷◌, Bytes, bytes_eq, ◌==◌, ◌||◌, codes}
use pg_resp.Decimal.{parse_i64}
use pg_resp.Store.Types.{Store, Instant}
use pg_resp.Store.Keyspace.{exists}
use pg_resp.Store.Expire.{ttl_seconds, pttl_millis}
use pg_resp.Store.Account.Valid.{IsValid, expire_if_needed-IsValid}
use pg_resp.Store.Keyspace.Laws.{del-IsValid, clear-visible, random_key-IsValid}
use pg_resp.Store.Expire.Laws.{persist-IsValid, expire-IsValid}
use pg_resp.Dispatch.Runtime.{Runtime, Context, Answer, Parsed, parsed, refused, panics, upper}
use pg_resp.Dispatch.Server.{
  del_command, exists_command, ttl_command, pttl_command, expire_deadline, expire_with,
  expire_command, persist_command, type_command, randomkey_command, keys_command, flush_command,
}

module _ (ctx : Context) (s : Store) (v : IsValid s) where
  pub del_command-IsValid : (rest : List Bytes) → IsValid (del_command ctx rest s).0
  unfolding del_command
  del_command-IsValid [] = v
  del_command-IsValid (k ∷ ks) = del-IsValid ctx.mono_now (k ∷ ks) s v

  exists-IsValid :
      (now : Instant) (ks : List Bytes) (t : Store) → IsValid t → IsValid (exists now ks t).0
  unfolding exists
  exists-IsValid now [] t w = w
  exists-IsValid now (k ∷ ks) t w = exists-IsValid now ks _ (expire_if_needed-IsValid k now t w)

  pub exists_command-IsValid : (rest : List Bytes) → IsValid (exists_command ctx rest s).0
  unfolding exists_command
  exists_command-IsValid [] = v
  exists_command-IsValid (k ∷ ks) = exists-IsValid ctx.mono_now (k ∷ ks) s v

  pub ttl_command-IsValid : (rest : List Bytes) → IsValid (ttl_command ctx rest s).0
  unfolding ttl_command ttl_seconds
  ttl_command-IsValid [] = v
  ttl_command-IsValid (k ∷ []) = expire_if_needed-IsValid k ctx.mono_now s v
  ttl_command-IsValid (k ∷ j ∷ _) = v

  pub pttl_command-IsValid : (rest : List Bytes) → IsValid (pttl_command ctx rest s).0
  unfolding pttl_command pttl_millis
  pttl_command-IsValid [] = v
  pttl_command-IsValid (k ∷ []) = expire_if_needed-IsValid k ctx.mono_now s v
  pttl_command-IsValid (k ∷ j ∷ _) = v

  expire_with-IsValid : (k : Bytes) (o : Parsed Instant) → IsValid (expire_with ctx k o s).0
  unfolding expire_with
  expire_with-IsValid k (parsed d) = expire-IsValid ctx.mono_now k d s v
  expire_with-IsValid k (refused e) = v
  expire_with-IsValid k panics = v

  pub expire_command-IsValid : (rest : List Bytes) → IsValid (expire_command ctx rest s).0
  unfolding expire_command
  expire_command-IsValid [] = v
  expire_command-IsValid (k ∷ []) = v
  expire_command-IsValid (k ∷ raw ∷ []) =
      expire_with-IsValid k (expire_deadline ctx (parse_i64 raw))
  expire_command-IsValid (k ∷ raw ∷ x ∷ _) = v

  pub persist_command-IsValid : (rest : List Bytes) → IsValid (persist_command ctx rest s).0
  unfolding persist_command
  persist_command-IsValid [] = v
  persist_command-IsValid (k ∷ []) = persist-IsValid ctx.mono_now k s v
  persist_command-IsValid (k ∷ j ∷ _) = v

  pub type_command-IsValid : (rest : List Bytes) → IsValid (type_command ctx rest s).0
  unfolding type_command
  type_command-IsValid [] = v
  type_command-IsValid (k ∷ []) = exists-IsValid ctx.mono_now (k ∷ []) s v
  type_command-IsValid (k ∷ j ∷ _) = v

  pub randomkey_command-IsValid : (rest : List Bytes) → IsValid (randomkey_command ctx rest s).0
  unfolding randomkey_command
  randomkey_command-IsValid [] = random_key-IsValid ctx.mono_now s v
  randomkey_command-IsValid (k ∷ _) = v

  pub keys_command-IsValid : (rest : List Bytes) → IsValid (keys_command ctx rest s).0
  unfolding keys_command
  keys_command-IsValid [] = v
  keys_command-IsValid (k ∷ []) = v
  keys_command-IsValid (k ∷ j ∷ _) = v

  pub flush_command-IsValid :
      (name : Bytes) (rt : Runtime) (rest : List Bytes) → IsValid (flush_command name rt rest s).0
  unfolding flush_command
  flush_command-IsValid name rt [] = (clear-visible ctx.mono_now [] s).1
  flush_command-IsValid name rt (mode ∷ []) =
      if_intro {A = Store × Answer} (λ p. IsValid p.0)
        ((upper rt mode == codes "ASYNC") || (upper rt mode == codes "SYNC"))
        (λ h. (clear-visible ctx.mono_now [] s).1) (λ h. v)
  flush_command-IsValid name rt (x ∷ y ∷ _) = v
