-- ===== src/Dispatch/Strings/ReadBack.antt =====
-- What SET writes, GET reads.
use pg_resp.Prelude.{◌≡◌, refl, ap, ◌∙◌, none, some, [], ◌∷◌, Bytes}
use pg_resp.Proto.Reply.{bulk}
use pg_resp.Store.Types.{Store}
use pg_resp.Store.Account.{expire_if_needed}
use pg_resp.Store.Account.Valid.{IsValid, expire_if_needed-IsValid, insert_accounted-IsValid}
use pg_resp.Store.Account.View.{visible-insert_accounted_self}
use pg_resp.Store.Values
use pg_resp.Store.Values.Reads.{value_of, get-visible}
use pg_resp.Dispatch.Runtime.{Runtime, Context, reply}
use pg_resp.Dispatch.Options.{parse_set_options}
use pg_resp.Dispatch.Strings.{set_with, set_command, get_command, ok_reply}

-- A SET with no options answers OK, and a GET that follows answers the value whatever its time, however
-- tight the budget is and however the table is ordered.
pub get_command-set_command :
    (rt : Runtime) (ctx later : Context) (key value : Bytes) (s : Store)
    → IsValid s
    → ((set_command rt ctx (key ∷ value ∷ []) s).1 ≡ reply ok_reply)
      × ((get_command later (key ∷ []) (set_command rt ctx (key ∷ value ∷ []) s).0).1
          ≡ reply (bulk (some value)))
unfolding set_command set_with parse_set_options get_command Values.set
get_command-set_command rt ctx later key value s v =
    let s' = expire_if_needed key ctx.mono_now s in
    let w = expire_if_needed-IsValid key ctx.mono_now s v in
    let entry = Values.fresh value none in
    (
      refl,
      ap (λ o. reply (bulk o))
          (get-visible later.mono_now key _ (insert_accounted-IsValid rt.hash key entry s' w)
            ∙ ap value_of
                (visible-insert_accounted_self rt.hash later.mono_now key entry s' w.distinct)),
    )
