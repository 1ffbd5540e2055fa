-- ===== src/Dispatch/Strings/Panics.antt =====
-- SET with EX and a deadline that an `Instant` cannot hold.
use pg_resp.Prelude.{
  bytes_eq, bytes_beq, ℕ, ◌+◌, ◌*◌, ◌<◌, ◌≤◌, ◌≡◌, refl, ap, ◌∙◌, arith, none, [], ◌∷◌, Bytes,
  codes, ltb, if_intro,
}
use pg_resp.Prelude.Int.{pos, i64_mod}
use pg_resp.Decimal.{nat_to_string}
use pg_resp.Decimal.RoundTrip.{parse_i64-nat_to_string}
use pg_resp.HashMap.{lookup}
use pg_resp.Store.Types.{Store, nanos_per_sec}
use pg_resp.Dispatch.Runtime.{Runtime, Context, panic, panics, upper, add_duration}
use pg_resp.Dispatch.Options.{
  ex, deadline, positive_deadline, parse_deadline, parse_set_options, set_step, set_tokens,
  or_panic,
}
use pg_resp.Dispatch.Strings.{set_with, set_command}

deadline_out :
    (ctx : Context) (n : ℕ)
    → i64_mod * nanos_per_sec ≤ ctx.mono_now + n * nanos_per_sec
    → deadline ctx ex (pos n) ≡ none
unfolding deadline add_duration
deadline_out ctx n far = ground arith

parse_deadline_out :
    (ctx : Context) (cmd : Bytes) (n : ℕ)
    → 0 < n
    → n < i64_mod
    → i64_mod * nanos_per_sec ≤ ctx.mono_now + n * nanos_per_sec
    → parse_deadline ctx cmd ex (nat_to_string n) ≡ panics
unfolding parse_deadline
parse_deadline_out ctx cmd n positive small far =
    ap (positive_deadline ctx cmd ex) (parse_i64-nat_to_string n small)
    ∙ if_intro (λ p. p ≡ panics) (ltb 0 n) (λ _. ap or_panic (deadline_out ctx n far))
        (λ zero. ground arith)

-- `SET key value EX n` with a positive `i64` number of seconds that takes the clock to 2^63 seconds
-- or beyond panics, and leaves the store as it was.
pub set_command-panic :
    (rt : Runtime) (ctx : Context) (key value : Bytes) (n : ℕ) (s : Store)
    → 0 < n
    → n < i64_mod
    → i64_mod * nanos_per_sec ≤ ctx.mono_now + n * nanos_per_sec
    → set_command rt ctx (key ∷ value ∷ codes "EX" ∷ nat_to_string n ∷ []) s ≡ (s, panic)
unfolding set_command set_with parse_set_options set_step set_tokens lookup upper bytes_beq
set_command-panic rt ctx key value n s positive small far =
    rw (parse_deadline_out ctx (codes "set") n positive small far, set_command, parse_set_options)
      refl
