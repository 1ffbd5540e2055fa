-- ===== src/Dispatch/Connection.antt =====
-- AUTH and its constant-time comparison (crates/pg_resp/src/dispatch.rs).
pub mod Laws
use pg_resp.Prelude.{
  ℕ, zero, suc, ◌+◌, ◌*◌, ◌/◌, ◌%◌, ◌≡◌, Bool, true, false, Option, none, some, List, [], ◌∷◌,
  Bytes, codes, length, nat_beq, if◌then◌else◌,
}
use pg_resp.Proto.Reply.{Reply, error}
use pg_resp.Dispatch.Runtime.{Context, ConnState, Answer, reply, err_wrong_args}
use pg_resp.Dispatch.Strings.{ok_reply}

-- `a ^ b` and `a | b` on the lowest `w` bits.
unfoldable pub bit_xor : ℕ → ℕ → ℕ → ℕ
bit_xor zero a b = 0
bit_xor (suc w) a b = (a + b) % 2 + 2 * bit_xor w (a / 2) (b / 2)

abbrev pub either_bit : ℕ → ℕ → ℕ
either_bit a b = if nat_beq (a + b) 0 then 0 else 1

unfoldable pub bit_or : ℕ → ℕ → ℕ → ℕ
bit_or zero a b = 0
bit_or (suc w) a b = either_bit (a % 2) (b % 2) + 2 * bit_or w (a / 2) (b / 2)

-- `diff |= x ^ y` over the two texts, on a `u8`
unfoldable pub difference : ℕ → Bytes → Bytes → ℕ
difference diff (x ∷ xs) (y ∷ ys) = difference (bit_or 8 diff (bit_xor 8 x y)) xs ys
difference diff [] ys = diff
difference diff (x ∷ xs) [] = diff

unfoldable pub constant_time_eq : Bytes → Bytes → Bool
constant_time_eq a b = if nat_beq (length a) (length b) then nat_beq (difference 0 a b) 0 else false

abbrev pub try_password : Option Bytes → Bytes → ConnState → ConnState × Answer
try_password none given conn = (
  conn,
  reply (
      error (
        codes
          "ERR Client sent AUTH, but no password is set. Did you mean AUTH <username> <password>?")),
)
try_password (some expected) given conn =
    if constant_time_eq expected given then (record { authenticated = true }, reply ok_reply) else (
      conn,
      reply (error (codes "WRONGPASS invalid username-password pair or user is disabled.")),
    )

unfoldable pub auth_command : Context → List Bytes → ConnState → ConnState × Answer
auth_command ctx (given ∷ []) conn = try_password ctx.required_password given conn
auth_command ctx _ conn = (conn, reply (err_wrong_args (codes "auth")))
