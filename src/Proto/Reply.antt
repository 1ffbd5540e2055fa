-- ===== src/Proto/Reply.antt =====
-- Replies (crates/resp-proto/src/lib.rs): `write_to` serializes one and `parse_reply` reads one from
-- the front of a buffer.
use pg_resp.Prelude.{
  ℕ, zero, suc, ◌+◌, ◌-◌, ◌/◌, ◌%◌, Bool, true, false, Option, none, some, [], ◌∷◌, ◌++◌, Bytes,
  codes, length, ltb, nat_beq, if◌then◌else◌,
}
use pg_resp.Prelude.Int.{ℤ, negsuc}
use pg_resp.Decimal.{parse_i64, nat_to_string, to_string}
use pg_resp.Proto.Frame.{Step, done, bind, if_fits, bulk_len, array_len, take_bulk, read_line, crlf}
use pg_resp.Proto.Command.{encode_bulk, byte_as_char}

abbrev pub max_reply_depth : ℕ
max_reply_depth = 32

-- `Array(None)` is `null_array`; the items of an array are a list of replies.
mutual
  pub data Reply : Type 0 where
    simple : Bytes → Reply
    error : Bytes → Reply
    integer : ℤ → Reply
    bulk : Option Bytes → Reply
    array : Items → Reply
    null_array : Reply

  pub data Items : Type 0 where
    nil : Items
    cons : Reply → Items → Items

abbrev pub count_items : Items → ℕ
count_items nil = 0
count_items (cons r rs) = suc (count_items rs)

-- What `write_to` appends.
unfoldable mutual
  pub to_bytes : Reply → Bytes
  to_bytes (simple s) = b'+' ∷ (s ++ crlf)
  to_bytes (error s) = b'-' ∷ (s ++ crlf)
  to_bytes (integer n) = b':' ∷ (to_string n ++ crlf)
  to_bytes (bulk none) = codes "$-1" ++ crlf
  to_bytes (bulk (some payload)) = encode_bulk payload
  to_bytes null_array = codes "*-1" ++ crlf
  to_bytes (array items) =
      b'*' ∷ (nat_to_string (count_items items) ++ (crlf ++ items_to_bytes items))

  pub items_to_bytes : Items → Bytes
  items_to_bytes nil = []
  items_to_bytes (cons r rs) = to_bytes r ++ items_to_bytes rs

unfoldable pub write_to : Reply → Bytes → Bytes
write_to r out = out ++ to_bytes r

pub data ReplyOutcome : Type 0 where
  complete : Reply → ℕ → ReplyOutcome
  incomplete : ReplyOutcome
  invalid : Bytes → ReplyOutcome

abbrev hex_digit : ℕ → ℕ
hex_digit d = if ltb d 10 then b'0' + d else b'a' + d - 10

-- `{:02x}`
abbrev hex_byte : ℕ → Bytes
hex_byte c = hex_digit (c / 16) ∷ hex_digit (c % 16) ∷ []

unfoldable pub integer_reply : Option ℤ → Bytes → ℕ → Step Reply
integer_reply none rest at = Step.invalid (codes "invalid integer reply")
integer_reply (some n) rest at = done (integer n) rest at

-- `len == -1`, the only legal negative length
abbrev pub is_null : Option ℤ → Bool
is_null (some (negsuc zero)) = true
is_null _ = false

unfoldable pub bulk_reply : Option ℤ → Bytes → ℕ → Step Reply
bulk_reply n rest at =
    if is_null n
    then done (bulk none) rest at
    else if_fits (bulk_len n) (λ len.
      bind (take_bulk len rest at) (λ payload rest' at'. done (bulk (some payload)) rest' at'))

-- The `for` loop over the items, each read by `item`.
unfoldable pub parse_items : (Bytes → ℕ → Step Reply) → ℕ → Bytes → ℕ → Step Items
parse_items item zero rest at = done nil rest at
parse_items item (suc n) rest at = bind (item rest at) (λ r rest' at'.
    bind (parse_items item n rest' at') (λ rs rest'' at''. done (cons r rs) rest'' at''))

unfoldable pub array_reply : (Bytes → ℕ → Step Reply) → Option ℤ → Bytes → ℕ → Step Reply
array_reply item n rest at =
    if is_null n
    then done null_array rest at
    else if_fits (array_len n) (λ count.
      bind (parse_items item count rest at) (λ items rest' at'. done (array items) rest' at'))

-- What is made of the line behind the type byte; `item` reads a nested reply.
unfoldable pub read_reply : (Bytes → ℕ → Step Reply) → ℕ → Bytes → Bytes → ℕ → Step Reply
read_reply item sigil line rest at =
    if nat_beq sigil b'+'
    then done (simple line) rest at
    else if nat_beq sigil b'-'
    then done (error line) rest at
    else if nat_beq sigil b':'
    then integer_reply (parse_i64 line) rest at
    else if nat_beq sigil b'$'
    then bulk_reply (parse_i64 line) rest at
    else array_reply item (parse_i64 line) rest at

abbrev pub is_sigil : ℕ → Bool
is_sigil c =
    if nat_beq c b'+'
    then true
    else if nat_beq c b'-'
    then true
    else if nat_beq c b':'
    then true
    else if nat_beq c b'$'
    then true
    else nat_beq c b'*'

abbrev pub bad_sigil : ℕ → Bytes
bad_sigil c =
    codes "unexpected reply type byte '"
    ++ (byte_as_char c ++ (codes "' (0x" ++ (hex_byte c ++ codes ")")))

-- `levels` is how deep the reply at hand may still nest: `MAX_REPLY_DEPTH + 1 - depth`.
unfoldable pub parse_reply_at : ℕ → Bytes → ℕ → Step Reply
parse_reply_at zero rest at = Step.invalid (codes "reply nested deeper than 32")
parse_reply_at (suc levels) [] at = Step.incomplete
parse_reply_at (suc levels) (sigil ∷ s) at =
    let item = parse_reply_at levels in
    if is_sigil sigil
    then bind (read_line s (at + 1) (length s) (codes "reply line too long"))
        (λ line rest start. read_reply item sigil line rest start)
    else Step.invalid (bad_sigil sigil)

abbrev pub outcome : Step Reply → ReplyOutcome
outcome (done r rest at) = ReplyOutcome.complete r at
outcome Step.incomplete = ReplyOutcome.incomplete
outcome (Step.invalid msg) = ReplyOutcome.invalid msg

unfoldable pub parse_reply : Bytes → ReplyOutcome
parse_reply buf = outcome (parse_reply_at (suc max_reply_depth) buf 0)
