-- ===== src/Proto/Command.antt =====
-- Requests (crates/resp-proto/src/lib.rs): `parse_command` reads one from the front of a buffer and
-- `encode_command` writes one.
use pg_resp.Prelude.{
  ℕ, zero, suc, ◌+◌, ◌/◌, ◌%◌, Bool, true, false, List, [], ◌∷◌, ◌++◌, Bytes, codes, length,
  keep_if, ltb, nat_beq, if◌then◌else◌,
}
use pg_resp.Decimal.{parse_i64, nat_to_string}
use pg_resp.Proto.Frame.{Step, done, bind, if_fits, bulk_len, array_len, take_bulk, read_line, crlf}

pub data ParseOutcome : Type 0 where
  complete : List Bytes → ℕ → ParseOutcome
  incomplete : ParseOutcome
  invalid : Bytes → ParseOutcome

-- `byte as char`, printed: the code point of that number in UTF-8.
unfoldable pub byte_as_char : ℕ → Bytes
byte_as_char c = if ltb c 128 then c ∷ [] else (192 + c / 64) ∷ (128 + c % 64) ∷ []

-- One argument: `$`, its length, its data.
unfoldable pub parse_arg : Bytes → ℕ → Step Bytes
parse_arg [] at = Step.incomplete
parse_arg (c ∷ s) at =
    if nat_beq c b'$'
    then bind (read_line s (at + 1) (suc (length s)) (codes "bulk length line too long"))
        (λ line rest start. if_fits (bulk_len (parse_i64 line)) (λ len. take_bulk len rest start))
    else Step.invalid (codes "expected '$', got '" ++ byte_as_char c ++ codes "'")

-- The `for` loop over the arguments.
unfoldable pub parse_args : ℕ → Bytes → ℕ → Step (List Bytes)
parse_args zero rest at = done [] rest at
parse_args (suc n) rest at = bind (parse_arg rest at) (λ arg rest' at'.
    bind (parse_args n rest' at') (λ args rest'' at''. done (arg ∷ args) rest'' at''))

abbrev pub outcome : Step (List Bytes) → ParseOutcome
outcome (done args rest at) = complete args at
outcome Step.incomplete = ParseOutcome.incomplete
outcome (Step.invalid msg) = ParseOutcome.invalid msg

-- `s` is the buffer behind its `*`.
unfoldable pub parse_array_command : Bytes → ParseOutcome
parse_array_command s = outcome (
    bind (read_line s 1 (suc (length s)) (codes "count line too long")) (λ line rest start.
      if_fits (array_len (parse_i64 line)) (λ count. parse_args count rest start)))

abbrev pub cons_head : ℕ → List Bytes → List Bytes
cons_head c [] = (c ∷ []) ∷ []
cons_head c (t ∷ ts) = (c ∷ t) ∷ ts

-- `line.split(|&b| b == b' ')`
unfoldable pub split_spaces : Bytes → List Bytes
split_spaces [] = [] ∷ []
split_spaces (c ∷ s) = let ts = split_spaces s in if nat_beq c b' ' then [] ∷ ts else cons_head c ts

abbrev pub is_nonempty : Bytes → Bool
is_nonempty [] = false
is_nonempty (c ∷ s) = true

unfoldable pub parse_inline_command : Bytes → ParseOutcome
parse_inline_command buf = outcome (
    bind (read_line buf 0 (length buf) (codes "inline command too long"))
      (λ line rest start. done (keep_if is_nonempty (split_spaces line)) rest start))

unfoldable pub parse_command : Bytes → ParseOutcome
parse_command [] = ParseOutcome.incomplete
parse_command (c ∷ s) =
    if nat_beq c b'*' then parse_array_command s else parse_inline_command (c ∷ s)

-- `$<len>\r\n<data>\r\n`
unfoldable pub encode_bulk : Bytes → Bytes
encode_bulk payload = b'$' ∷ (nat_to_string (length payload) ++ (crlf ++ (payload ++ crlf)))

unfoldable pub encode_args : List Bytes → Bytes
encode_args [] = []
encode_args (arg ∷ args) = encode_bulk arg ++ encode_args args

unfoldable pub encode_command_into : List Bytes → Bytes → Bytes
encode_command_into args out =
    out ++ b'*' ∷ (nat_to_string (length args) ++ (crlf ++ encode_args args))

unfoldable pub encode_command : List Bytes → Bytes
encode_command args = encode_command_into args []
