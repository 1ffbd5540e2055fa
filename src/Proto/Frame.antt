-- ===== src/Proto/Frame.antt =====
-- What commands and replies share (crates/resp-proto/src/lib.rs): the limits, the search for CRLF,
-- length prefixes, and the data of a bulk string.
use pg_resp.Prelude.{
  ℕ, suc, ◌+◌, ◌&&◌, Option, none, some, [], ◌∷◌, Bytes, codes, length, take, drop, ltb, nat_beq,
  if◌then◌else◌,
}
use pg_resp.Prelude.Int.{ℤ, pos, negsuc}

abbrev pub max_bulk_len : ℕ
max_bulk_len = 536870912

abbrev pub max_array_len : ℕ
max_array_len = 1048576

abbrev pub max_inline_len : ℕ
max_inline_len = 65536

-- A value with the bytes behind it and their position, `Incomplete`, or `Invalid` with its message.
pub data Step {ℓ} (A : Type ℓ) : Type ℓ where
  done : A → Bytes → ℕ → Step A
  incomplete : Step A
  invalid : Bytes → Step A

abbrev pub bind {ℓ κ} : {A : Type ℓ} {B : Type κ} → Step A → (A → Bytes → ℕ → Step B) → Step B
bind (done a rest at) f = f a rest at
bind incomplete f = incomplete
bind (invalid msg) f = invalid msg

abbrev pub crlf : Bytes
crlf = 13 ∷ 10 ∷ []

-- The index of the first CR LF in the bytes, of which `i` went before.
unfoldable pub find_crlf : Bytes → ℕ → Option ℕ
find_crlf [] i = none
find_crlf (c ∷ []) i = none
find_crlf (c ∷ d ∷ s) i =
    let next = find_crlf (d ∷ s) (suc i) in if nat_beq c 13 && nat_beq d 10 then some i else next

-- The line up to the CR LF found. Without one the line is too long if `used` bytes are more than
-- allowed.
unfoldable pub cut_line : Option ℕ → Bytes → ℕ → ℕ → Bytes → Step Bytes
cut_line none rest at used too_long =
    if ltb max_inline_len used then invalid too_long else incomplete
cut_line (some i) rest at used too_long = done (take i rest) (drop (i + 2) rest) (at + i + 2)

unfoldable pub read_line : Bytes → ℕ → ℕ → Bytes → Step Bytes
read_line rest at used too_long = cut_line (find_crlf rest 0) rest at used too_long

-- A length prefix: a number that is not negative and at most the limit, or a refusal.
pub data Checked : Type 0 where
  fits : ℕ → Checked
  refused : Bytes → Checked

unfoldable pub check_len : ℕ → Bytes → Bytes → Option ℤ → Checked
check_len limit bad large none = refused bad
check_len limit bad large (some (negsuc n)) = refused bad
check_len limit bad large (some (pos n)) = if ltb limit n then refused large else fits n

abbrev pub if_fits {ℓ} : {A : Type ℓ} → Checked → (ℕ → Step A) → Step A
if_fits (fits n) k = k n
if_fits (refused msg) k = invalid msg

abbrev pub bulk_len : Option ℤ → Checked
bulk_len = check_len max_bulk_len (codes "invalid bulk length") (codes "bulk length too large")

abbrev pub array_len : Option ℤ → Checked
array_len =
    check_len max_array_len (codes "invalid multibulk length") (codes "multibulk length too large")

-- The CR LF that must stand behind the data of a bulk string.
unfoldable pub close_bulk : Bytes → Bytes → ℕ → Step Bytes
close_bulk payload (c ∷ d ∷ rest) at =
    if nat_beq c 13 && nat_beq d 10
    then done payload rest at
    else invalid (codes "expected CRLF after bulk data")
close_bulk payload _ at = incomplete

-- The data of a bulk string of `len` bytes.
unfoldable pub take_bulk : ℕ → Bytes → ℕ → Step Bytes
take_bulk len rest at =
    if ltb (length rest) (len + 2)
    then incomplete
    else close_bulk (take len rest) (drop len rest) (at + len + 2)
