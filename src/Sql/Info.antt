-- ===== src/Sql/Info.antt =====
-- `parse_info_field` and the row of `resp.stats` (crates/pg_resp/src/sql.rs). `str::trim` goes by
-- Unicode's white space, which is a parameter.

pub mod Laws
use pg_resp.Prelude.{
  bytes_eq, ◌==◌, ℕ, zero, suc, ◌||◌, ◌&&◌, Bool, true, false, Option, none, some, List, [], ◌∷◌,
  ◌++◌, Bytes, codes, nat_beq, if◌then◌else◌,
}
use pg_resp.Prelude.Int.{ℤ, pos}
use pg_resp.Decimal.{parse_i64}

abbrev pub push_head : ℕ → List Bytes → List Bytes
push_head c [] = (c ∷ []) ∷ []
push_head c (l ∷ ls) = (c ∷ l) ∷ ls

-- `info.lines()`; the carriage returns that end a line are left to `trim_end_cr`.
unfoldable pub lines : Bytes → List Bytes
lines [] = []
lines (c ∷ s) = let ls = lines s in if nat_beq c 10 then [] ∷ ls else push_head c ls

abbrev pub is_empty : Bytes → Bool
is_empty [] = true
is_empty (c ∷ s) = false

-- `line.trim_end_matches('\r')`
unfoldable pub trim_end_cr : Bytes → Bytes
trim_end_cr [] = []
trim_end_cr (c ∷ s) = let t = trim_end_cr s in if nat_beq c 13 && is_empty t then [] else c ∷ t

unfoldable pub strip_prefix : Bytes → Bytes → Option Bytes
strip_prefix [] s = some s
strip_prefix (p ∷ ps) [] = none
strip_prefix (p ∷ ps) (c ∷ s) = let rest = strip_prefix ps s in if nat_beq p c then rest else none

-- `rest.trim_start_matches([':', '='])`
unfoldable pub trim_marks : Bytes → Bytes
trim_marks [] = []
trim_marks (c ∷ s) =
    let rest = trim_marks s in if nat_beq c b':' || nat_beq c b'=' then rest else c ∷ s

module _ (trim : Bytes → Bytes) where
  abbrev pub marked_value : Option Bytes → Option ℤ
  marked_value none = none
  marked_value (some rest) = parse_i64 (trim (trim_marks rest))

  unfoldable pub line_field : Bytes → Bytes → Option ℤ
  line_field field line = marked_value (strip_prefix field (trim_end_cr line))

  abbrev pub or_else : Option ℤ → Option ℤ → Option ℤ
  or_else none later = later
  or_else (some value) later = some value

  unfoldable pub first_field : Bytes → List Bytes → Option ℤ
  first_field field [] = none
  first_field field (line ∷ ls) = or_else (line_field field line) (first_field field ls)

  unfoldable pub parse_info_field : Bytes → Bytes → Option ℤ
  parse_info_field info field = first_field field (lines info)

  abbrev pub value_or_zero : Option ℤ → ℤ
  value_or_zero none = pos 0
  value_or_zero (some value) = value

  abbrev pub field_of : Bytes → Bytes → ℤ
  field_of text name = value_or_zero (parse_info_field text name)

  -- keys, used_bytes, max_memory_bytes, keyspace_hits, keyspace_misses, evicted_keys and
  -- invalidations_lost
  unfoldable pub stats_row : Bytes → List ℤ
  stats_row text =
      field_of text (codes "db0:keys")
      ∷ field_of text (codes "used_memory")
      ∷ field_of text (codes "maxmemory")
      ∷ field_of text (codes "keyspace_hits")
      ∷ field_of text (codes "keyspace_misses")
      ∷ field_of text (codes "evicted_keys")
      ∷ field_of text (codes "invalidations_lost")
      ∷ []
