-- ===== src/Dispatch/Scanning.antt =====
-- The SCAN arm of `dispatch` and its options (crates/pg_resp/src/dispatch.rs).
use pg_resp.Prelude.{
  bytes_eq, ◌==◌, ℕ, Bool, true, Option, none, some, List, [], ◌∷◌, Bytes, codes, keep_if,
  if◌then◌else◌,
}
use pg_resp.Prelude.Int.{ℤ, pos_part, is_positive}
use pg_resp.Decimal.{parse_i64, parse_u64, nat_to_string}
use pg_resp.Proto.Reply.{error, bulk, array}
use pg_resp.Store.Types.{Store}
use pg_resp.Store.Keyspace
use pg_resp.Store.Account.Valid.{IsValid}
use pg_resp.Glob.{glob_match}
use pg_resp.Dispatch.Runtime.{
  Runtime, Context, Answer, panic, Parsed, parsed, refused, panics, upper, err_wrong_args,
  err_not_integer, err_syntax,
}
use pg_resp.Dispatch.Strings.{said, items}
use pg_resp.Dispatch.Server.{bulks}

pub record ScanOptions : Type 0 where
  pub pattern : Option Bytes
  pub count : ℕ

abbrev pub default_scan : ScanOptions
default_scan = record { pattern = none; count = 10 }

abbrev pub scan_count : Option ℤ → ScanOptions → Parsed ScanOptions
scan_count none o = refused err_not_integer
scan_count (some n) o =
    if is_positive n then parsed (record o { count = pos_part n }) else refused err_syntax

-- The options with MATCH or COUNT and its argument.
unfoldable pub scan_option : Bytes → Bytes → ScanOptions → Parsed ScanOptions
scan_option token raw o =
    if token == codes "MATCH"
    then parsed (record o { pattern = some raw })
    else if token == codes "COUNT"
    then scan_count (parse_i64 raw) o
    else refused err_syntax

unfoldable pub parse_scan_options : Runtime → List Bytes → ScanOptions → Parsed ScanOptions
parse_scan_options rt [] o = parsed o
parse_scan_options rt (t ∷ []) o =
    if upper rt t == codes "COUNT" then refused err_not_integer else refused err_syntax
parse_scan_options rt (t ∷ raw ∷ opts) o = elim (scan_option (upper rt t) raw o) [
  | parsed o' ↦ parse_scan_options rt opts o'
  | refused e ↦ refused e
  | panics ↦ panics
]

abbrev pub matches : Option Bytes → Bytes → Bool
matches none k = true
matches (some p) k = glob_match p k

abbrev pub scan_reply : Option Bytes → Store × ℕ × List Bytes → Store × Answer
scan_reply pattern (s, next, page) =
    said
      (array
        (items (bulk (some (nat_to_string next)) ∷ bulks (keep_if (matches pattern) page) ∷ [])))
      s

unfoldable pub scan_with : Runtime → Context → ℕ → Parsed ScanOptions → Store → Store × Answer
scan_with rt ctx cursor (parsed o) s =
    scan_reply o.pattern (Keyspace.scan rt.hash ctx.mono_now cursor o.count s)
scan_with rt ctx cursor (refused e) s = said e s
scan_with rt ctx cursor panics s = (s, panic)

unfoldable pub scan_from : Runtime → Context → Option ℕ → List Bytes → Store → Store × Answer
scan_from rt ctx none opts s = said (error (codes "ERR invalid cursor")) s
scan_from rt ctx (some cursor) opts s =
    scan_with rt ctx cursor (parse_scan_options rt opts default_scan) s

unfoldable pub scan_command : Runtime → Context → List Bytes → Store → Store × Answer
scan_command rt ctx [] s = said (err_wrong_args (codes "scan")) s
scan_command rt ctx (raw ∷ opts) s = scan_from rt ctx (parse_u64 raw) opts s

module _ (rt : Runtime) (ctx : Context) (s : Store) (v : IsValid s) where
  scan_with-IsValid : (n : ℕ) (o : Parsed ScanOptions) → IsValid (scan_with rt ctx n o s).0
  unfolding scan_with Keyspace.scan
  scan_with-IsValid n (parsed o) = record { distinct = v.distinct; accounted = v.accounted }
  scan_with-IsValid n (refused e) = v
  scan_with-IsValid n panics = v

  scan_from-IsValid : (o : Option ℕ) (opts : List Bytes) → IsValid (scan_from rt ctx o opts s).0
  unfolding scan_from
  scan_from-IsValid none opts = v
  scan_from-IsValid (some n) opts = scan_with-IsValid n (parse_scan_options rt opts default_scan)

  pub scan_command-IsValid : (rest : List Bytes) → IsValid (scan_command rt ctx rest s).0
  unfolding scan_command
  scan_command-IsValid [] = v
  scan_command-IsValid (raw ∷ opts) = scan_from-IsValid (parse_u64 raw) opts
