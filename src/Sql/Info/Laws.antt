-- ===== src/Sql/Info/Laws.antt =====
-- `resp.stats` reads back what INFO prints.
use pg_resp.Prelude.{
  bytes_eq, ℕ, ◌<◌, ◌≡◌, ◌≢◌, refl, ap, sym, ◌∙◌, arith, Option, none, some, List, [], ◌∷◌, ◌++◌,
  Bytes, codes, All, weaken-All,
}
use pg_resp.Prelude.Int.{ℤ, pos, i64_mod}
use pg_resp.Decimal.{digits, nat_to_string, parse_i64}
use pg_resp.Decimal.RoundTrip.{
  IsDigit, nat_to_string-IsDigit, nat_to_string-head, parse_i64-nat_to_string,
}
use pg_resp.Store.Types.{Stats}
use pg_resp.Dispatch.Runtime.{Runtime, Context}
use pg_resp.Dispatch.Server.{info_text, or_zero}
use pg_resp.Sql.Info.{
  lines, trim_end_cr, strip_prefix, trim_marks, line_field, first_field, parse_info_field,
  stats_row,
}

abbrev pub NoLf : Bytes → Type 0
NoLf = All (λ c. c ≢ 10)

NoLf-nat_to_string : (n : ℕ) → NoLf (nat_to_string n)
NoLf-nat_to_string n =
    weaken-All (nat_to_string n) (λ c (a, b). omega arith) (nat_to_string-IsDigit n)

lines-line : (s rest : Bytes) → NoLf s → lines (s ++ (13 ∷ 10 ∷ rest)) ≡ (s ++ 13 ∷ []) ∷ lines rest
unfolding lines
lines-line [] rest h = refl
lines-line (c ∷ s) rest (a, h) = ground (arith, lines-line s rest h)

trim_end_cr-digits : (s : Bytes) → All IsDigit s → trim_end_cr (s ++ 13 ∷ []) ≡ s
unfolding trim_end_cr
trim_end_cr-digits [] h = refl
trim_end_cr-digits (c ∷ s) ((a, b), h) = ground (arith, trim_end_cr-digits s h)

trim_marks-digit : (c : ℕ) (s : Bytes) → IsDigit c → trim_marks (c ∷ s) ≡ c ∷ s
unfolding trim_marks
trim_marks-digit c s (a, b) = ground arith

trim_marks-nat_to_string : (n : ℕ) → trim_marks (nat_to_string n) ≡ nat_to_string n
trim_marks-nat_to_string n =
    let (c, s, p, d) = nat_to_string-head n in ap trim_marks p ∙ trim_marks-digit c s d ∙ sym p

abbrev entry : Bytes → Bytes → Bytes
entry name value = name ++ (b':' ∷ value) ++ 13 ∷ []

abbrev limit : Option ℕ → ℕ
limit none = 0
limit (some n) = n

or_zero-limit : (o : Option ℕ) → or_zero o ≡ nat_to_string (limit o)
unfolding nat_to_string digits
or_zero-limit none = refl
or_zero-limit (some n) = refl

module _ (rt : Runtime) (ctx : Context) (st : Stats) where
  abbrev info_lines : List Bytes
  info_lines =
      (codes "# Server" ++ 13 ∷ [])
      ∷ entry (codes "redis_version") (codes "7.0.0")
      ∷ entry (codes "pg_resp_version") rt.pkg_version
      ∷ (codes "# Memory" ++ 13 ∷ [])
      ∷ entry (codes "used_memory") (nat_to_string st.used_bytes)
      ∷ entry (codes "maxmemory") (or_zero st.max_memory_bytes)
      ∷ (codes "# Stats" ++ 13 ∷ [])
      ∷ entry (codes "keyspace_hits") (nat_to_string st.hits)
      ∷ entry (codes "keyspace_misses") (nat_to_string st.misses)
      ∷ entry (codes "evicted_keys") (nat_to_string st.evictions)
      ∷ entry (codes "invalidations_lost") (nat_to_string ctx.invalidations_lost)
      ∷ (codes "# Keyspace" ++ 13 ∷ [])
      ∷ entry (codes "db0") (codes "keys=" ++ nat_to_string st.keys)
      ∷ []

  NoLf-or_zero : (o : Option ℕ) → NoLf (or_zero o)
  NoLf-or_zero none = (omega arith, tt)
  NoLf-or_zero (some n) = NoLf-nat_to_string n

  lines-info_text : NoLf rt.pkg_version → lines (info_text rt ctx st) ≡ info_lines
  unfolding info_text lines
  lines-info_text h =
      let number =
        λ (n : ℕ) (rest : Bytes). lines-line (nat_to_string n) rest (NoLf-nat_to_string n) in
      rw
        (
          λ (rest : Bytes). lines-line rt.pkg_version rest h,
          number st.used_bytes,
          λ (rest : Bytes).
              lines-line (or_zero st.max_memory_bytes) rest (NoLf-or_zero st.max_memory_bytes),
          number st.hits,
          number st.misses,
          number st.evictions,
          number ctx.invalidations_lost,
          number st.keys,
        )
        refl

-- The counters are in the range of `i64`, and the version has no line feed.
abbrev pub Printable : Runtime → Context → Stats → Type 0
Printable rt ctx st =
    NoLf rt.pkg_version
    × (st.keys < i64_mod)
    × (st.used_bytes < i64_mod)
    × (limit st.max_memory_bytes < i64_mod)
    × (st.hits < i64_mod)
    × (st.misses < i64_mod)
    × (st.evictions < i64_mod)
    × (ctx.invalidations_lost < i64_mod)

abbrev pub row : Context → Stats → List ℤ
row ctx st =
    pos st.keys
    ∷ pos st.used_bytes
    ∷ pos (limit st.max_memory_bytes)
    ∷ pos st.hits
    ∷ pos st.misses
    ∷ pos st.evictions
    ∷ pos ctx.invalidations_lost
    ∷ []

module _ (trim : Bytes → Bytes) (plain : (s : Bytes) → All IsDigit s → trim s ≡ s) where
  read_value :
      (n : ℕ)
      → n < i64_mod
      → parse_i64 (trim (trim_marks (trim_end_cr (nat_to_string n ++ 13 ∷ [])))) ≡ some (pos n)
  read_value n h =
      ap (λ s. parse_i64 (trim (trim_marks s)))
        (trim_end_cr-digits (nat_to_string n) (nat_to_string-IsDigit n))
      ∙ ap (λ s. parse_i64 (trim s)) (trim_marks-nat_to_string n)
      ∙ ap parse_i64 (plain (nat_to_string n) (nat_to_string-IsDigit n))
      ∙ parse_i64-nat_to_string n h

  -- `resp.stats` shows what INFO prints, field by field: the store's counters, 0 for no memory limit,
  -- and the invalidations that were lost. `trim` leaves a text of digits as it is.
  pub stats_row-info_text :
      (rt : Runtime) (ctx : Context) (st : Stats)
      → Printable rt ctx st
      → stats_row trim (info_text rt ctx st) ≡ row ctx st
  unfolding stats_row parse_info_field first_field line_field strip_prefix trim_marks trim_end_cr
  stats_row-info_text rt ctx st (version, keys, used, top, hits, misses, evictions, lost) =
      let limit_value =
        ap (λ s. parse_i64 (trim (trim_marks (trim_end_cr (s ++ 13 ∷ [])))))
          (or_zero-limit st.max_memory_bytes)
        ∙ read_value (limit st.max_memory_bytes) top in
      rw
        (
          lines-info_text rt ctx st version,
          read_value st.keys keys,
          read_value st.used_bytes used,
          limit_value,
          read_value st.hits hits,
          read_value st.misses misses,
          read_value st.evictions evictions,
          read_value ctx.invalidations_lost lost,
        )
        refl
