-- ===== src/Glob.antt =====
-- crates/pg_resp/src/glob.rs: the patterns of KEYS and of SCAN's MATCH.
pub mod Classes
pub mod Meaning
pub mod Decides
use pg_resp.Prelude.{
  ℕ, zero, suc, Bool, true, false, not, ◌&&◌, ◌||◌, Option, none, some, [], ◌∷◌, Bytes, length, ltb,
  leb, nat_beq, if◌then◌else◌,
}

abbrev pub is_empty : Bytes → Bool
is_empty [] = true
is_empty (c ∷ s) = false

-- `subject == Some(c)`
abbrev pub is_char : Option ℕ → ℕ → Bool
is_char none c = false
is_char (some d) c = nat_beq d c

-- `c >= lo && c <= hi` with the ends put in order
abbrev pub in_range : Option ℕ → ℕ → ℕ → Bool
in_range none lo hi = false
in_range (some c) lo hi = if ltb hi lo then leb hi c && leb c lo else leb lo c && leb c hi

-- The `loop` of `match_class`: whether the subject was met, and the pattern behind the class.
unfoldable pub class_loop : Option ℕ → Bytes → Bool → Bool × Bytes
class_loop subject [] matched = (matched, [])
class_loop subject (c ∷ []) matched =
    if nat_beq c b']' then (matched, []) else (matched || is_char subject c, [])
class_loop subject (c ∷ d ∷ []) matched =
    let literal = class_loop subject (d ∷ []) (matched || is_char subject c) in
    if nat_beq c b']'
    then (matched, d ∷ [])
    else if nat_beq c 92
    then (matched || is_char subject d, [])
    else literal
class_loop subject (c ∷ d ∷ e ∷ p) matched =
    let escaped = class_loop subject (e ∷ p) (matched || is_char subject d) in
    let ranged = class_loop subject p (matched || in_range subject c e) in
    let literal = class_loop subject (d ∷ e ∷ p) (matched || is_char subject c) in
    if nat_beq c b']'
    then (matched, d ∷ e ∷ p)
    else if nat_beq c 92
    then escaped
    else if nat_beq d b'-' && not (nat_beq e b']')
    then ranged
    else literal

abbrev pub negated : Bytes → Bool
negated [] = false
negated (c ∷ p) = nat_beq c b'^'

abbrev pub behind_caret : Bytes → Bytes
behind_caret [] = []
behind_caret (c ∷ p) = if nat_beq c b'^' then p else c ∷ p

unfoldable pub match_class : Bytes → Option ℕ → Bool × Bytes
match_class p subject =
    let (matched, rest) = class_loop subject (behind_caret p) false in
    (if negated p then not matched else matched, rest)

-- the stars that follow a star
unfoldable pub skip_stars : Bytes → Bytes
skip_stars [] = []
skip_stars (c ∷ p) = let rest = skip_stars p in if nat_beq c b'*' then rest else c ∷ p

-- `for i in 0..=s.len()`: whether some suffix of the text passes
unfoldable pub any_suffix : (Bytes → Bool) → Bytes → Bool
any_suffix f [] = f []
any_suffix f (c ∷ s) = elim (f (c ∷ s)) [ true ↦ true | false ↦ any_suffix f s ]

unfoldable pub match_star : (Bytes → Bytes → Bool) → Bytes → Bytes → Bool
match_star next [] s = true
match_star next (c ∷ p) s = any_suffix (next (c ∷ p)) s

unfoldable pub match_any : (Bytes → Bool) → Bytes → Bool
match_any next [] = false
match_any next (c ∷ s) = next s

unfoldable pub match_literal : ℕ → (Bytes → Bool) → Bytes → Bool
match_literal c next [] = false
match_literal c next (d ∷ s) = if nat_beq c d then next s else false

unfoldable pub match_set : (Bytes → Bytes → Bool) → Bytes → Bytes → Bool
match_set next p [] = false
match_set next p (c ∷ s) =
    let (matched, rest) = match_class p (some c) in if matched then next rest s else false

-- A backslash escapes the byte behind it; at the end it stands for itself.
unfoldable pub match_escape : (Bytes → Bytes → Bool) → Bytes → Bytes → Bool
match_escape next [] s = match_literal 92 (next []) s
match_escape next (c ∷ p) s = match_literal c (next p) s

-- Each round takes a byte or more off the pattern, which bounds the rounds.
unfoldable pub glob_rounds : ℕ → Bytes → Bytes → Bool
glob_rounds zero p s = false
glob_rounds (suc f) [] s = is_empty s
glob_rounds (suc f) (c ∷ p) s =
    let next = glob_rounds f in
    if nat_beq c b'*'
    then match_star next (skip_stars p) s
    else if nat_beq c b'?'
    then match_any (next p) s
    else if nat_beq c b'['
    then match_set next p s
    else if nat_beq c 92
    then match_escape next p s
    else match_literal c (next p) s

unfoldable pub glob_match : Bytes → Bytes → Bool
glob_match pattern text = glob_rounds (suc (length pattern)) pattern text
