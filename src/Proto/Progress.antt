-- ===== src/Proto/Progress.antt =====
-- How far the parser of requests goes: forward, and not past the end of the buffer.
use mathlib.Core.Path.{subst}
use pg_resp.Prelude.{
  ℕ, zero, suc, ◌+◌, ◌≤◌, ◌<◌, ◌≡◌, refl, ◌∙◌, arith, Option, none, some, List, [], ◌∷◌, Bytes,
  codes, length, take, drop, ltb, nat_beq, if_intro, length-drop, keep_if, ◌&&◌,
}
use pg_resp.Decimal.{parse_i64}
use pg_resp.Proto.Frame.{
  Step, done, bind, find_crlf, cut_line, read_line, Checked, fits, refused, if_fits, bulk_len,
  array_len, close_bulk, take_bulk, max_inline_len,
}
use pg_resp.Proto.Command.{
  ParseOutcome, complete, parse_arg, parse_args, outcome, parse_array_command, parse_inline_command,
  parse_command, split_spaces, is_nonempty,
}

-- A result stands at `lo` or further, and the bytes behind it end where the buffer ends, at `hi`.
abbrev pub Moves : {A : Type 0} → ℕ → ℕ → Step A → Type 0
Moves lo hi (done a rest at) = (lo ≤ at) × (at + length rest ≡ hi)
Moves lo hi Step.incomplete = Unit
Moves lo hi (Step.invalid msg) = Unit

pub Moves-slide :
    {A : Type 0} (lo lo' hi hi' : ℕ) (r : Step A)
    → lo' ≤ lo
    → hi ≡ hi'
    → Moves lo hi r
    → Moves lo' hi' r
Moves-slide lo lo' hi hi' (done a s b) le e h = (omega (arith, h.0), h.1 ∙ e)
Moves-slide lo lo' hi hi' Step.incomplete le e h = tt
Moves-slide lo lo' hi hi' (Step.invalid msg) le e h = tt

pub bind-Moves :
    {A B : Type 0} (lo lo' hi : ℕ) (m : Step A) (f : A → Bytes → ℕ → Step B)
    → Moves lo hi m
    → ((a : A) (rest : Bytes) (at : ℕ)
        → lo ≤ at
        → at + length rest ≡ hi
        → Moves lo' hi (f a rest at))
    → Moves lo' hi (bind m f)
bind-Moves lo lo' hi (done a rest at) f h k = k a rest at h.0 h.1
bind-Moves lo lo' hi Step.incomplete f h k = tt
bind-Moves lo lo' hi (Step.invalid msg) f h k = tt

pub if_fits-Moves :
    {A : Type 0} (lo hi : ℕ) (c : Checked) (k : ℕ → Step A)
    → ((n : ℕ) → Moves lo hi (k n))
    → Moves lo hi (if_fits c k)
if_fits-Moves lo hi (fits n) k h = h n
if_fits-Moves lo hi (refused msg) k h = tt

abbrev pub Within : Bytes → ℕ → Option ℕ → Type 0
Within s i none = Unit
Within s i (some j) = j + 2 ≤ i + length s

pub find_crlf-Within : (s : Bytes) (i : ℕ) → Within s i (find_crlf s i)
unfolding find_crlf
find_crlf-Within [] i = tt
find_crlf-Within (c ∷ []) i = tt
find_crlf-Within (c ∷ d ∷ s) i =
    if_intro (Within (c ∷ d ∷ s) i) (nat_beq c 13 && nat_beq d 10) (λ _. omega arith)
      (λ _. further (find_crlf (d ∷ s) (suc i)) (find_crlf-Within (d ∷ s) (suc i)))
  where
    further : (o : Option ℕ) → Within (d ∷ s) (suc i) o → Within (c ∷ d ∷ s) i o
    further none h = tt
    further (some j) h = omega (arith, h)

cut_line-Moves :
    (o : Option ℕ) (rest : Bytes) (at used : ℕ) (msg : Bytes)
    → Within rest 0 o
    → Moves (at + 2) (at + length rest) (cut_line o rest at used msg)
unfolding cut_line
cut_line-Moves none rest at used msg h =
    if_intro (Moves (at + 2) (at + length rest)) (ltb max_inline_len used) (λ _. tt) (λ _. tt)
cut_line-Moves (some i) rest at used msg h = (omega arith, omega (arith, length-drop (i + 2) rest))

pub read_line-Moves :
    (rest : Bytes) (at used : ℕ) (msg : Bytes)
    → Moves (at + 2) (at + length rest) (read_line rest at used msg)
unfolding read_line
read_line-Moves rest at used msg =
    cut_line-Moves (find_crlf rest 0) rest at used msg (find_crlf-Within rest 0)

close_bulk-Moves :
    (payload s : Bytes) (at hi : ℕ) → at + length s ≡ hi + 2 → Moves at hi (close_bulk payload s at)
unfolding close_bulk
close_bulk-Moves payload [] at hi h = tt
close_bulk-Moves payload (c ∷ []) at hi h = tt
close_bulk-Moves payload (c ∷ d ∷ rest) at hi h =
    if_intro (Moves at hi) (nat_beq c 13 && nat_beq d 10) (λ _. (omega arith, omega arith))
      (λ _. tt)

pub take_bulk-Moves :
    (len : ℕ) (rest : Bytes) (at : ℕ) → Moves (at + 2) (at + length rest) (take_bulk len rest at)
unfolding take_bulk
take_bulk-Moves len rest at =
    if_intro (Moves (at + 2) (at + length rest)) (ltb (length rest) (len + 2)) (λ _. tt)
      (λ room.
        let size = length-drop len rest in
        let enough : at + len + 2 + length (drop len rest) ≡ at + length rest + 2 = ground arith in
        let hi = at + length rest in
        Moves-slide (at + len + 2) (at + 2) hi hi _ (omega arith) refl
          (close_bulk-Moves (take len rest) (drop len rest) (at + len + 2) hi enough))

parse_arg-Moves : (s : Bytes) (at : ℕ) → Moves (at + 2) (at + length s) (parse_arg s at)
unfolding parse_arg
parse_arg-Moves [] at = tt
parse_arg-Moves (c ∷ s) at =
    let msg = codes "bulk length line too long" in
    let hi = at + length (c ∷ s) in
    let body : Bytes → Bytes → ℕ → Step Bytes =
      λ line rest start. if_fits (bulk_len (parse_i64 line)) (λ len. take_bulk len rest start) in
    if_intro (Moves (at + 2) hi) (nat_beq c b'$')
      (λ _.
        bind-Moves (at + 1 + 2) (at + 2) hi (read_line s (at + 1) (suc (length s)) msg) body
          (Moves-slide (at + 1 + 2) (at + 1 + 2) (at + 1 + length s) hi _ (omega arith)
            (omega arith) (read_line-Moves s (at + 1) (suc (length s)) msg))
          (λ line rest start past end.
            if_fits-Moves (at + 2) hi (bulk_len (parse_i64 line)) (λ len. take_bulk len rest start)
              (λ len.
                Moves-slide (start + 2) (at + 2) (start + length rest) hi (take_bulk len rest start)
                  (omega arith) end (take_bulk-Moves len rest start))))
      (λ _. tt)

parse_args-Moves : (n : ℕ) (s : Bytes) (at : ℕ) → Moves at (at + length s) (parse_args n s at)
unfolding parse_args
parse_args-Moves zero s at = (omega arith, refl)
parse_args-Moves (suc n) s at =
    let hi = at + length s in
    let more : Bytes → Bytes → ℕ → Step (List Bytes) =
      λ arg s' at'. bind (parse_args n s' at') (λ args s'' at''. done (arg ∷ args) s'' at'') in
    bind-Moves (at + 2) at hi (parse_arg s at) more (parse_arg-Moves s at) (λ arg s' at' past end.
      bind-Moves at at hi (parse_args n s' at') (λ args s'' at''. done (arg ∷ args) s'' at'')
        (Moves-slide at' at (at' + length s') hi _ (omega arith) end (parse_args-Moves n s' at'))
        (λ args s'' at'' past' end'. (past', end')))

-- What was consumed of a buffer of `size` bytes.
abbrev Consumes : ℕ → ParseOutcome → Type 0
Consumes size (complete args n) = (0 < n) × (n ≤ size)
Consumes size ParseOutcome.incomplete = Unit
Consumes size (ParseOutcome.invalid msg) = Unit

outcome-Consumes :
    (lo hi : ℕ) (r : Step (List Bytes)) → 0 < lo → Moves lo hi r → Consumes hi (outcome r)
outcome-Consumes lo hi (done args rest at) p h = (omega (arith, h.0), omega (arith, h.1))
outcome-Consumes lo hi Step.incomplete p h = tt
outcome-Consumes lo hi (Step.invalid msg) p h = tt

parse_array-Consumes : (s : Bytes) → Consumes (1 + length s) (parse_array_command s)
unfolding parse_array_command
parse_array-Consumes s =
    let msg = codes "count line too long" in
    let hi = 1 + length s in
    let body : Bytes → Bytes → ℕ → Step (List Bytes) = λ line rest start.
      if_fits (array_len (parse_i64 line)) (λ count. parse_args count rest start) in
    outcome-Consumes 1 hi _ (omega arith) (
      bind-Moves (1 + 2) 1 hi (read_line s 1 (suc (length s)) msg) body
        (read_line-Moves s 1 (suc (length s)) msg)
        (λ line rest start past end.
          if_fits-Moves 1 hi (array_len (parse_i64 line)) (λ count. parse_args count rest start)
            (λ count.
              Moves-slide start 1 (start + length rest) hi (parse_args count rest start)
                (omega arith) end (parse_args-Moves count rest start))))

parse_inline-Consumes : (s : Bytes) → Consumes (length s) (parse_inline_command s)
unfolding parse_inline_command
parse_inline-Consumes s =
    let msg = codes "inline command too long" in
    let hi = length s in
    let body : Bytes → Bytes → ℕ → Step (List Bytes) =
      λ line rest start. done (keep_if is_nonempty (split_spaces line)) rest start in
    outcome-Consumes 2 hi _ (omega arith) (
      bind-Moves 2 2 hi (read_line s 0 (length s) msg) body
        (Moves-slide (0 + 2) 2 (0 + length s) hi _ (omega arith) (omega arith)
          (read_line-Moves s 0 (length s) msg))
        (λ line rest start past end. (past, end)))

parse_command-Consumes : (buf : Bytes) → Consumes (length buf) (parse_command buf)
unfolding parse_command
parse_command-Consumes [] = tt
parse_command-Consumes (c ∷ s) =
    if_intro (Consumes (length (c ∷ s))) (nat_beq c b'*')
      (λ _.
        let same : 1 + length s ≡ length (c ∷ s) = omega arith in
        subst (λ n. Consumes n (parse_array_command s)) same (parse_array-Consumes s))
      (λ _. parse_inline-Consumes (c ∷ s))

-- A request that was read takes one byte of the buffer or more, and never more than it holds.
pub parse_command-consumed :
    (buf : Bytes) (args : List Bytes) (n : ℕ)
    → parse_command buf ≡ complete args n
    → (0 < n) × (n ≤ length buf)
parse_command-consumed buf args n e = subst (Consumes (length buf)) e (parse_command-Consumes buf)
