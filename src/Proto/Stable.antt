-- ===== src/Proto/Stable.antt =====
-- What was read off the front of a buffer is read the same when more bytes have come.
use mathlib.Core.Path.{subst, ap₂}
use pg_resp.Prelude.{
  ℕ, zero, suc, ◌+◌, ◌≤◌, ◌≡◌, refl, sym, ap, ◌∙◌, arith, true, false, Option, none, some, List, [],
  ◌∷◌, ◌++◌, Bytes, codes, length, length-append, take, drop, ltb, nat_beq, if_intro, keep_if, ◌&&◌,
  if◌then◌else◌, Bool,
}
use pg_resp.Decimal.{parse_i64}
use pg_resp.Proto.Frame.{
  Step, done, bind, find_crlf, cut_line, read_line, Checked, fits, refused, if_fits, bulk_len,
  array_len, close_bulk, take_bulk, max_inline_len,
}
use pg_resp.Proto.Command.{
  ParseOutcome, complete, parse_arg, parse_args, outcome, parse_array_command, parse_inline_command,
  parse_command, split_spaces, is_nonempty, byte_as_char,
}
use pg_resp.Proto.Progress.{Within, find_crlf-Within}

-- `r'` reads what `r` has read, and leaves `more` behind the rest.
abbrev pub Extends : {A : Type 0} → Bytes → Step A → Step A → Type 0
Extends more (done a rest at) r' = r' ≡ done a (rest ++ more) at
Extends more Step.incomplete r' = Unit
Extends more (Step.invalid msg) r' = Unit

pub bind-Extends :
    {A B : Type 0} (more : Bytes) (m m' : Step A) (f : A → Bytes → ℕ → Step B)
    → Extends more m m'
    → ((a : A) (rest : Bytes) (at : ℕ) → Extends more (f a rest at) (f a (rest ++ more) at))
    → Extends more (bind m f) (bind m' f)
bind-Extends more (done a rest at) m' f e k =
    subst (λ m. Extends more (f a rest at) (bind m f)) (sym e) (k a rest at)
bind-Extends more Step.incomplete m' f e k = tt
bind-Extends more (Step.invalid msg) m' f e k = tt

pub if_fits-Extends :
    {A : Type 0} (more : Bytes) (c : Checked) (f f' : ℕ → Step A)
    → ((n : ℕ) → Extends more (f n) (f' n))
    → Extends more (if_fits c f) (if_fits c f')
if_fits-Extends more (fits n) f f' h = h n
if_fits-Extends more (refused msg) f f' h = tt

take-longer : (n : ℕ) (xs more : Bytes) → n ≤ length xs → take n (xs ++ more) ≡ take n xs
take-longer zero xs more h = refl
take-longer (suc n) [] more h = absurd (omega arith)
take-longer (suc n) (x ∷ xs) more h = ap (◌∷◌ x) (take-longer n xs more (omega arith))

pub drop-longer :
    (n : ℕ) (xs more : Bytes) → n ≤ length xs → drop n (xs ++ more) ≡ drop n xs ++ more
drop-longer zero xs more h = refl
drop-longer (suc n) [] more h = absurd (omega arith)
drop-longer (suc n) (x ∷ xs) more h = drop-longer n xs more (omega arith)

-- A CR LF that was found is found again.
abbrev Again : Option ℕ → Option ℕ → Type 0
Again none o' = Unit
Again (some j) o' = o' ≡ some j

find_crlf-Again : (s more : Bytes) (i : ℕ) → Again (find_crlf s i) (find_crlf (s ++ more) i)
unfolding find_crlf
find_crlf-Again [] more i = tt
find_crlf-Again (c ∷ []) more i = tt
find_crlf-Again (c ∷ d ∷ s) more i =
    let found = nat_beq c 13 && nat_beq d 10 in
    both found (find_crlf (d ∷ s) (suc i)) (find_crlf (d ∷ (s ++ more)) (suc i))
      (find_crlf-Again (d ∷ s) more (suc i))
  where
    both :
        (b : Bool) (o o' : Option ℕ)
        → Again o o'
        → Again (if b then some i else o) (if b then some i else o')
    both true o o' h = refl
    both false o o' h = h

cut_line-Extends :
    (o o' : Option ℕ) (rest more : Bytes) (at used used' : ℕ) (msg : Bytes)
    → Within rest 0 o
    → Again o o'
    → Extends more (cut_line o rest at used msg) (cut_line o' (rest ++ more) at used' msg)
unfolding cut_line
cut_line-Extends none o' rest more at used used' msg w h =
    if_intro (λ r. Extends more r (cut_line o' (rest ++ more) at used' msg))
      (ltb max_inline_len used) (λ _. tt) (λ _. tt)
cut_line-Extends (some i) o' rest more at used used' msg w h =
    ap (λ o. cut_line o (rest ++ more) at used' msg) h
    ∙ ap₂ (λ line tail. done line tail (at + i + 2)) (take-longer i rest more (omega (arith, w)))
        (drop-longer (i + 2) rest more (omega (arith, w)))

pub read_line-Extends :
    (rest more : Bytes) (at used used' : ℕ) (msg : Bytes)
    → Extends more (read_line rest at used msg) (read_line (rest ++ more) at used' msg)
unfolding read_line
read_line-Extends rest more at used used' msg =
    cut_line-Extends (find_crlf rest 0) (find_crlf (rest ++ more) 0) rest more at used used' msg
      (find_crlf-Within rest 0) (find_crlf-Again rest more 0)

close_bulk-Extends :
    (payload s more : Bytes) (at : ℕ)
    → Extends more (close_bulk payload s at) (close_bulk payload (s ++ more) at)
unfolding close_bulk
close_bulk-Extends payload [] more at = tt
close_bulk-Extends payload (c ∷ []) more at = tt
close_bulk-Extends payload (c ∷ d ∷ rest) more at = both (nat_beq c 13 && nat_beq d 10)
  where
    wrong : Step Bytes
    wrong = Step.invalid (codes "expected CRLF after bulk data")

    both :
        (b : Bool)
        → Extends more
            (if b then done payload rest at else wrong)
            (if b then done payload (rest ++ more) at else wrong)
    both true = refl
    both false = tt

pub take_bulk-Extends :
    (len : ℕ) (rest more : Bytes) (at : ℕ)
    → Extends more (take_bulk len rest at) (take_bulk len (rest ++ more) at)
unfolding take_bulk
take_bulk-Extends len rest more at =
    if_intro (λ r. Extends more r (take_bulk len (rest ++ more) at)) (ltb (length rest) (len + 2))
      (λ _. tt)
      (λ room.
        let inside : len + 2 ≤ length rest = ground arith in
        let enough : ltb (length (rest ++ more)) (len + 2) ≡ false =
          ground (arith, length-append rest more) in
        rw
          (
            enough,
            take_bulk,
            take-longer len rest more (omega arith),
            drop-longer len rest more (omega arith),
          )
          (close_bulk-Extends (take len rest) (drop len rest) more (at + len + 2)))

parse_arg-Extends :
    (s more : Bytes) (at : ℕ) → Extends more (parse_arg s at) (parse_arg (s ++ more) at)
unfolding parse_arg
parse_arg-Extends [] more at = tt
parse_arg-Extends (c ∷ s) more at = both (nat_beq c b'$')
  where
    msg : Bytes
    msg = codes "bulk length line too long"

    body : Bytes → Bytes → ℕ → Step Bytes
    body line rest start = if_fits (bulk_len (parse_i64 line)) (λ len. take_bulk len rest start)

    wrong : Step Bytes
    wrong = Step.invalid (codes "expected '$', got '" ++ byte_as_char c ++ codes "'")

    both :
        (b : Bool)
        → Extends more
            (if b then bind (read_line s (at + 1) (suc (length s)) msg) body else wrong)
            (if b
              then bind (read_line (s ++ more) (at + 1) (suc (length (s ++ more))) msg) body
              else wrong)
    both true =
        bind-Extends more _ _ body
          (read_line-Extends s more (at + 1) (suc (length s)) (suc (length (s ++ more))) msg)
          (λ line rest start.
            if_fits-Extends more (bulk_len (parse_i64 line)) (λ len. take_bulk len rest start)
              (λ len. take_bulk len (rest ++ more) start)
              (λ len. take_bulk-Extends len rest more start))
    both false = tt

parse_args-Extends :
    (n : ℕ) (s more : Bytes) (at : ℕ)
    → Extends more (parse_args n s at) (parse_args n (s ++ more) at)
unfolding parse_args
parse_args-Extends zero s more at = refl
parse_args-Extends (suc n) s more at =
    bind-Extends more (parse_arg s at) (parse_arg (s ++ more) at) _ (parse_arg-Extends s more at)
      (λ arg s' at'.
        bind-Extends more (parse_args n s' at') (parse_args n (s' ++ more) at') _
          (parse_args-Extends n s' more at') (λ args s'' at''. refl))

-- A request that was read is read again.
abbrev Stays : ParseOutcome → ParseOutcome → Type 0
Stays (complete args n) o' = o' ≡ complete args n
Stays ParseOutcome.incomplete o' = Unit
Stays (ParseOutcome.invalid msg) o' = Unit

outcome-Stays :
    (more : Bytes) (r r' : Step (List Bytes)) → Extends more r r' → Stays (outcome r) (outcome r')
outcome-Stays more (done args rest at) r' h = ap outcome h
outcome-Stays more Step.incomplete r' h = tt
outcome-Stays more (Step.invalid msg) r' h = tt

parse_array-Stays :
    (s more : Bytes) → Stays (parse_array_command s) (parse_array_command (s ++ more))
unfolding parse_array_command
parse_array-Stays s more =
    let msg = codes "count line too long" in
    let body : Bytes → Bytes → ℕ → Step (List Bytes) = λ line rest start.
      if_fits (array_len (parse_i64 line)) (λ count. parse_args count rest start) in
    outcome-Stays more (bind (read_line s 1 (suc (length s)) msg) body)
      (bind (read_line (s ++ more) 1 (suc (length (s ++ more))) msg) body)
      (bind-Extends more _ _ body
        (read_line-Extends s more 1 (suc (length s)) (suc (length (s ++ more))) msg)
        (λ line rest start.
          if_fits-Extends more (array_len (parse_i64 line)) (λ count. parse_args count rest start)
            (λ count. parse_args count (rest ++ more) start)
            (λ count. parse_args-Extends count rest more start)))

parse_inline-Stays :
    (s more : Bytes) → Stays (parse_inline_command s) (parse_inline_command (s ++ more))
unfolding parse_inline_command
parse_inline-Stays s more =
    let msg = codes "inline command too long" in
    let body : Bytes → Bytes → ℕ → Step (List Bytes) =
      λ line rest start. done (keep_if is_nonempty (split_spaces line)) rest start in
    outcome-Stays more (bind (read_line s 0 (length s) msg) body)
      (bind (read_line (s ++ more) 0 (length (s ++ more)) msg) body)
      (bind-Extends more _ _ body (read_line-Extends s more 0 (length s) (length (s ++ more)) msg)
        (λ line rest start. refl))

parse_command-Stays : (buf more : Bytes) → Stays (parse_command buf) (parse_command (buf ++ more))
unfolding parse_command
parse_command-Stays [] more = tt
parse_command-Stays (c ∷ s) more = both (nat_beq c b'*')
  where
    both :
        (b : Bool)
        → Stays
            (if b then parse_array_command s else parse_inline_command (c ∷ s))
            (if b then parse_array_command (s ++ more) else parse_inline_command (c ∷ (s ++ more)))
    both true = parse_array-Stays s more
    both false = parse_inline-Stays (c ∷ s) more

-- A request that stands whole at the front of the buffer is read the same, and takes the same bytes,
-- whatever has come behind it.
pub parse_command-append :
    (buf more : Bytes) (args : List Bytes) (n : ℕ)
    → parse_command buf ≡ complete args n
    → parse_command (buf ++ more) ≡ complete args n
parse_command-append buf more args n e =
    subst (λ o. Stays o (parse_command (buf ++ more))) e (parse_command-Stays buf more)
