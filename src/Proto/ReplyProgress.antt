-- ===== src/Proto/ReplyProgress.antt =====
-- How far the parser of replies goes: forward, and not past the end of the buffer.
use mathlib.Core.Path.{subst}
use pg_resp.Prelude.{
  ℕ, zero, suc, ◌+◌, ◌≤◌, ◌<◌, ◌≡◌, refl, arith, Option, none, some, [], ◌∷◌, Bytes, codes, length,
  nat_beq, if_intro,
}
use pg_resp.Prelude.Int.{ℤ}
use pg_resp.Decimal.{parse_i64}
use pg_resp.Proto.Frame.{Step, done, bind, read_line, bulk_len, array_len, take_bulk}
use pg_resp.Proto.Progress.{
  Moves, Moves-slide, bind-Moves, if_fits-Moves, read_line-Moves, take_bulk-Moves,
}
use pg_resp.Proto.Reply.{
  Reply, Items, bulk, array, cons, ReplyOutcome, complete, integer_reply, bulk_reply, array_reply,
  is_null, parse_items, read_reply, is_sigil, parse_reply_at, parse_reply, outcome, max_reply_depth,
}

integer_reply-Moves :
    (n : Option ℤ) (rest : Bytes) (at : ℕ) → Moves at (at + length rest) (integer_reply n rest at)
unfolding integer_reply
integer_reply-Moves none rest at = tt
integer_reply-Moves (some n) rest at = (omega arith, refl)

bulk_reply-Moves :
    (n : Option ℤ) (rest : Bytes) (at : ℕ) → Moves at (at + length rest) (bulk_reply n rest at)
unfolding bulk_reply
bulk_reply-Moves n rest at =
    let hi = at + length rest in
    let body : Bytes → Bytes → ℕ → Step Reply =
      λ payload rest' at'. done (bulk (some payload)) rest' at' in
    if_intro (Moves at hi) (is_null n) (λ _. (omega arith, refl))
      (λ _.
        if_fits-Moves at hi (bulk_len n) (λ len. bind (take_bulk len rest at) body)
          (λ len.
            bind-Moves (at + 2) at hi (take_bulk len rest at) body (take_bulk-Moves len rest at)
              (λ payload rest' at' past end. (omega (arith, past), end))))

-- A parser of nested replies that goes forward.
abbrev Advances : (Bytes → ℕ → Step Reply) → Type 0
Advances item = (rest : Bytes) (at : ℕ) → Moves at (at + length rest) (item rest at)

parse_items-Moves :
    (item : Bytes → ℕ → Step Reply)
    → Advances item
    → (n : ℕ) (rest : Bytes) (at : ℕ) → Moves at (at + length rest) (parse_items item n rest at)
unfolding parse_items
parse_items-Moves item h zero rest at = (omega arith, refl)
parse_items-Moves item h (suc n) rest at =
    let hi = at + length rest in
    let more : Reply → Bytes → ℕ → Step Items = λ r rest' at'.
      bind (parse_items item n rest' at') (λ rs rest'' at''. done (cons r rs) rest'' at'') in
    bind-Moves at at hi (item rest at) more (h rest at) (λ r rest' at' past end.
      bind-Moves at at hi (parse_items item n rest' at')
        (λ rs rest'' at''. done (cons r rs) rest'' at'')
        (Moves-slide at' at (at' + length rest') hi _ past end
          (parse_items-Moves item h n rest' at'))
        (λ rs rest'' at'' past' end'. (past', end')))

array_reply-Moves :
    (item : Bytes → ℕ → Step Reply)
    → Advances item
    → (n : Option ℤ) (rest : Bytes) (at : ℕ)
    → Moves at (at + length rest) (array_reply item n rest at)
unfolding array_reply
array_reply-Moves item h n rest at =
    let hi = at + length rest in
    let body : Items → Bytes → ℕ → Step Reply = λ items rest' at'. done (array items) rest' at' in
    if_intro (Moves at hi) (is_null n) (λ _. (omega arith, refl))
      (λ _.
        if_fits-Moves at hi (array_len n) (λ count. bind (parse_items item count rest at) body)
          (λ count.
            bind-Moves at at hi (parse_items item count rest at) body
              (parse_items-Moves item h count rest at) (λ items rest' at' past end. (past, end))))

read_reply-Moves :
    (item : Bytes → ℕ → Step Reply)
    → Advances item
    → (sigil : ℕ) (line rest : Bytes) (at : ℕ)
    → Moves at (at + length rest) (read_reply item sigil line rest at)
unfolding read_reply
read_reply-Moves item h sigil line rest at =
    let P : Step Reply → Type 0 = Moves at (at + length rest) in
    if_intro P (nat_beq sigil b'+') (λ _. (omega arith, refl))
      (λ _.
        if_intro P (nat_beq sigil b'-') (λ _. (omega arith, refl))
          (λ _.
            if_intro P (nat_beq sigil b':') (λ _. integer_reply-Moves (parse_i64 line) rest at)
              (λ _.
                if_intro P (nat_beq sigil b'$') (λ _. bulk_reply-Moves (parse_i64 line) rest at)
                  (λ _. array_reply-Moves item h (parse_i64 line) rest at))))

-- A reply takes three bytes or more.
parse_reply_at-Moves :
    (levels : ℕ) (rest : Bytes) (at : ℕ)
    → Moves (at + 3) (at + length rest) (parse_reply_at levels rest at)
unfolding parse_reply_at
parse_reply_at-Moves zero rest at = tt
parse_reply_at-Moves (suc levels) [] at = tt
parse_reply_at-Moves (suc levels) (sigil ∷ s) at =
    let hi = at + length (sigil ∷ s) in
    let item = parse_reply_at levels in
    let nested : Advances item = λ rest' at'.
      Moves-slide (at' + 3) at' (at' + length rest') (at' + length rest') _ (omega arith) refl
        (parse_reply_at-Moves levels rest' at') in
    let read = read_line s (at + 1) (length s) (codes "reply line too long") in
    let body : Bytes → Bytes → ℕ → Step Reply =
      λ line rest start. read_reply item sigil line rest start in
    if_intro (Moves (at + 3) hi) (is_sigil sigil)
      (λ _.
        bind-Moves (at + 1 + 2) (at + 3) hi read body
          (Moves-slide (at + 1 + 2) (at + 1 + 2) (at + 1 + length s) hi _ (omega arith)
            (omega arith) (read_line-Moves s (at + 1) (length s) (codes "reply line too long")))
          (λ line rest start past end.
            Moves-slide start (at + 3) (start + length rest) hi _ (omega (arith, past)) end
              (read_reply-Moves item nested sigil line rest start)))
      (λ _. tt)

abbrev Consumes : ℕ → ReplyOutcome → Type 0
Consumes size (complete r n) = (0 < n) × (n ≤ size)
Consumes size ReplyOutcome.incomplete = Unit
Consumes size (ReplyOutcome.invalid msg) = Unit

outcome-Consumes : (lo hi : ℕ) (r : Step Reply) → 0 < lo → Moves lo hi r → Consumes hi (outcome r)
outcome-Consumes lo hi (done r rest at) p h = (omega (arith, h.0), omega (arith, h.1))
outcome-Consumes lo hi Step.incomplete p h = tt
outcome-Consumes lo hi (Step.invalid msg) p h = tt

parse_reply-Consumes : (buf : Bytes) → Consumes (length buf) (parse_reply buf)
unfolding parse_reply
parse_reply-Consumes buf = outcome-Consumes 3 (length buf) _ (omega arith) (
    Moves-slide (0 + 3) 3 (0 + length buf) (length buf) _ (omega arith) (omega arith)
      (parse_reply_at-Moves (suc max_reply_depth) buf 0))

-- A reply that was read takes one byte of the buffer or more, and never more than it holds.
pub parse_reply-consumed :
    (buf : Bytes) (r : Reply) (n : ℕ) → parse_reply buf ≡ complete r n → (0 < n) × (n ≤ length buf)
parse_reply-consumed buf r n e = subst (Consumes (length buf)) e (parse_reply-Consumes buf)
