-- ===== src/Proto/Replies.antt =====
-- What `write_to` appends, `parse_reply` reads back.
use Prim.Native.Nat.{max}
use pg_resp.Prelude.{
  ℕ, zero, suc, ◌+◌, ◌≤◌, ◌≡◌, refl, ap, ◌∙◌, true, none, some, ◌∷◌, ◌++◌, append_assoc, arith,
  Bytes, codes, length, length-append, if◌then◌else◌,
}
use pg_resp.Prelude.Int.{ℤ, IsI64}
use pg_resp.Decimal.{nat_to_string, to_string, parse_i64}
use pg_resp.Decimal.RoundTrip.{parse_i64-nat_to_string, parse_i64-to_string}
use pg_resp.Proto.Frame.{
  Step, done, bind, crlf, bulk_len, array_len, take_bulk, max_bulk_len, max_array_len, if_fits,
}
use pg_resp.Proto.Command.{encode_bulk}
use pg_resp.Proto.Reply.{
  Reply, Items, simple, error, integer, bulk, array, null_array, nil, cons, count_items, to_bytes,
  items_to_bytes, complete, integer_reply, bulk_reply, array_reply, is_null, parse_items,
  read_reply, is_sigil, parse_reply_at, parse_reply, outcome, max_reply_depth,
}
use pg_resp.Proto.Lines.{
  NoCr, read_line-append, NoCr-nat_to_string, NoCr-to_string, take_bulk-append,
}
use pg_resp.Proto.RoundTrip.{bulk_len-nat_to_string, array_len-nat_to_string}

-- How deep the arrays of a reply nest, itself included.
abbrev mutual
  pub depth : Reply → ℕ
  depth (array items) = suc (depth_items items)
  depth _ = 1

  pub depth_items : Items → ℕ
  depth_items nil = 0
  depth_items (cons r rs) = max (depth r) (depth_items rs)

-- Lines hold no carriage return, integers are `i64`, and lengths are within the limits.
abbrev mutual
  pub Sendable : Reply → Type 0
  Sendable (simple s) = NoCr s
  Sendable (error s) = NoCr s
  Sendable (integer n) = IsI64 n
  Sendable (bulk none) = Unit
  Sendable (bulk (some payload)) = length payload ≤ max_bulk_len
  Sendable null_array = Unit
  Sendable (array items) = (count_items items ≤ max_array_len) × SendableItems items

  pub SendableItems : Items → Type 0
  SendableItems nil = Unit
  SendableItems (cons r rs) = Sendable r × SendableItems rs

parse_reply_at-line :
    (levels sigil : ℕ) (line rest : Bytes) (at : ℕ)
    → is_sigil sigil ≡ true
    → NoCr line
    → parse_reply_at (suc levels) (sigil ∷ (line ++ (crlf ++ rest))) at
      ≡ read_reply (parse_reply_at levels) sigil line rest (at + 1 + length line + 2)
unfolding parse_reply_at
parse_reply_at-line levels sigil line rest at h clean = rw h (
    ap (λ step. bind step (λ l r b. read_reply (parse_reply_at levels) sigil l r b))
      (read_line-append line rest (at + 1) _ (codes "reply line too long") clean))

bulk_reply-payload :
    (payload rest : Bytes) (at : ℕ)
    → length payload ≤ max_bulk_len
    → bulk_reply (parse_i64 (nat_to_string (length payload))) (payload ++ (crlf ++ rest)) at
      ≡ done (bulk (some payload)) rest (at + length payload + 2)
unfolding bulk_reply
bulk_reply-payload payload rest at h =
    let body = payload ++ (crlf ++ rest) in
    let n = length payload in
    ap
      (λ o.
        if is_null o
        then done (bulk none) body at
        else if_fits (bulk_len (parse_i64 (nat_to_string n)))
            (λ len. bind (take_bulk len body at) (λ p r b. done (bulk (some p)) r b)))
      (parse_i64-nat_to_string n (omega arith))
    ∙ ap (λ c. if_fits c (λ len. bind (take_bulk len body at) (λ p r b. done (bulk (some p)) r b)))
        (bulk_len-nat_to_string n h)
    ∙ ap (λ step. bind step (λ p r b. done (bulk (some p)) r b)) (take_bulk-append payload rest at)

array_reply-items :
    (item : Bytes → ℕ → Step Reply) (items : Items) (n : ℕ) (body rest : Bytes) (at after : ℕ)
    → n ≤ max_array_len
    → parse_items item n body at ≡ done items rest after
    → array_reply item (parse_i64 (nat_to_string n)) body at ≡ done (array items) rest after
unfolding array_reply
array_reply-items item items n body rest at after h read =
    ap
      (λ o.
        if is_null o
        then done null_array body at
        else if_fits (array_len (parse_i64 (nat_to_string n)))
            (λ count. bind (parse_items item count body at) (λ rs r b. done (array rs) r b)))
      (parse_i64-nat_to_string n (omega arith))
    ∙ ap
        (λ c.
          if_fits c
            (λ count. bind (parse_items item count body at) (λ rs r b. done (array rs) r b)))
        (array_len-nat_to_string n h)
    ∙ ap (λ step. bind step (λ rs r b. done (array rs) r b)) read

-- What is read back off the front of any input, at enough levels.
abbrev Reads : Reply → Type 0
Reads r =
    (levels : ℕ) (rest : Bytes) (at : ℕ)
    → depth r ≤ levels
    → Sendable r
    → parse_reply_at levels (to_bytes r ++ rest) at ≡ done r rest (at + length (to_bytes r))

abbrev ReadsItems : Items → Type 0
ReadsItems rs =
    (levels : ℕ) (rest : Bytes) (at : ℕ)
    → depth_items rs ≤ levels
    → SendableItems rs
    → parse_items (parse_reply_at levels) (count_items rs) (items_to_bytes rs ++ rest) at
      ≡ done rs rest (at + length (items_to_bytes rs))

line_case :
    (levels sigil : ℕ) (line rest : Bytes) (at : ℕ) (r : Reply)
    → is_sigil sigil ≡ true
    → NoCr line
    → ((b : ℕ) → read_reply (parse_reply_at levels) sigil line rest b ≡ done r rest b)
    → parse_reply_at (suc levels) ((sigil ∷ (line ++ crlf)) ++ rest) at
      ≡ done r rest (at + length (sigil ∷ (line ++ crlf)))
line_case levels sigil line rest at r h clean read =
    let count : at + 1 + length line + 2 ≡ at + length (sigil ∷ (line ++ crlf)) =
      omega (arith, length-append line crlf) in
    ap (λ t. parse_reply_at (suc levels) (sigil ∷ t) at) (append_assoc line crlf rest)
    ∙ parse_reply_at-line levels sigil line rest at h clean
    ∙ read _
    ∙ ap (done r rest) count

integer_case :
    (item : Bytes → ℕ → Step Reply) (n : ℤ) (rest : Bytes) (b : ℕ)
    → IsI64 n
    → read_reply item b':' (to_string n) rest b ≡ done (integer n) rest b
unfolding read_reply integer_reply
integer_case item n rest b h = ap (λ o. integer_reply o rest b) (parse_i64-to_string n h)

null_case :
    (levels sigil : ℕ) (rest : Bytes) (at : ℕ) (r : Reply)
    → is_sigil sigil ≡ true
    → ((b : ℕ) → read_reply (parse_reply_at levels) sigil (codes "-1") rest b ≡ done r rest b)
    → parse_reply_at (suc levels) ((sigil ∷ (codes "-1" ++ crlf)) ++ rest) at
      ≡ done r rest (at + length (sigil ∷ (codes "-1" ++ crlf)))
null_case levels sigil rest at r h read =
    line_case levels sigil (codes "-1") rest at r h ((omega arith), ((omega arith), tt)) read

bulk_null :
    (item : Bytes → ℕ → Step Reply) (rest : Bytes) (b : ℕ)
    → read_reply item b'$' (codes "-1") rest b ≡ done (bulk none) rest b
unfolding read_reply bulk_reply parse_i64
bulk_null item rest b = refl

array_null :
    (item : Bytes → ℕ → Step Reply) (rest : Bytes) (b : ℕ)
    → read_reply item b'*' (codes "-1") rest b ≡ done null_array rest b
unfolding read_reply array_reply parse_i64
array_null item rest b = refl

bulk_case :
    (levels : ℕ) (payload rest : Bytes) (at : ℕ)
    → length payload ≤ max_bulk_len
    → parse_reply_at (suc levels) (encode_bulk payload ++ rest) at
      ≡ done (bulk (some payload)) rest (at + length (encode_bulk payload))
unfolding encode_bulk read_reply
bulk_case levels payload rest at h =
    let digits = nat_to_string (length payload) in
    let start = at + 1 + length digits + 2 in
    let shape : (digits ++ (crlf ++ (payload ++ crlf))) ++ rest
        ≡ digits ++ (crlf ++ (payload ++ (crlf ++ rest))) =
      simp append_assoc in
    let count : start + length payload + 2
        ≡ at + suc (length (digits ++ (crlf ++ (payload ++ crlf)))) =
      omega (arith, length-append digits (crlf ++ (payload ++ crlf)), length-append payload crlf) in
    ap (λ t. parse_reply_at (suc levels) (b'$' ∷ t) at) shape
    ∙ parse_reply_at-line levels b'$' digits (payload ++ (crlf ++ rest)) at refl
        (NoCr-nat_to_string (length payload))
    ∙ bulk_reply-payload payload rest start h
    ∙ ap (done (bulk (some payload)) rest) count

array_case :
    (levels : ℕ) (items : Items) (rest : Bytes) (at : ℕ)
    → ReadsItems items
    → depth_items items ≤ levels
    → Sendable (array items)
    → parse_reply_at (suc levels) (to_bytes (array items) ++ rest) at
      ≡ done (array items) rest (at + length (to_bytes (array items)))
unfolding to_bytes read_reply
array_case levels items rest at read deep (few, ok) =
    let digits = nat_to_string (count_items items) in
    let body = items_to_bytes items in
    let start = at + 1 + length digits + 2 in
    let count : start + length body ≡ at + suc (length (digits ++ (crlf ++ body))) =
      omega (arith, length-append digits (crlf ++ body)) in
    ap (λ t. parse_reply_at (suc levels) (b'*' ∷ t) at) (append_assoc digits (crlf ++ body) rest)
    ∙ parse_reply_at-line levels b'*' digits (body ++ rest) at refl
        (NoCr-nat_to_string (count_items items))
    ∙ array_reply-items (parse_reply_at levels) items (count_items items) (body ++ rest) rest start
        (start + length body) few (read levels rest start deep ok)
    ∙ ap (done (array items) rest) count

cons_case : (r : Reply) (rs : Items) → Reads r → ReadsItems rs → ReadsItems (cons r rs)
unfolding to_bytes parse_items
cons_case r rs read reads levels rest at deep (ok, oks) =
    let first = to_bytes r in
    let count : at + length first + length (items_to_bytes rs)
        ≡ at + length (first ++ items_to_bytes rs) =
      omega (arith, length-append first (items_to_bytes rs)) in
    let item = parse_reply_at levels in
    let more = λ (step : Step Reply). bind step (λ x r' b.
      bind (parse_items item (count_items rs) r' b) (λ xs r'' b'. done (cons x xs) r'' b')) in
    ap (λ t. more (item t at)) (append_assoc first (items_to_bytes rs) rest)
    ∙ ap more (read levels (items_to_bytes rs ++ rest) at (omega arith) ok)
    ∙ ap (λ step. bind step (λ xs r'' b'. done (cons r xs) r'' b'))
        (reads levels rest (at + length first) (omega arith) oks)
    ∙ ap (done (cons r rs) rest) count

-- levels above a depth are a successor
spend {ℓ} :
    {n : ℕ} (P : ℕ → Type ℓ)
    → ((l : ℕ) → n ≤ l → P (suc l))
    → (levels : ℕ) → suc n ≤ levels
    → P levels
spend P k zero h = absurd (omega arith)
spend P k (suc l) h = k l (omega arith)

mutual
  unfolding to_bytes read_reply parse_items

  reads : (r : Reply) → Reads r
  reads (simple s) levels rest at deep ok =
      spend
        (λ n.
          parse_reply_at n (to_bytes (simple s) ++ rest) at
          ≡ done (simple s) rest (at + length (to_bytes (simple s))))
        (λ l _. line_case l b'+' s rest at (simple s) refl ok (λ b. refl)) levels deep
  reads (error s) levels rest at deep ok =
      spend
        (λ n.
          parse_reply_at n (to_bytes (error s) ++ rest) at
          ≡ done (error s) rest (at + length (to_bytes (error s))))
        (λ l _. line_case l b'-' s rest at (error s) refl ok (λ b. refl)) levels deep
  reads (integer n) levels rest at deep ok =
      spend
        (λ m.
          parse_reply_at m (to_bytes (integer n) ++ rest) at
          ≡ done (integer n) rest (at + length (to_bytes (integer n))))
        (λ l _.
          line_case l b':' (to_string n) rest at (integer n) refl (NoCr-to_string n)
            (λ b. integer_case (parse_reply_at l) n rest b ok))
        levels deep
  reads (bulk none) levels rest at deep ok =
      spend
        (λ n.
          parse_reply_at n (to_bytes (bulk none) ++ rest) at
          ≡ done (bulk none) rest (at + length (to_bytes (bulk none))))
        (λ l _.
          null_case l b'$' rest at (bulk none) refl (λ b. bulk_null (parse_reply_at l) rest b))
        levels deep
  reads (bulk (some payload)) levels rest at deep ok =
      spend
        (λ n.
          parse_reply_at n (to_bytes (bulk (some payload)) ++ rest) at
          ≡ done (bulk (some payload)) rest (at + length (to_bytes (bulk (some payload)))))
        (λ l _. bulk_case l payload rest at ok) levels deep
  reads null_array levels rest at deep ok =
      spend
        (λ n.
          parse_reply_at n (to_bytes null_array ++ rest) at
          ≡ done null_array rest (at + length (to_bytes null_array)))
        (λ l _.
          null_case l b'*' rest at null_array refl (λ b. array_null (parse_reply_at l) rest b))
        levels deep
  reads (array items) levels rest at deep ok =
      spend
        (λ n.
          parse_reply_at n (to_bytes (array items) ++ rest) at
          ≡ done (array items) rest (at + length (to_bytes (array items))))
        (λ l h. array_case l items rest at (reads_items items) h ok) levels deep

  reads_items : (rs : Items) → ReadsItems rs
  reads_items nil levels rest at deep ok = ap (done nil rest) (omega arith)
  reads_items (cons r rs) levels rest at deep ok =
      cons_case r rs (reads r) (reads_items rs) levels rest at deep ok

-- A reply whose lines hold no carriage return, whose integers are `i64`, whose lengths are within
-- the limits and which nests at most 33 levels deep is read back from what `write_to` appends,
-- whatever follows it, and exactly its bytes are consumed. A reply that is no array, and an empty
-- array, count for one level, and any other array for one more than its deepest item: a bulk string
-- stands in at most 32 arrays.
pub parse_reply-to_bytes :
    (r : Reply) (rest : Bytes)
    → depth r ≤ suc max_reply_depth
    → Sendable r
    → parse_reply (to_bytes r ++ rest) ≡ complete r (length (to_bytes r))
unfolding parse_reply
parse_reply-to_bytes r rest deep ok =
    ap outcome (reads r (suc max_reply_depth) rest 0 deep ok) ∙ ap (complete r) (omega arith)
