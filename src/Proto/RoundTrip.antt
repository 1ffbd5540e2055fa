-- ===== src/Proto/RoundTrip.antt =====
-- What `encode_command` writes, `parse_command` reads back.
use pg_resp.Prelude.{
  ℕ, suc, ◌+◌, ◌≤◌, ◌≡◌, refl, sym, ap, ◌∙◌, List, [], ◌∷◌, ◌++◌, append_assoc, arith, Bytes, codes,
  All, length, length-append,
}
use pg_resp.Decimal.{nat_to_string, parse_i64}
use pg_resp.Decimal.RoundTrip.{parse_i64-nat_to_string}
use pg_resp.Proto.Frame.{
  Step, done, bind, crlf, fits, bulk_len, array_len, take_bulk, read_line, max_bulk_len,
  max_array_len, if_fits,
}
use pg_resp.Proto.Command.{
  complete, parse_arg, parse_args, parse_array_command, parse_command, encode_bulk, encode_args,
  encode_command_into, encode_command, outcome,
}
use pg_resp.Proto.Lines.{read_line-append, NoCr-nat_to_string, check_len-pos, take_bulk-append}

abbrev pub bulk_size : Bytes → ℕ
bulk_size payload = length (encode_bulk payload)

-- A length prefix is read back.
pub read_length :
    (n : ℕ) (rest : Bytes) (at used : ℕ) (msg : Bytes)
    → read_line (nat_to_string n ++ (crlf ++ rest)) at used msg
      ≡ done (nat_to_string n) rest (at + length (nat_to_string n) + 2)
read_length n rest at used msg =
    read_line-append (nat_to_string n) rest at used msg (NoCr-nat_to_string n)

length-encode_bulk :
    (payload : Bytes)
    → length (encode_bulk payload)
      ≡ 1 + length (nat_to_string (length payload)) + 2 + length payload + 2
unfolding encode_bulk
length-encode_bulk payload = omega (
  arith,
  length-append (nat_to_string (length payload)) (crlf ++ (payload ++ crlf)),
  length-append payload crlf,
)

encode_bulk-append :
    (payload rest : Bytes)
    → encode_bulk payload ++ rest
      ≡ b'$' ∷ (nat_to_string (length payload) ++ (crlf ++ (payload ++ (crlf ++ rest))))
unfolding encode_bulk
encode_bulk-append payload rest = simp append_assoc

abbrev after_dollar : Bytes → ℕ → ℕ → Step Bytes
after_dollar s at used =
    bind (read_line s at used (codes "bulk length line too long"))
      (λ line rest start. if_fits (bulk_len (parse_i64 line)) (λ len. take_bulk len rest start))

parse_arg-dollar :
    (s : Bytes) (at : ℕ) → parse_arg (b'$' ∷ s) at ≡ after_dollar s (at + 1) (suc (length s))
unfolding parse_arg
parse_arg-dollar s at = refl

pub bulk_len-nat_to_string :
    (n : ℕ) → n ≤ max_bulk_len → bulk_len (parse_i64 (nat_to_string n)) ≡ fits n
bulk_len-nat_to_string n h =
    ap bulk_len (parse_i64-nat_to_string n (omega arith)) ∙ check_len-pos max_bulk_len _ _ n h

pub array_len-nat_to_string :
    (n : ℕ) → n ≤ max_array_len → array_len (parse_i64 (nat_to_string n)) ≡ fits n
array_len-nat_to_string n h =
    ap array_len (parse_i64-nat_to_string n (omega arith)) ∙ check_len-pos max_array_len _ _ n h

after_dollar-bulk :
    (payload rest : Bytes) (at used : ℕ)
    → length payload ≤ max_bulk_len
    → after_dollar (nat_to_string (length payload) ++ (crlf ++ (payload ++ (crlf ++ rest)))) at used
      ≡ done payload rest (at + length (nat_to_string (length payload)) + 2 + length payload + 2)
after_dollar-bulk payload rest at used h =
    let n = length payload in
    let body = payload ++ (crlf ++ rest) in
    let start = at + length (nat_to_string n) + 2 in
    ap
      (λ step.
        bind step (λ line r b. if_fits (bulk_len (parse_i64 line)) (λ len. take_bulk len r b)))
      (read_length n body at used (codes "bulk length line too long"))
    ∙ ap (λ c. if_fits c (λ len. take_bulk len body start)) (bulk_len-nat_to_string n h)
    ∙ take_bulk-append payload rest start

-- One argument is read back, whatever bytes it holds, with what follows it.
pub parse_arg-encode_bulk :
    (payload rest : Bytes) (at : ℕ)
    → length payload ≤ max_bulk_len
    → parse_arg (encode_bulk payload ++ rest) at ≡ done payload rest (at + bulk_size payload)
parse_arg-encode_bulk payload rest at h =
    let s = nat_to_string (length payload) ++ (crlf ++ (payload ++ (crlf ++ rest))) in
    let count : at + 1 + length (nat_to_string (length payload)) + 2 + length payload + 2
        ≡ at + bulk_size payload =
      omega (arith, length-encode_bulk payload) in
    ap (λ t. parse_arg t at) (encode_bulk-append payload rest)
    ∙ parse_arg-dollar s at
    ∙ after_dollar-bulk payload rest (at + 1) (suc (length s)) h
    ∙ ap (done payload rest) count

abbrev pub Small : List Bytes → Type 0
Small = All (λ arg. length arg ≤ max_bulk_len)

parse_args-encode_args :
    (args : List Bytes) (rest : Bytes) (at : ℕ)
    → Small args
    → parse_args (length args) (encode_args args ++ rest) at
      ≡ done args rest (at + length (encode_args args))
unfolding parse_args encode_args
parse_args-encode_args [] rest at h = ap (done [] rest) (omega arith)
parse_args-encode_args (a ∷ args) rest at (ha, h) =
    let at' = at + bulk_size a in
    let count : at' + length (encode_args args) ≡ at + length (encode_bulk a ++ encode_args args) =
      omega (arith, length-append (encode_bulk a) (encode_args args)) in
    ap
      (λ t.
        bind (parse_arg t at)
          (λ arg r b. bind (parse_args (length args) r b) (λ more r' b'. done (arg ∷ more) r' b')))
      (append_assoc (encode_bulk a) (encode_args args) rest)
    ∙ ap
        (λ step.
          bind step (λ arg r b.
            bind (parse_args (length args) r b) (λ more r' b'. done (arg ∷ more) r' b')))
        (parse_arg-encode_bulk a (encode_args args ++ rest) at ha)
    ∙ ap (λ step. bind step (λ more r' b'. done (a ∷ more) r' b'))
        (parse_args-encode_args args rest at' h)
    ∙ ap (done (a ∷ args) rest) count

encode_command-append :
    (args : List Bytes) (rest : Bytes)
    → encode_command args ++ rest
      ≡ b'*' ∷ (nat_to_string (length args) ++ (crlf ++ (encode_args args ++ rest)))
unfolding encode_command encode_command_into
encode_command-append args rest = simp append_assoc

length-encode_command :
    (args : List Bytes)
    → length (encode_command args)
      ≡ 1 + length (nat_to_string (length args)) + 2 + length (encode_args args)
unfolding encode_command encode_command_into
length-encode_command args =
    omega (arith, length-append (nat_to_string (length args)) (crlf ++ encode_args args))

parse_array-encode :
    (args : List Bytes) (rest : Bytes)
    → length args ≤ max_array_len
    → Small args
    → parse_array_command (nat_to_string (length args) ++ (crlf ++ (encode_args args ++ rest)))
      ≡ complete args (1 + length (nat_to_string (length args)) + 2 + length (encode_args args))
unfolding parse_array_command
parse_array-encode args rest few h =
    let n = length args in
    let body = encode_args args ++ rest in
    let start = 1 + length (nat_to_string n) + 2 in
    ap
      (λ step. outcome (
        bind step
          (λ line r b. if_fits (array_len (parse_i64 line)) (λ count. parse_args count r b))))
      (read_length n body 1 _ (codes "count line too long"))
    ∙ ap (λ c. outcome (if_fits c (λ count. parse_args count body start)))
        (array_len-nat_to_string n few)
    ∙ ap outcome (parse_args-encode_args args rest start h)

parse_command-star : (s : Bytes) → parse_command (b'*' ∷ s) ≡ parse_array_command s
unfolding parse_command
parse_command-star s = refl

-- A request of at most 2^20 arguments of at most 512 MiB each is read back from its encoding,
-- whatever bytes it holds and whatever follows it, and exactly its bytes are consumed.
pub parse_command-encode_command :
    (args : List Bytes) (rest : Bytes)
    → length args ≤ max_array_len
    → Small args
    → parse_command (encode_command args ++ rest) ≡ complete args (length (encode_command args))
parse_command-encode_command args rest few h =
    ap parse_command (encode_command-append args rest)
    ∙ parse_command-star _
    ∙ parse_array-encode args rest few h
    ∙ ap (complete args) (sym (length-encode_command args))
