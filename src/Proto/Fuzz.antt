-- ===== src/Proto/Fuzz.antt =====
-- The fuzz targets of crates/resp-proto/fuzz/fuzz_targets: each reads request after request, or
-- reply after reply, off the front of its data, as the read buffers of the server and the client do.
use pg_resp.Prelude.{
  ℕ, zero, suc, ◌≤◌, ◌<◌, ◌≡◌, refl, arith, Bool, true, false, ◌&&◌, List, [], ◌∷◌, Bytes, length,
  drop, ltb, leb, if◌then◌else◌, length-drop,
}
use pg_resp.Proto.Command.{ParseOutcome, parse_command}
use pg_resp.Proto.Progress.{parse_command-consumed}
use pg_resp.Proto.Reply
use pg_resp.Proto.Reply.{ReplyOutcome, parse_reply}
use pg_resp.Proto.ReplyProgress.{parse_reply-consumed}

-- The assertion on `consumed`
abbrev pub progresses : ℕ → Bytes → Bool
progresses consumed buf = ltb 0 consumed && leb consumed (length buf)

abbrev pub is_empty : Bytes → Bool
is_empty [] = true
is_empty (_ ∷ _) = false

-- The `match` of a round: whether the assertion holds from here on, `next` being the rounds to come.
unfoldable pub command_round : (Bytes → Bool) → Bytes → ParseOutcome → Bool
command_round next buf (ParseOutcome.complete args consumed) =
    let rest = drop consumed buf in
    progresses consumed buf && (if is_empty rest then true else next rest)
command_round next buf ParseOutcome.incomplete = true
command_round next buf (ParseOutcome.invalid msg) = true

-- Out of rounds it fails.
unfoldable pub command_rounds : ℕ → Bytes → Bool
command_rounds zero buf = false
command_rounds (suc rounds) buf = command_round (command_rounds rounds) buf (parse_command buf)

unfoldable pub fuzz_parse_command : Bytes → Bool
fuzz_parse_command bytes = command_rounds (suc (length bytes)) bytes

unfoldable pub reply_round : (Bytes → Bool) → Bytes → ReplyOutcome → Bool
reply_round next buf (ReplyOutcome.complete reply consumed) =
    let rest = drop consumed buf in
    progresses consumed buf && (if is_empty rest then true else next rest)
reply_round next buf ReplyOutcome.incomplete = true
reply_round next buf (ReplyOutcome.invalid msg) = true

unfoldable pub reply_rounds : ℕ → Bytes → Bool
reply_rounds zero buf = false
reply_rounds (suc rounds) buf = reply_round (reply_rounds rounds) buf (parse_reply buf)

unfoldable pub fuzz_parse_reply : Bytes → Bool
fuzz_parse_reply bytes = reply_rounds (suc (length bytes)) bytes

-- A round that goes forward and comes to rounds that end.
onward :
    (next : Bytes → Bool) (consumed : ℕ) (buf : Bytes)
    → (0 < consumed) × (consumed ≤ length buf)
    → ((rest : Bytes) → length rest < length buf → next rest ≡ true)
    → (progresses consumed buf
        && (if is_empty (drop consumed buf) then true else next (drop consumed buf)))
      ≡ true
onward next consumed buf p h =
    let shorter : length (drop consumed buf) < length buf =
      omega (arith, length-drop consumed buf, p.0, p.1) in
    ground (arith, p.0, p.1, h (drop consumed buf) shorter)

command_round_lem :
    (next : Bytes → Bool) (buf : Bytes) (o : ParseOutcome)
    → ((args : List Bytes) (n : ℕ) → o ≡ ParseOutcome.complete args n → (0 < n) × (n ≤ length buf))
    → ((rest : Bytes) → length rest < length buf → next rest ≡ true)
    → command_round next buf o ≡ true
unfolding command_round
command_round_lem next buf (ParseOutcome.complete args n) p h = onward next n buf (p args n refl) h
command_round_lem next buf ParseOutcome.incomplete p h = refl
command_round_lem next buf (ParseOutcome.invalid msg) p h = refl

command_rounds_lem :
    (rounds : ℕ) (buf : Bytes) → length buf < rounds → command_rounds rounds buf ≡ true
unfolding command_rounds
command_rounds_lem zero buf room = absurd (omega arith)
command_rounds_lem (suc rounds) buf room =
    command_round_lem (command_rounds rounds) buf (parse_command buf) (parse_command-consumed buf)
      (λ rest less. command_rounds_lem rounds rest (omega (arith, less, room)))

reply_round_lem :
    (next : Bytes → Bool) (buf : Bytes) (o : ReplyOutcome)
    → ((r : Reply.Reply) (n : ℕ) → o ≡ ReplyOutcome.complete r n → (0 < n) × (n ≤ length buf))
    → ((rest : Bytes) → length rest < length buf → next rest ≡ true)
    → reply_round next buf o ≡ true
unfolding reply_round
reply_round_lem next buf (ReplyOutcome.complete r n) p h = onward next n buf (p r n refl) h
reply_round_lem next buf ReplyOutcome.incomplete p h = refl
reply_round_lem next buf (ReplyOutcome.invalid msg) p h = refl

reply_rounds_lem : (rounds : ℕ) (buf : Bytes) → length buf < rounds → reply_rounds rounds buf ≡ true
unfolding reply_rounds
reply_rounds_lem zero buf room = absurd (omega arith)
reply_rounds_lem (suc rounds) buf room =
    reply_round_lem (reply_rounds rounds) buf (parse_reply buf) (parse_reply-consumed buf)
      (λ rest less. reply_rounds_lem rounds rest (omega (arith, less, room)))

-- Neither fuzz target finds a failure, whatever the bytes: their loops end, within a round for each
-- byte and one more, and each round that reads a request or a reply takes at least one byte and at
-- most what the buffer holds.
pub fuzz_targets_lem :
    (bytes : Bytes) → (fuzz_parse_command bytes ≡ true) × (fuzz_parse_reply bytes ≡ true)
unfolding fuzz_parse_command fuzz_parse_reply
fuzz_targets_lem bytes = (
  command_rounds_lem (suc (length bytes)) bytes (omega arith),
  reply_rounds_lem (suc (length bytes)) bytes (omega arith),
)
