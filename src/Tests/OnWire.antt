-- ===== src/Tests/OnWire.antt =====
-- The theorems on the protocol and on commands at concrete inputs.
use pg_resp.Prelude.{◌≡◌, refl, none, some, List, [], ◌∷◌, ◌++◌, Bytes, codes, length, arith}
use pg_resp.Prelude.Int.{negsuc}
use pg_resp.Dispatch.Strings.{set_command, get_command, ok_reply}
use pg_resp.Dispatch.Strings.ReadBack.{get_command-set_command}
use pg_resp.Dispatch.Strings.Panics.{set_command-panic}
use pg_resp.Decimal.{nat_to_string, parse_i64, to_string}
use pg_resp.Decimal.RoundTrip.{parse_i64-to_string}
use pg_resp.Proto.Command.{encode_command, parse_command, ParseOutcome}
use pg_resp.Proto.RoundTrip.{parse_command-encode_command}
use pg_resp.Proto.Reply.{Reply, bulk, array, cons, nil, to_bytes, parse_reply, ReplyOutcome}
use pg_resp.Proto.Replies.{parse_reply-to_bytes}
use pg_resp.Store.Account.Valid.{IsValid}
use pg_resp.Dispatch.Runtime.{upper, panic, reply}
use pg_resp.Dispatch.Run.{dispatch}
use pg_resp.Dispatch.Run.Laws.{Guarded, dispatch-IsValid, dispatch-noauth}
use pg_resp.Tests.Samples.{runtime, locked, stranger, known, hits, name, two_keys, two_keys-IsValid}

parse_i64-to_string_example : parse_i64 (to_string (negsuc 41)) ≡ some (negsuc 41)
parse_i64-to_string_example = parse_i64-to_string (negsuc 41) (omega arith, omega arith)

abbrev set_ex : List Bytes
set_ex = codes "set" ∷ hits ∷ codes "10" ∷ codes "ex" ∷ codes "60" ∷ []

parse_command-encode_command_example :
    parse_command (encode_command set_ex ++ codes "*1")
    ≡ ParseOutcome.complete set_ex (length (encode_command set_ex))
parse_command-encode_command_example =
    parse_command-encode_command set_ex (codes "*1") (omega arith)
      (omega arith, (omega arith, (omega arith, (omega arith, (omega arith, tt)))))

abbrev page : Reply
page = array (
    cons (bulk (some (codes "0")))
      (cons (array (cons (bulk (some hits)) (cons (bulk none) nil))) nil))

parse_reply-to_bytes_example :
    parse_reply (to_bytes page ++ codes "+") ≡ ReplyOutcome.complete page (length (to_bytes page))
parse_reply-to_bytes_example =
    parse_reply-to_bytes page (codes "+") (omega arith)
      (omega arith, (omega arith, ((omega arith, (omega arith, (tt, tt))), tt)))

dispatch-IsValid_example : IsValid (dispatch runtime locked set_ex two_keys known).0
dispatch-IsValid_example = dispatch-IsValid runtime locked set_ex two_keys known two_keys-IsValid

dispatch-noauth_example :
    Guarded locked
      (upper runtime (codes "set"))
      (hits ∷ codes "10" ∷ [])
      two_keys
      stranger
      (dispatch runtime locked (codes "set" ∷ hits ∷ codes "10" ∷ []) two_keys stranger)
dispatch-noauth_example =
    dispatch-noauth runtime locked (codes "set") (codes "s3cret") (hits ∷ codes "10" ∷ []) two_keys
      stranger refl refl

set_command-panic_example :
    set_command runtime locked
      (name ∷ hits ∷ codes "EX" ∷ nat_to_string 9223372036854775807 ∷ [])
      two_keys
    ≡ (two_keys, panic)
set_command-panic_example =
    set_command-panic runtime locked name hits 9223372036854775807 two_keys (omega arith)
      (omega arith) (omega arith)

get_command-set_command_example :
    ((set_command runtime locked (name ∷ hits ∷ []) two_keys).1 ≡ reply ok_reply)
    × ((get_command locked (name ∷ []) (set_command runtime locked (name ∷ hits ∷ []) two_keys).0).1
        ≡ reply (bulk (some hits)))
get_command-set_command_example =
    get_command-set_command runtime locked locked name hits two_keys two_keys-IsValid
