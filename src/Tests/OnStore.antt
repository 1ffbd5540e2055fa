-- ===== src/Tests/OnStore.antt =====
-- The theorems on the store at concrete inputs.
use pg_resp.Prelude.{
  bytes_eq, bytes_beq, ◌≡◌, refl, ◌==◌, true, false, none, some, [], ◌∷◌, Bytes, codes, is_some,
  if◌then◌else◌, arith,
}
use pg_resp.Prelude.Int.{pos}
use pg_resp.HashMap.{lookup}
use pg_resp.Store.Types.{Entry, keep_ttl, if_not_exists}
use pg_resp.Store.Account.{is_live, sample, insert_accounted}
use pg_resp.Store.Account.Budget.{Fits, insert_accounted-Fits}
use pg_resp.Store.Account.View.{visible, alive, alive_at}
use pg_resp.Store.Values.{get, set, incr_by, fresh}
use pg_resp.Store.Values.Reads.{value_of, get-visible}
use pg_resp.Store.Values.Writes.{
  applies, new_deadline, set-visible, number_at, deadline_at, sum_outcome, sum_visible,
  incr_by-visible,
}
use pg_resp.Store.Expire.{expire, ttl_seconds, pttl_millis}
use pg_resp.Store.Expire.Laws.{expire-visible, ttl_nearest, redate}
use pg_resp.Store.Keyspace.{del, random_key}
use pg_resp.Store.Keyspace.Laws.{contains, visible-del, random_key_expired}
use pg_resp.Tests.Samples.{
  seeds, hits, name, hits_entry, name_entry, two_keys, two_keys-IsValid, two_expired,
  two_expired-IsValid,
}

abbrev other : Bytes
other = codes "other"

get-visible_example : (get 1 name two_keys).1 ≡ value_of (visible 1 name two_keys)
get-visible_example = get-visible 1 name two_keys two_keys-IsValid

set-visible_example :
    ((set seeds 1 hits (codes "8") keep_ttl if_not_exists true two_keys).1.applied
      ≡ applies if_not_exists (visible 1 hits two_keys))
    × ((set seeds 1 hits (codes "8") keep_ttl if_not_exists true two_keys).1.old_value
        ≡ (if true then value_of (visible 1 hits two_keys) else none))
    × (visible 1 hits (set seeds 1 hits (codes "8") keep_ttl if_not_exists true two_keys).0 ≡ (
        if applies if_not_exists (visible 1 hits two_keys)
        then alive 1 (codes "8", new_deadline keep_ttl (visible 1 hits two_keys))
        else visible 1 hits two_keys))
set-visible_example =
    set-visible seeds 1 hits (codes "8") keep_ttl if_not_exists true two_keys two_keys-IsValid

keys_differ : (other == name) ≡ false
unfolding bytes_beq
keys_differ = refl

incr_by-visible_example :
    ((incr_by seeds 1 hits (pos 5) two_keys).1
      ≡ sum_outcome (number_at (visible 1 hits two_keys)) (pos 5))
    × (visible 1 hits (incr_by seeds 1 hits (pos 5) two_keys).0
        ≡ sum_visible 1
            (visible 1 hits two_keys)
            (sum_outcome (number_at (visible 1 hits two_keys)) (pos 5)))
incr_by-visible_example = incr_by-visible seeds 1 hits (pos 5) two_keys two_keys-IsValid

other_number : number_at (visible 1 other two_keys) ≡ some (pos 0)
unfolding bytes_beq lookup is_live
other_number = refl

other_deadline : deadline_at (visible 1 other two_keys) ≡ none
unfolding bytes_beq lookup is_live
other_deadline = refl

expire-visible_example :
    ((expire 1 name 9 two_keys).1 ≡ is_some (visible 1 name two_keys))
    × (visible 1 name (expire 1 name 9 two_keys).0 ≡ (
        if name == name
        then alive_at 1 (redate (some 9) (visible 1 name two_keys))
        else visible 1 name two_keys))
expire-visible_example = expire-visible 1 name name 9 two_keys two_keys-IsValid

hits_visible : visible 1000000000 hits two_keys ≡ some (codes "7", some 5000000000)
unfolding bytes_beq lookup is_live
hits_visible = refl

-- four seconds left
ttl_nearest_example :
    ((pttl_millis 1000000000 hits two_keys).1 ≡ pos 4000)
    × ((ttl_seconds 1000000000 hits two_keys).1 ≡ pos 4)
ttl_nearest_example =
    ttl_nearest 1000000000 hits (codes "7") 5000000000 two_keys two_keys-IsValid hits_visible
      (omega arith)

visible-del_example :
    visible 1 name (del 1 (hits ∷ other ∷ []) two_keys).0
    ≡ (if contains name (hits ∷ other ∷ []) then none else visible 1 name two_keys)
visible-del_example = visible-del 1 (hits ∷ other ∷ []) name two_keys two_keys-IsValid

random_key_expired_example :
    ((random_key 9000000000 two_expired).1 ≡ some name)
    × (visible 9000000000 name two_expired ≡ none)
unfolding is_live
random_key_expired_example =
    random_key_expired 9000000000 two_expired hits name hits_entry
      (record name_entry { expires_at = some 6000000000 }) [] two_expired-IsValid refl refl refl

abbrev newcomer : Entry
newcomer = fresh (codes "x") none

-- a third entry does not fit, and the unreferenced one goes
insert_accounted-Fits_example : Fits 250 other (insert_accounted seeds other newcomer two_keys)
insert_accounted-Fits_example =
    insert_accounted-Fits seeds other newcomer two_keys 250 two_keys-IsValid.distinct refl

sampled : (sample 20 other none two_keys.map).1 ≡ some name
unfolding bytes_beq sample
sampled = refl

all_referenced : (sample 1 other none two_keys.map).1 ≡ none
unfolding bytes_beq sample
all_referenced = refl
