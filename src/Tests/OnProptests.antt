-- ===== src/Tests/OnProptests.antt =====
-- The property tests and the fuzz targets at concrete inputs.
use pg_resp.Prelude.{◌≡◌, refl, true, arith, List, [], ◌∷◌, codes}
use pg_resp.Prelude.Int.{pos, negsuc, ◌+ℤ◌}
use pg_resp.Proto.Fuzz.{fuzz_parse_command, fuzz_parse_reply, fuzz_targets_lem}
use pg_resp.Proptests.Limit.{
  never_exceeds_budget_by_more_than_one_entry, never_exceeds_budget_by_more_than_one_entry_lem,
}
use pg_resp.Proptests.Expired.{expired_keys_never_returned, expired_keys_never_returned_lem}
use pg_resp.Proptests.Counter.{incr_monotonic_under_churn, incr_monotonic_under_churn_lem}
use pg_resp.Proptests.Scans.{
  Churn, scan_never_misses_stable_keys_under_churn,
  scan_never_misses_stable_keys_across_forced_restarts,
  scan_never_returns_a_key_that_was_never_written,
}
use pg_resp.Proptests.Scans.Churned.{scan_never_misses_stable_keys_under_churn_lem}
use pg_resp.Proptests.Scans.Restarted.{scan_never_misses_stable_keys_across_forced_restarts_lem}
use pg_resp.Proptests.Scans.Written.{scan_never_returns_a_key_that_was_never_written_lem}
use pg_resp.Tests.Samples.{seeds}

abbrev churn : List Churn
churn = Churn.delete 3 ∷ Churn.insert 8 ∷ Churn.touch 1 ∷ Churn.idle ∷ []

scan_never_misses_stable_keys_under_churn_lem_example :
    scan_never_misses_stable_keys_under_churn seeds 7 5 2 churn ≡ true
scan_never_misses_stable_keys_under_churn_lem_example =
    scan_never_misses_stable_keys_under_churn_lem seeds 7 5 2 churn

scan_never_misses_stable_keys_across_forced_restarts_lem_example :
    scan_never_misses_stable_keys_across_forced_restarts seeds 7 5 2 (1 ∷ 0 ∷ 3 ∷ []) ≡ true
scan_never_misses_stable_keys_across_forced_restarts_lem_example =
    scan_never_misses_stable_keys_across_forced_restarts_lem seeds 7 5 2 (1 ∷ 0 ∷ 3 ∷ [])
      (omega arith) (omega arith)

scan_never_returns_a_key_that_was_never_written_lem_example :
    scan_never_returns_a_key_that_was_never_written seeds 7 5 2 (4 ∷ 9 ∷ []) ≡ true
scan_never_returns_a_key_that_was_never_written_lem_example =
    scan_never_returns_a_key_that_was_never_written_lem seeds 7 5 2 (4 ∷ 9 ∷ [])

never_exceeds_budget_by_more_than_one_entry_lem_example :
    never_exceeds_budget_by_more_than_one_entry seeds 7 ((3, 100) ∷ (4, 0) ∷ (3, 20) ∷ []) ≡ true
never_exceeds_budget_by_more_than_one_entry_lem_example =
    never_exceeds_budget_by_more_than_one_entry_lem seeds 7 ((3, 100) ∷ (4, 0) ∷ (3, 20) ∷ [])

expired_keys_never_returned_lem_example :
    expired_keys_never_returned seeds 7 (400 ∷ 999 ∷ []) ≡ true
expired_keys_never_returned_lem_example =
    expired_keys_never_returned_lem seeds 7 (400 ∷ 999 ∷ []) (omega arith, (omega arith, tt))

incr_monotonic_under_churn_lem_example :
    incr_monotonic_under_churn seeds 7 (pos 5 ∷ negsuc 8 ∷ []) ((3, 9) ∷ []) ≡ true
unfolding ◌+ℤ◌
incr_monotonic_under_churn_lem_example =
    incr_monotonic_under_churn_lem seeds 7 (pos 5 ∷ negsuc 8 ∷ []) (3, 9) [] (refl, (refl, tt))

fuzz_targets_lem_example :
    (fuzz_parse_command (codes "*1\r\n$4\r\nPING\r\n") ≡ true)
    × (fuzz_parse_reply (codes "*1\r\n$4\r\nPING\r\n") ≡ true)
fuzz_targets_lem_example = fuzz_targets_lem (codes "*1\r\n$4\r\nPING\r\n")
