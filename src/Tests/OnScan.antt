-- ===== src/Tests/OnScan.antt =====
-- The theorems on SCAN cursors and glob patterns at concrete inputs.
use pg_resp.Prelude.{◌≡◌, ◌↔◌, true, ◌≤◌, arith, [], ◌∷◌, length, codes}
use pg_resp.Store.Types.{ScanState, ScanRegistry, max_live_cursors}
use pg_resp.Scan.{scan}
use pg_resp.Scan.Capacity.{scan-bound}
use pg_resp.Glob.{glob_match}
use pg_resp.Glob.Meaning.{Matches}
use pg_resp.Glob.Decides.{glob_match_iff}
use pg_resp.Tests.Samples.{same_order, hits, name}

abbrev begun_scan : ScanState
begun_scan = record { snapshot = hits ∷ name ∷ codes "other" ∷ []; position = 0; last_used = 5 }

abbrev one_cursor : ScanRegistry
one_cursor = record { cursors = (1, begun_scan) ∷ []; next_id = 1 }

scan-bound_example :
    length (scan same_order 6 0 1 (hits ∷ name ∷ []) one_cursor).0.cursors ≤ max_live_cursors
scan-bound_example = scan-bound same_order 6 0 1 (hits ∷ name ∷ []) one_cursor (omega arith)

glob_match_iff_example :
    (glob_match (codes "user:*:[a-f]?\\*") (codes "user:17:b7*") ≡ true)
    ↔ Matches (codes "user:*:[a-f]?\\*") (codes "user:17:b7*")
glob_match_iff_example = glob_match_iff (codes "user:*:[a-f]?\\*") (codes "user:17:b7*")
