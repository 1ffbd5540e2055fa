-- ===== src/Scan/Pages.antt =====
-- The pages of a scan, put together.
use pg_resp.Prelude.{
  drop-drop, drop-all, nat_eq, ℕ, zero, suc, ◌+◌, ◌-◌, ◌≤◌, ◌<◌, ◌≡◌, sym, ap, ◌∙◌, arith, List, [],
  ◌++◌, Bytes, length, take, drop, leb, if◌then◌else◌, if_intro, take-append-drop, append-nil,
}
use Prim.Native.Nat.{min, max}
use pg_resp.Store.Types.{ScanState}
use pg_resp.Scan.{take_page}

-- Page after page until the position has reached the end.
unfoldable pub pages : ℕ → ℕ → ScanState → List Bytes
pages zero count st = []
pages (suc f) count st =
    let (st', page) = take_page st count in
    let rest = pages f count st' in
    if leb (length st'.snapshot) st'.position then page else page ++ rest

-- The rest behind a cut, put back.
pub rejoin : (p q : ℕ) (xs : List Bytes) → p ≤ q → take (q - p) (drop p xs) ++ drop q xs ≡ drop p xs
rejoin p q xs h =
    let there : p + (q - p) ≡ q = omega arith in
    ap (◌++◌ (take (q - p) (drop p xs))) (sym (drop-drop p (q - p) xs ∙ ap (λ m. drop m xs) there))
    ∙ take-append-drop (q - p) (drop p xs)

pages_from :
    (f count : ℕ) (st : ScanState)
    → st.position ≤ length st.snapshot
    → length st.snapshot - st.position < f
    → pages f count st ≡ drop st.position st.snapshot
unfolding pages take_page
pages_from zero count st le room = absurd (omega arith)
pages_from (suc f) count st le room =
    let end : ℕ = min (st.position + max count 1) (length st.snapshot) in
    let page = take (end - st.position) (drop st.position st.snapshot) in
    let onward : st.position ≤ end = omega arith in
    let whole = rejoin st.position end st.snapshot onward in
    if_intro {A = List Bytes} (λ p. p ≡ drop st.position st.snapshot) (leb (length st.snapshot) end)
      (λ last.
        let done : length st.snapshot ≤ end = ground arith in
        sym (append-nil page) ∙ ap (◌++◌ page) (sym (drop-all end st.snapshot done)) ∙ whole)
      (λ more.
        let inside : end ≤ length st.snapshot = omega arith in
        let left : length st.snapshot - end < f = ground arith in
        ap (◌++◌ page) (pages_from f count (record st { position = end }) inside left) ∙ whole)

-- The pages of a scan, taken until it answers that it has ended, are together the snapshot that was
-- taken at its start: every key of it once, whatever the page size.
pub pages-snapshot :
    (count : ℕ) (st : ScanState)
    → st.position ≡ 0
    → pages (suc (length st.snapshot)) count st ≡ st.snapshot
pages-snapshot count st z =
    let le : st.position ≤ length st.snapshot = omega (arith, z) in
    let room : length st.snapshot - st.position < suc (length st.snapshot) = omega arith in
    pages_from (suc (length st.snapshot)) count st le room ∙ ap (λ p. drop p st.snapshot) z
