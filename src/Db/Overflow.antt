-- ===== src/Db/Overflow.antt =====
-- src/db.rs: reading an overflow chain, and comparing a key with one. Each round takes at least a
-- byte of the item on a page longer than its header, so `size + 1` rounds are enough.
pub mod Compare
pub mod Whole
use db.Prelude.{
  ℕ, zero, suc, ◌+◌, List, [], ◌++◌, length, Bool, not, ◌==◌, ltb, leb, min, if◌then◌else◌,
  Ordering, compare, Option, none, some,
}
use db.Outcomes.{
  Outcome, ok, err, panic, out_of_fuel, ◌>>=◌, ◌>>◌, fail_if, corrupt_overflow, sub_usize,
  slice_from, slice_to,
}
use db.Words.{Endian}
use db.Format.{p_invalid, page_header_size}
use db.Page.{
  PageView, ItemRef, inline, overflow, inline_bytes, parse, is_overflow, overflow_payload,
}
use db.Order.{cmp}
use db.Db.{Db, page}

-- one comparison of `key[consumed..]` with the bytes `other` of a page: `none` goes on
unfoldable pub compare_part : List ℕ → ℕ → List ℕ → Outcome (Option Ordering)
compare_part key consumed other = if leb (length key) consumed then ok (some Ordering.lt) else do
  key_rest ← slice_from key consumed
  let cmp_len = min (length key_rest) (length other)
  key_part ← slice_to key_rest cmp_len
  other_part ← slice_to other cmp_len
  elim (cmp key_part other_part) [
    | Ordering.eq ↦ ok (if ltb (length key_rest) (length other) then some Ordering.lt else none)
    | Ordering.lt ↦ ok (some Ordering.lt)
    | Ordering.gt ↦ ok (some Ordering.gt)
  ]

module _ (h : Endian) (db : Db) where
  -- Page `pgno` of the chain from `start_pgno`, checked as both loops check it.
  unfoldable pub chain_page : ℕ → ℕ → Outcome PageView
  chain_page start_pgno pgno = do
    fail_if (pgno == p_invalid) (corrupt_overflow start_pgno)
    bytes ← page db pgno
    view ← parse h pgno bytes db.swap
    fail_if (not (is_overflow view)) (corrupt_overflow start_pgno)
    ok view

  -- The part of one round that both loops share: `want` bytes of that page, and the next page
  -- number.
  unfoldable pub chain_part : ℕ → ℕ → ℕ → Outcome (List ℕ × ℕ)
  chain_part start_pgno pgno want = do
    view ← chain_page start_pgno pgno
    payload ← overflow_payload view
    fail_if (ltb (length payload) want) (corrupt_overflow start_pgno)
    bytes ← slice_to payload want
    ok (bytes, view.next_pg)

  -- `while remaining > 0` of `fetch_overflow`
  unfoldable pub fetch_loop : (start_pgno per_page : ℕ) → ℕ → ℕ → ℕ → List ℕ → Outcome (List ℕ)
  fetch_loop start_pgno per_page zero pgno remaining out = out_of_fuel
  fetch_loop start_pgno per_page (suc fuel) pgno remaining out =
      if remaining == 0 then ok out else do
        part ← chain_part start_pgno pgno (min remaining per_page)
        left ← sub_usize remaining (min remaining per_page)
        fetch_loop start_pgno per_page fuel part.1 left (out ++ part.0)

  unfoldable pub fetch_overflow : ℕ → ℕ → Outcome (List ℕ)
  fetch_overflow start_pgno size = do
    per_page ← sub_usize db.psize page_header_size
    fetch_loop start_pgno per_page (suc size) start_pgno size []

  -- `while consumed < total` of `compare_overflow`
  unfoldable pub compare_loop :
      List ℕ → (start_pgno per_page total : ℕ) → ℕ → ℕ → ℕ → Outcome Ordering
  compare_loop key start_pgno per_page total zero pgno consumed = out_of_fuel
  compare_loop key start_pgno per_page total (suc fuel) pgno consumed =
      if not (ltb consumed total) then ok (compare (length key) total) else do
        left ← sub_usize total consumed
        part ← chain_part start_pgno pgno (min left per_page)
        decided ← compare_part key consumed part.0
        elim decided [
          | some ord ↦ ok ord
          | none ↦
              compare_loop key start_pgno per_page total fuel part.1 (consumed + min left per_page)
        ]

  unfoldable pub compare_overflow : List ℕ → ℕ → ℕ → Outcome Ordering
  compare_overflow key start_pgno size = do
    per_page ← sub_usize db.psize page_header_size
    compare_loop key start_pgno per_page size (suc size) start_pgno 0

  unfoldable pub compare_item : List ℕ → PageView → ItemRef → Outcome Ordering
  compare_item key view (inline off len) = do
    bytes ← inline_bytes view (inline off len)
    ok (cmp key bytes)
  compare_item key view (overflow pgno size) = compare_overflow key pgno size

  -- `Cow::Borrowed` and `Cow::Owned` are both the list of bytes.
  unfoldable pub materialise : PageView → ItemRef → Outcome (List ℕ)
  materialise view (inline off len) = inline_bytes view (inline off len)
  materialise view (overflow pgno size) = fetch_overflow pgno size
