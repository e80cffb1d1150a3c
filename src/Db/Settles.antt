-- ===== src/Db/Settles.antt =====
-- The reader settles on every file: no list of bytes makes it panic, and only the walks over page
-- links can go on without an end.
use db.Prelude.{ℕ, zero, suc, ◌-◌, ◌<◌, ◌≡◌, List, [], true, arith, min, length, length-drop, ◌≤◌}
use db.Outcomes.{ok, sub_usize-eq-ok}
use db.Outcomes.Settles.{settles}
use db.Words.{Endian}
use db.Format.{page_header_size}
use db.Page.{PageView, ItemRef, inline, overflow}
use db.Page.Settles.{
  parse-settles, parse-roomy, leaf_entry-settles, internal_entry-settles, inline_bytes-settles,
}
use db.Bisect.Ends.{bisect_all-settles}
use db.Db.{Db, page}
use db.Db.Overflow.{
  chain_page, chain_part, fetch_loop, fetch_overflow, compare_part, compare_loop, compare_overflow,
  compare_item, materialise,
}
use db.Db.Search.{leaf_probe, search_leaf, internal_probe, descend_internal}

module _ (h : Endian) (db : Db) where
  pub page-settles : (pgno : ℕ) → settles (page db pgno) ≡ true
  unfolding page
  page-settles pgno = ground arith

  chain_page-settles : (start pgno : ℕ) → settles (chain_page h db start pgno) ≡ true
  unfolding chain_page
  chain_page-settles start pgno = grind (arith, page-settles, parse-settles)

  chain_page-roomy :
      (start pgno : ℕ) (view : PageView)
      → chain_page h db start pgno ≡ ok view
      → page_header_size ≤ length view.bytes
  unfolding chain_page
  chain_page-roomy start pgno view e = grind (arith, parse-roomy h pgno)

  chain_part-settles : (start pgno want : ℕ) → settles (chain_part h db start pgno want) ≡ true
  unfolding chain_part
  chain_part-settles start pgno want =
      grind (arith, chain_page-settles start pgno, chain_page-roomy start pgno)

  compare_part-settles :
      (key : List ℕ) (consumed : ℕ) (other : List ℕ)
      → settles (compare_part key consumed other) ≡ true
  unfolding compare_part
  compare_part-settles key consumed other = ground (arith, length-drop consumed key)

  module _ (roomy : page_header_size < db.psize) where
    fetch_loop-settles :
        (start per_page fuel pgno remaining : ℕ) (out : List ℕ)
        → 0 < per_page
        → remaining < fuel
        → settles (fetch_loop h db start per_page fuel pgno remaining out) ≡ true
    unfolding fetch_loop
    fetch_loop-settles start per_page zero pgno remaining out some_room enough =
        absurd (omega arith)
    fetch_loop-settles start per_page (suc fuel) pgno remaining out some_room enough = grind (
      arith,
      chain_part-settles start pgno (min remaining per_page),
      fetch_loop-settles start per_page fuel,
    )

    -- On pages longer than their header, reading an overflow chain of any size ends with bytes or an
    -- error, whatever the page links are.
    pub fetch_overflow-settles : (start size : ℕ) → settles (fetch_overflow h db start size) ≡ true
    unfolding fetch_overflow
    fetch_overflow-settles start size =
        rw (sub_usize-eq-ok db.psize page_header_size (omega arith)) (
          fetch_loop-settles start (db.psize - page_header_size) (suc size) start size []
            (omega arith) (omega arith))

    compare_loop-settles :
        (key : List ℕ) (start per_page total fuel pgno consumed : ℕ)
        → 0 < per_page
        → total - consumed < fuel
        → settles (compare_loop h db key start per_page total fuel pgno consumed) ≡ true
    unfolding compare_loop
    compare_loop-settles key start per_page total zero pgno consumed some_room enough =
        absurd (omega arith)
    compare_loop-settles key start per_page total (suc fuel) pgno consumed some_room enough =
        grind (
          arith,
          chain_part-settles start pgno (min (total - consumed) per_page),
          compare_part-settles key consumed,
          compare_loop-settles key start per_page total fuel,
        )

    compare_overflow-settles :
        (key : List ℕ) (start size : ℕ) → settles (compare_overflow h db key start size) ≡ true
    unfolding compare_overflow
    compare_overflow-settles key start size =
        rw (sub_usize-eq-ok db.psize page_header_size (omega arith)) (
          compare_loop-settles key start (db.psize - page_header_size) size (suc size) start 0
            (omega arith) (omega arith))

    compare_item-settles :
        (key : List ℕ) (view : PageView) (item : ItemRef)
        → settles (compare_item h db key view item) ≡ true
    unfolding compare_item
    compare_item-settles key view (inline off len) =
        ground (arith, inline_bytes-settles h view (inline off len))
    compare_item-settles key view (overflow pgno size) = compare_overflow-settles key pgno size

    pub materialise-settles :
        (view : PageView) (item : ItemRef) → settles (materialise h db view item) ≡ true
    unfolding materialise
    materialise-settles view (inline off len) = inline_bytes-settles h view (inline off len)
    materialise-settles view (overflow pgno size) = fetch_overflow-settles pgno size

    leaf_probe-settles :
        (view : PageView) (key : List ℕ) (i : ℕ) → settles (leaf_probe h db view key i) ≡ true
    unfolding leaf_probe
    leaf_probe-settles view key i = grind (arith, leaf_entry-settles h view i, compare_item-settles)

    pub search_leaf-settles :
        (view : PageView) (key : List ℕ) → settles (search_leaf h db view key) ≡ true
    unfolding search_leaf
    search_leaf-settles view key = grind (
      arith,
      bisect_all-settles (leaf_probe h db view key) (leaf_probe-settles view key) view.nentries,
    )

    internal_probe-settles :
        (view : PageView) (key : List ℕ) (i : ℕ) → settles (internal_probe h db view key i) ≡ true
    unfolding internal_probe
    internal_probe-settles view key i =
        grind (arith, internal_entry-settles h view i, compare_item-settles)

    pub descend_internal-settles :
        (view : PageView) (key : List ℕ) → settles (descend_internal h db view key) ≡ true
    unfolding descend_internal
    descend_internal-settles view key = grind (
      arith,
      bisect_all-settles (internal_probe h db view key) (internal_probe-settles view key)
          view.nentries,
      internal_entry-settles,
    )
