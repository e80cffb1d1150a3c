-- ===== src/Writer/Split.antt =====
-- src/writer/mod.rs: the pages that a split builds, up to its commit. Nothing here changes the
-- arena.
use db.Prelude.{ℕ, ◌+◌, List, [], length, false, if◌then◌else◌}
use db.Outcomes.{Outcome, ok, ◌>>=◌, sub_usize, to_u32}
use db.Words.{Endian}
use db.Format.{p_root, page_header_size}
use db.Page.{parse, leaf_entry, inline_bytes}
use db.PageBuf
use db.Writer.{Writer, empty_leaf, empty_internal, page_bytes, next_free_pgno}
use db.Writer.Entries.{
  leaf_nbytes, internal_nbytes, copy_entries, copy_internal_entries, write_entry_at_slot,
  write_internal_entry_at_slot, leaf_first_key, leaf_last_key, first_internal_key,
  convert_root_to_internal,
}
use db.Writer.Plan.{
  h_in_l, l_skip, r_skip, target_slot, compute_psplit_split_leaf, compute_psplit_split_internal,
}
use db.Writer.Separator.{Separator, sep_key, child}

-- The two pages of a split, and what its caller needs of them.
pub record Halves : Type 0 where
  pub l : List ℕ
  pub r : List ℕ
  pub l_pgno : ℕ
  pub r_pgno : ℕ
  pub next : ℕ
  pub l_last_key : List ℕ
  pub r_first_key : List ℕ

module _ (h : Endian) where
  -- The part that both leaf splits share: entries of `old` and the new pair, onto two pages with
  -- headers.
  unfoldable pub share_leaf :
      ℕ → List ℕ → ℕ → ℕ → List ℕ → List ℕ → List ℕ → List ℕ → Outcome (List ℕ × List ℕ)
  share_leaf pgno old psize skip key val l_buf r_buf = do
    view ← parse h pgno old false
    plan ← compute_psplit_split_leaf h view skip (leaf_nbytes (length key) (length val)) psize
    l ← copy_entries h view 0 (h_in_l plan) (l_skip plan skip) l_buf
    r ← copy_entries h view (h_in_l plan) view.nentries (r_skip plan skip) r_buf
    let on_right = do r' ← write_entry_at_slot h (target_slot plan skip) key val r; ok (l, r')
    let on_left = do l' ← write_entry_at_slot h (target_slot plan skip) key val l; ok (l', r)
    if plan.right_target then on_right else on_left

  unfoldable pub share_internal :
      ℕ → List ℕ → ℕ → ℕ → Separator → ℕ → List ℕ → List ℕ → Outcome (List ℕ × List ℕ)
  share_internal pgno old psize skip sep nksize l_buf r_buf = do
    view ← parse h pgno old false
    plan ← compute_psplit_split_internal h view skip (internal_nbytes nksize) psize
    l ← copy_internal_entries h view 0 (h_in_l plan) (l_skip plan skip) l_buf
    r ← copy_internal_entries h view (h_in_l plan) view.nentries (r_skip plan skip) r_buf
    let slot = target_slot plan skip
    let on_right = do
      r' ← write_internal_entry_at_slot h slot nksize (sep_key sep) (child sep) r
      ok (l, r')
    let on_left = do
      l' ← write_internal_entry_at_slot h slot nksize (sep_key sep) (child sep) l
      ok (l', r)
    if plan.right_target then on_right else on_left

  -- The links of the pages that take the place of page `pgno`: `l` there, `r` behind it.
  unfoldable pub link_halves : List ℕ → ℕ → ℕ → List ℕ → List ℕ → Outcome (List ℕ × List ℕ × ℕ)
  link_halves old pgno r_pgno l_buf r_buf = do
    prev ← PageBuf.prev_pg h old
    l0 ← PageBuf.set_prev_pg h l_buf prev
    l1 ← PageBuf.set_next_pg h l0 r_pgno
    r0 ← PageBuf.set_prev_pg h r_buf pgno
    next ← PageBuf.next_pg h old
    r1 ← PageBuf.set_next_pg h r0 next
    ok (l1, r1, next)

  -- `split_leaf_full`, phase 1
  unfoldable pub leaf_halves : Writer → ℕ → ℕ → List ℕ → List ℕ → Outcome Halves
  leaf_halves w leaf_pgno skip key val = do
    r_pgno ← next_free_pgno w
    l_buf ← empty_leaf h leaf_pgno w.psize
    r_buf ← empty_leaf h r_pgno w.psize
    old ← page_bytes w leaf_pgno
    linked ← link_halves old leaf_pgno r_pgno l_buf r_buf
    pages ← share_leaf leaf_pgno old w.psize skip key val linked.0 linked.1
    l_last ← leaf_last_key h pages.0
    r_first ← leaf_first_key h pages.1
    ok (record {
      l = pages.0;
      r = pages.1;
      l_pgno = leaf_pgno;
      r_pgno = r_pgno;
      next = linked.2;
      l_last_key = l_last;
      r_first_key = r_first;
    })

  -- `split_internal_page`, phase 1
  unfoldable pub internal_halves : Writer → ℕ → ℕ → Separator → ℕ → Outcome Halves
  internal_halves w parent_pgno skip sep nksize = do
    r_pgno ← next_free_pgno w
    l_buf ← empty_internal h parent_pgno w.psize
    r_buf ← empty_internal h r_pgno w.psize
    old ← page_bytes w parent_pgno
    linked ← link_halves old parent_pgno r_pgno l_buf r_buf
    pages ← share_internal parent_pgno old w.psize skip sep nksize linked.0 linked.1
    r_first ← first_internal_key h pages.1
    ok (record {
      l = pages.0;
      r = pages.1;
      l_pgno = parent_pgno;
      r_pgno = r_pgno;
      next = linked.2;
      l_last_key = [];
      r_first_key = r_first;
    })

  -- The two pages of a root split and the new bytes of the root: `split_root_leaf` and
  -- `split_root_internal`, up to the commit. `share` is the part in which they differ.
  unfoldable pub root_halves :
      (ℕ → ℕ → Outcome (List ℕ))
      → (List ℕ → List ℕ → List ℕ → Outcome (List ℕ × List ℕ))
      → (List ℕ → Outcome (List ℕ))
      → Writer
      → Outcome (Halves × List ℕ)
  root_halves empty share first_key w = do
    l_pgno ← next_free_pgno w
    r_pgno ← to_u32 (l_pgno + 1)
    l_buf ← empty l_pgno w.psize
    r_buf ← empty r_pgno w.psize
    l0 ← PageBuf.set_next_pg h l_buf r_pgno
    r0 ← PageBuf.set_prev_pg h r_buf l_pgno
    old ← page_bytes w p_root
    pages ← share old l0 r0
    r_first ← first_key pages.1
    root ← convert_root_to_internal h w.psize l_pgno r_pgno r_first old
    ok (
      record {
        l = pages.0;
        r = pages.1;
        l_pgno = l_pgno;
        r_pgno = r_pgno;
        next = 0;
        l_last_key = [];
        r_first_key = r_first;
      },
      root,
    )

  -- `split_leaf_sorted_opt`, phase 1: the last key of the leaf, and the new page.
  unfoldable pub appended_leaf : Writer → ℕ → List ℕ → List ℕ → Outcome (List ℕ × ℕ × List ℕ)
  appended_leaf w leaf_pgno key val = do
    old ← page_bytes w leaf_pgno
    view ← parse h leaf_pgno old false
    last ← sub_usize view.nentries 1
    entry ← leaf_entry h view last
    l_last_key ← inline_bytes view entry.key
    r_pgno ← next_free_pgno w
    r0 ← empty_leaf h r_pgno w.psize
    r1 ← PageBuf.set_prev_pg h r0 leaf_pgno
    r2 ← PageBuf.set_lower h r1 (page_header_size + 2)
    r3 ← write_entry_at_slot h 0 key val r2
    ok (l_last_key, r_pgno, r3)

  -- `split_internal_sorted_opt`, phase 1
  unfoldable pub appended_internal : Writer → ℕ → Separator → ℕ → Outcome (ℕ × List ℕ)
  appended_internal w parent_pgno sep nksize = do
    r_pgno ← next_free_pgno w
    r0 ← empty_internal h r_pgno w.psize
    r1 ← PageBuf.set_prev_pg h r0 parent_pgno
    r2 ← PageBuf.set_lower h r1 (page_header_size + 2)
    r3 ← write_internal_entry_at_slot h 0 nksize (sep_key sep) (child sep) r2
    ok (r_pgno, r3)
