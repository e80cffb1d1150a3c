-- ===== src/Writer/Entries.antt =====
-- src/writer/mod.rs: the bytes of one entry, and the changes of a single page: a new entry, the
-- removal of one, the copies of a split, and the new root.
pub mod Written
pub mod Pointers
use db.Prelude.{
  ℕ, zero, suc, ◌+◌, ◌-◌, ◌*◌, ◌/◌, ◌%◌, List, [], ◌∷◌, length, take, slice, ◌==◌, ltb, leb,
  if◌then◌else◌, Option, none, some, false,
}
use db.Outcomes.{Outcome, ok, ◌>>=◌, ◌>>◌, assert, expect, to_u32, sub_usize}
use db.Words.{Endian, u32_from}
use db.Format.{
  align_entry, bleaf_header_size, binternal_header_size, max_psize, p_binternal, page_header_size,
}
use db.Page.{PageView, parse, leaf_entry, internal_entry, inline_bytes}
use db.PageBuf.{
  lower, upper, nentries, linp, flags, set_lower, set_upper, set_linp, set_flags, write_u32,
  copy_into, copy_within, reserve_slot,
}

unfoldable pub len_as_u32 : ℕ → Outcome ℕ
len_as_u32 len = do assert (leb len max_psize); to_u32 len

-- The space that an entry takes on a page: header, key and value, aligned.
abbrev pub leaf_nbytes : ℕ → ℕ → ℕ
leaf_nbytes klen vlen = align_entry (bleaf_header_size + klen + vlen)

abbrev pub internal_nbytes : ℕ → ℕ
internal_nbytes klen = align_entry (binternal_header_size + klen)

module _ (h : Endian) where
  unfoldable pub read_u32_at : List ℕ → ℕ → Outcome ℕ
  read_u32_at buf off = do b ← expect (slice buf off (off + 4)); ok (u32_from h b 0)

  unfoldable pub write_bleaf_inline : List ℕ → ℕ → List ℕ → List ℕ → Outcome (List ℕ)
  write_bleaf_inline bytes off key val = do
    klen ← len_as_u32 (length key)
    b0 ← write_u32 h bytes off klen
    vlen ← len_as_u32 (length val)
    b1 ← write_u32 h b0 (off + 4) vlen
    b2 ← copy_into b1 (off + 8) (0 ∷ [])
    b3 ← copy_into b2 (off + bleaf_header_size) key
    copy_into b3 (off + bleaf_header_size + length key) val

  unfoldable pub write_binternal_inline : List ℕ → ℕ → ℕ → List ℕ → ℕ → Outcome (List ℕ)
  write_binternal_inline bytes off ksize key child = do
    assert (leb ksize (length key))
    klen ← len_as_u32 ksize
    b0 ← write_u32 h bytes off klen
    b1 ← write_u32 h b0 (off + 4) child
    b2 ← copy_into b1 (off + 8) (0 ∷ [])
    copy_into b2 (off + binternal_header_size) (take ksize key)

  unfoldable pub insert_leaf_entry : ℕ → List ℕ → List ℕ → List ℕ → Outcome (List ℕ)
  insert_leaf_entry idx key val page = do
    slot ← reserve_slot h page idx (leaf_nbytes (length key) (length val))
    write_bleaf_inline slot.0 slot.1 key val

  unfoldable pub insert_internal_in_place : ℕ → ℕ → List ℕ → ℕ → List ℕ → Outcome (List ℕ)
  insert_internal_in_place skip nksize sep_key child page = do
    slot ← reserve_slot h page skip (internal_nbytes nksize)
    write_binternal_inline slot.0 slot.1 nksize sep_key child

  -- The reserved slot `slot` of a fresh split page.
  unfoldable pub write_entry_at_slot : ℕ → List ℕ → List ℕ → List ℕ → Outcome (List ℕ)
  write_entry_at_slot slot key val dst = do
    up ← upper h dst
    new_upper ← sub_usize up (leaf_nbytes (length key) (length val))
    d0 ← set_upper h dst new_upper
    d1 ← set_linp h d0 slot new_upper
    write_bleaf_inline d1 new_upper key val

  unfoldable pub write_internal_entry_at_slot : ℕ → ℕ → List ℕ → ℕ → List ℕ → Outcome (List ℕ)
  write_internal_entry_at_slot slot nksize sep_key child dst = do
    up ← upper h dst
    new_upper ← sub_usize up (internal_nbytes nksize)
    d0 ← set_upper h dst new_upper
    d1 ← set_linp h d0 slot new_upper
    write_binternal_inline d1 new_upper nksize sep_key child

  unfoldable pub copy_one : PageView → ℕ → ℕ → List ℕ → Outcome (List ℕ)
  unfolding write_entry_at_slot
  copy_one view src_idx dst_slot dst = do
    entry ← leaf_entry h view src_idx
    key ← inline_bytes view entry.key
    val ← inline_bytes view entry.value
    write_entry_at_slot dst_slot key val dst

  unfoldable pub copy_internal_one : PageView → ℕ → ℕ → List ℕ → Outcome (List ℕ)
  unfolding write_internal_entry_at_slot
  copy_internal_one view src_idx dst_slot dst = do
    entry ← internal_entry h view src_idx
    key ← inline_bytes view entry.key
    write_internal_entry_at_slot dst_slot (length key) key entry.child dst

  -- `if Some(slot) == reserve_at { slot += 1 }`
  unfoldable pub skip_reserved : Option ℕ → ℕ → ℕ
  skip_reserved none slot = slot
  skip_reserved (some r) slot = if r == slot then slot + 1 else slot

  -- The loop of both copies, over the `count` indices from `src_idx` on; `copy` is the copy of one
  -- entry. The last slot count goes into `lower`.
  unfoldable pub copy_loop :
      (ℕ → ℕ → List ℕ → Outcome (List ℕ)) → Option ℕ → ℕ → ℕ → ℕ → List ℕ → Outcome (List ℕ)
  unfolding skip_reserved
  copy_loop copy reserve_at zero src_idx slot dst =
      set_lower h dst (page_header_size + skip_reserved reserve_at slot * 2)
  copy_loop copy reserve_at (suc count) src_idx slot dst = do
    dst' ← copy src_idx (skip_reserved reserve_at slot) dst
    copy_loop copy reserve_at count (src_idx + 1) (skip_reserved reserve_at slot + 1) dst'

  -- `copy_entries` over the range `start..end`
  unfoldable pub copy_entries : PageView → ℕ → ℕ → Option ℕ → List ℕ → Outcome (List ℕ)
  unfolding copy_one copy_loop
  copy_entries view start end reserve_at dst =
      copy_loop (copy_one view) reserve_at (end - start) start 0 dst

  unfoldable pub copy_internal_entries : PageView → ℕ → ℕ → Option ℕ → List ℕ → Outcome (List ℕ)
  unfolding copy_internal_one copy_loop
  copy_internal_entries view start end reserve_at dst =
      copy_loop (copy_internal_one view) reserve_at (end - start) start 0 dst

  -- The two loops of `delete_leaf_entry` over `linp[]`, each over `count` slots from `i` on. The
  -- first writes the pointers that move in their own slots; the second writes each pointer of the
  -- slot behind, moved or not, into the slot.
  unfoldable pub shift_before : ℕ → ℕ → ℕ → ℕ → List ℕ → Outcome (List ℕ)
  shift_before offset nbytes zero i page = ok page
  shift_before offset nbytes (suc count) i page = do
    v ← linp h page i
    page' ← if ltb v offset then set_linp h page i (v + nbytes) else ok page
    shift_before offset nbytes count (i + 1) page'

  unfoldable pub shift_after : ℕ → ℕ → ℕ → ℕ → List ℕ → Outcome (List ℕ)
  shift_after offset nbytes zero i page = ok page
  shift_after offset nbytes (suc count) i page = do
    v ← linp h page (i + 1)
    page' ← set_linp h page i (if ltb v offset then v + nbytes else v)
    shift_after offset nbytes count (i + 1) page'

  unfoldable pub delete_leaf_entry : ℕ → List ℕ → Outcome (List ℕ)
  unfolding shift_before shift_after
  delete_leaf_entry idx page = do
    low ← lower h page
    up ← upper h page
    n ← nentries h page
    offset ← linp h page idx
    ksize ← read_u32_at page offset
    dsize ← read_u32_at page (offset + 4)
    p0 ← copy_within page up offset (up + leaf_nbytes ksize dsize)
    p1 ← shift_before offset (leaf_nbytes ksize dsize) idx 0 p0
    last ← sub_usize n 1
    p2 ← shift_after offset (leaf_nbytes ksize dsize) (last - idx) idx p1
    new_lower ← sub_usize low 2
    p3 ← set_lower h p2 new_lower
    set_upper h p3 (up + leaf_nbytes ksize dsize)

  unfoldable pub leaf_first_key : List ℕ → Outcome (List ℕ)
  leaf_first_key page = do
    view ← parse h 0 page false
    entry ← leaf_entry h view 0
    inline_bytes view entry.key

  unfoldable pub leaf_last_key : List ℕ → Outcome (List ℕ)
  leaf_last_key page = do
    view ← parse h 0 page false
    last ← sub_usize view.nentries 1
    entry ← leaf_entry h view last
    inline_bytes view entry.key

  unfoldable pub first_internal_key : List ℕ → Outcome (List ℕ)
  first_internal_key page = do
    view ← parse h 0 page false
    entry ← internal_entry h view 0
    inline_bytes view entry.key

  -- `(flags & !P_TYPE) | P_BINTERNAL` is `flags / 32 * 32 + 1`: `P_BINTERNAL` is one of the bits
  -- that the mask clears.
  unfoldable pub convert_root_to_internal : ℕ → ℕ → ℕ → List ℕ → List ℕ → Outcome (List ℕ)
  convert_root_to_internal psize l_pgno r_pgno r_first_key p = do
    upper0 ← sub_usize psize (internal_nbytes 0)
    upper1 ← sub_usize upper0 (internal_nbytes (length r_first_key))
    p0 ← write_binternal_inline p upper0 0 [] l_pgno
    p1 ← write_binternal_inline p0 upper1 (length r_first_key) r_first_key r_pgno
    p2 ← set_linp h p1 0 upper0
    p3 ← set_linp h p2 1 upper1
    p4 ← set_lower h p3 (page_header_size + 4)
    p5 ← set_upper h p4 upper1
    f ← flags h p5
    set_flags h p5 (f / 32 * 32 + p_binternal)
