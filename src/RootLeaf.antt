-- ===== src/RootLeaf.antt =====
-- The writer and the reader together, on a database of one leaf: `put`, then `finish`, `open` and
-- `get`, each with what it calls.
pub mod First
pub mod Fresh
pub mod Files
pub mod Puts
pub mod Dels
use db.Prelude.{
  ℕ, zero, suc, ◌+◌, ◌-◌, ◌*◌, ◌%◌, ◌≤◌, ◌<◌, ◌≡◌, ◌≢◌, refl, sym, ap, subst, ◌∙◌, List, [], length,
  window, splice, length-splice, length-window, window-splice_self, slice-eq-some, Bool, true,
  false, arith, Option, some, none, le→leb, ltb, leb,
}
use db.Outcomes.{Outcome, ok, err, entry_too_large, sub_usize-eq-ok}
use db.Words.{Endian, little, big, file_order}
use db.Words.Bytes.{AreBytes}
use db.Format.{p_root, p_bleaf, page_header_size}
use db.PageBuf
use db.PageBuf.Writes.{read_u32-eq-ok}
use db.PageBuf.Slots.{upper_of, lower_of, free_space-eq-ok}
use db.Db.{Db, open_db, page}
use db.Db.Search.{get}
use db.Writer.{Writer, page_bytes, page_mut, with_page, finish}
use db.Writer.Meta.{IsArena, differs, open-finish}
use db.Writer.Entries.{leaf_nbytes, insert_leaf_entry, delete_leaf_entry}
use db.Writer.Pages.{Spine, descend, descend_loop, leaf_search}
use db.Writer.Put.{put, put_at, too_large, del}
use db.LeafPage.{IsLeaf, IsPacked, key_at, val_at}
use db.LeafPage.Search.{IsSorted, IsPlace, get-stored, get-absent, leaf_search-IsPlace}
use db.LeafPage.Store.{leaf_search-insert_leaf_entry, leaf_search-held, leaf_search-IsPlace_of}

-- The root page of writer `w` is leaf `p`, of `n` entries with ascending keys that share no byte.
pub record IsRootLeaf (h : Endian) (w : Writer) (p : List ℕ) (n : ℕ) : Type 0 where
  pub arena : IsArena w
  pub two_pages : 2 * w.psize ≤ length w.pages
  pub root : window w.pages (p_root * w.psize) w.psize ≡ p
  pub leaf : IsLeaf h p n
  pub packed : IsPacked h p n
  pub bytes : AreBytes p
  pub sorted : IsSorted h p n

module _ (h : Endian) (w : Writer) (p : List ℕ) (n : ℕ) (v : IsRootLeaf h w p n) where
  pub root_bytes : page_bytes w p_root ≡ ok p
  unfolding page_bytes
  root_bytes =
      let size : p_root * w.psize + w.psize - p_root * w.psize ≡ w.psize = omega arith in
      rw (
        slice-eq-some w.pages (p_root * w.psize) (p_root * w.psize + w.psize) (omega arith)
            (omega (arith, v.two_pages)),
        size,
        v.root,
      )

  pub size_of_root : length p ≡ w.psize
  size_of_root =
      ap length (sym v.root)
      ∙ length-window w.pages (p_root * w.psize) w.psize (omega (arith, v.two_pages))

  descend-root :
      (fuel : ℕ) (key : List ℕ)
      → descend h (suc fuel) w key ≡ ok (record { path = []; leaf_pgno = p_root })
  unfolding descend descend_loop PageBuf.is_leaf PageBuf.flags
  descend-root fuel key =
      rw (
        root_bytes,
        read_u32-eq-ok h p 12 (omega (arith, v.leaf.slots.header_in)),
        v.leaf.leaf_flags,
      )

  -- The page changed in place.
  page_mut-root :
      (q : List ℕ) (change : List ℕ → Outcome (List ℕ))
      → change p ≡ ok q
      → page_mut p_root change w ≡ (ok tt, with_page w p_root q)
  unfolding page_mut
  page_mut-root q change e = rw (root_bytes, e)

  pub replaced :
      (q : List ℕ) (m : ℕ)
      → length q ≡ length p
      → IsLeaf h q m
      → IsPacked h q m
      → AreBytes q
      → IsSorted h q m
      → IsRootLeaf h (with_page w p_root q) q m
  replaced q m len leaf packed bytes sorted = record {
    arena = record {
      psize_low = v.arena.psize_low;
      psize_high = v.arena.psize_high;
      psize_even = v.arena.psize_even;
      whole = rw (length-splice w.pages (p_root * w.psize) q) v.arena.whole;
      some_page = rw (length-splice w.pages (p_root * w.psize) q) v.arena.some_page;
      known_flags = v.arena.known_flags;
    };
    two_pages = rw (length-splice w.pages (p_root * w.psize) q) v.two_pages;
    root =
        ap (window (splice w.pages (p_root * w.psize) q) (p_root * w.psize))
          (sym (len ∙ size_of_root))
        ∙ window-splice_self w.pages (p_root * w.psize) q
            (omega (arith, len, size_of_root, v.two_pages));
    leaf = leaf;
    packed = packed;
    bytes = bytes;
    sorted = sorted;
  }

  pub put-fresh :
      (fuel idx : ℕ) (key val q : List ℕ)
      → too_large h (w.psize - page_header_size) (length key) (length val) ≡ false
      → leaf_search h p_root p key ≡ ok (false, idx)
      → leaf_nbytes (length key) (length val) + 2 ≤ upper_of h p - lower_of h p
      → insert_leaf_entry h idx key val p ≡ ok q
      → put h (suc fuel) key val w ≡ (ok true, with_page w p_root q)
  unfolding put put_at
  put-fresh fuel idx key val q small searched room inserted = rw (
    sub_usize-eq-ok w.psize page_header_size (omega (arith, v.leaf.slots.header_in, size_of_root)),
    small,
    descend-root fuel key,
    root_bytes,
    searched,
    root_bytes,
    free_space-eq-ok h p n v.leaf.slots,
    le→leb (leaf_nbytes (length key) (length val) + 2) (upper_of h p - lower_of h p) room,
    page_mut-root q (insert_leaf_entry h idx key val) inserted,
  )

  pub put-held :
      (fuel idx : ℕ) (key val : List ℕ)
      → too_large h (w.psize - page_header_size) (length key) (length val) ≡ false
      → leaf_search h p_root p key ≡ ok (true, idx)
      → put h (suc fuel) key val w ≡ (ok false, w)
  unfolding put
  put-held fuel idx key val small searched = rw (
    sub_usize-eq-ok w.psize page_header_size (omega (arith, v.leaf.slots.header_in, size_of_root)),
    small,
    descend-root fuel key,
    root_bytes,
    searched,
  )

  pub del-missing :
      (fuel idx : ℕ) (key : List ℕ)
      → leaf_search h p_root p key ≡ ok (false, idx)
      → del h (suc fuel) key w ≡ (ok false, w)
  unfolding del
  del-missing fuel idx key searched = rw (descend-root fuel key, root_bytes, searched)

  pub del-present :
      (fuel idx : ℕ) (key q : List ℕ)
      → leaf_search h p_root p key ≡ ok (true, idx)
      → delete_leaf_entry h idx p ≡ ok q
      → del h (suc fuel) key w ≡ (ok true, with_page w p_root q)
  unfolding del
  del-present fuel idx key q searched deleted = rw (
    descend-root fuel key,
    root_bytes,
    searched,
    page_mut-root q (delete_leaf_entry h idx) deleted,
  )
