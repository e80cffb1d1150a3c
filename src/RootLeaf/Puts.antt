-- ===== src/RootLeaf/Puts.antt =====
-- `put` and `del` on a database of one leaf, on each branch that stays on the leaf.
use db.Prelude.{
  ℕ, suc, ◌+◌, ◌-◌, ◌≤◌, ◌<◌, ◌≡◌, ◌≢◌, refl, sym, ap, ◌∙◌, List, length, Bool, true, false, arith,
  some,
}
use db.Outcomes.{ok, err, entry_too_large, sub_usize-eq-ok}
use db.Words.{Endian}
use db.Words.Bytes.{AreBytes}
use db.Format.{p_root, page_header_size}
use db.PageBuf.Slots.{upper_of, lower_of}
use db.Db.{Db, open_db}
use db.Db.Search.{get}
use db.Writer.{Writer, with_page, finish}
use db.Writer.Entries.{leaf_nbytes}
use db.Writer.Pages.{leaf_search}
use db.Writer.Put.{put, too_large, del}
use db.LeafPage.{key_at, val_at}
use db.LeafPage.Search.{IsPlace, leaf_search-IsPlace}
use db.LeafPage.Store.{insert-searched, leaf_search-held, leaf_search-IsPlace_of}
use db.RootLeaf.{IsRootLeaf, put-fresh, put-held, del-missing, replaced}
use db.RootLeaf.Files.{get-finish}

-- When the root of the writer's database is a leaf of bytes with ascending keys, with entries that
-- share no byte and with room for the entry and its pointer, key and value are bytes, the entry
-- passes the size check, and `leaf_search` does not find the key: `put` ends with `true` and
-- changes the root only, which is then such a leaf of one entry more, that holds
-- the key and the value at the place that `leaf_search` found.
pub put-root_leaf :
    (h : Endian) (w : Writer) (p : List ℕ) (n fuel idx : ℕ) (key val : List ℕ)
    → IsRootLeaf h w p n
    → AreBytes key
    → AreBytes val
    → too_large h (w.psize - page_header_size) (length key) (length val) ≡ false
    → leaf_search h p_root p key ≡ ok (false, idx)
    → leaf_nbytes (length key) (length val) + 2 ≤ upper_of h p - lower_of h p
    → (q : List ℕ) × (put h (suc fuel) key val w ≡ (ok true, with_page w p_root q))
      × IsRootLeaf h (with_page w p_root q) q (n + 1)
      × (key_at h q idx ≡ key)
      × (val_at h q idx ≡ val)
put-root_leaf h w p n fuel idx key val v kb vb small searched room =
    let (q, inserted, ins, sorted, held) =
      insert-searched h p n p_root idx key val v.leaf v.bytes kb vb v.sorted searched room in
    (
      q,
      put-fresh h w p n v fuel idx key val q small searched room inserted,
      replaced h w p n v q (n + 1) ins.same_length ins.leaf (ins.packed v.packed)
          (ins.bytes v.bytes kb vb) sorted,
      ins.key_new,
      ins.val_new,
    )

-- When the root of the writer's database is a leaf of bytes with ascending keys, with entries that
-- share no byte and with room for the entry and its pointer, key and value are bytes, the entry
-- passes the size check, and `leaf_search` does not find the key: `put` ends with `true`, `finish`
-- then writes a file that `open` accepts on a host of either byte order, and `get` of the key on it
-- returns the value.
pub get-put :
    (h h' : Endian) (w : Writer) (p : List ℕ) (n fuel fuel' idx : ℕ) (key val : List ℕ)
    → IsRootLeaf h w p n
    → AreBytes key
    → AreBytes val
    → too_large h (w.psize - page_header_size) (length key) (length val) ≡ false
    → leaf_search h p_root p key ≡ ok (false, idx)
    → leaf_nbytes (length key) (length val) + 2 ≤ upper_of h p - lower_of h p
    → (w' : Writer) × (put h (suc fuel) key val w ≡ (ok true, w'))
      × (file : List ℕ) × (finish h w' ≡ ok file)
      × (db : Db) × (open_db h' file ≡ ok db)
      × (get h' db (suc fuel') key ≡ ok (some val))
get-put h h' w p n fuel fuel' idx key val v kb vb small searched room =
    let place =
      leaf_search-IsPlace_of h p n p_root key false idx v.leaf v.bytes v.sorted searched in
    let (q, done, v', new_key, new_val) =
      put-root_leaf h w p n fuel idx key val v kb vb small searched room in
    let (file, finished, db, opened, got) =
      get-finish h h' (with_page w p_root q) q (n + 1) fuel' idx v' (omega (arith, place.0)) in
    (
      with_page w p_root q,
      done,
      file,
      finished,
      db,
      opened,
      ap (get h' db (suc fuel')) (sym new_key) ∙ got ∙ ap (λ x. ok (some x)) new_val,
    )

-- On a database whose root is a leaf of bytes with ascending keys and entries that share no byte,
-- `put` of a key that the leaf holds, with an entry that passes the size check, ends with `false`
-- and leaves the writer as it was.
pub put-duplicate :
    (h : Endian) (w : Writer) (p : List ℕ) (n fuel i : ℕ) (val : List ℕ)
    → IsRootLeaf h w p n
    → i < n
    → too_large h (w.psize - page_header_size) (length (key_at h p i)) (length val) ≡ false
    → put h (suc fuel) (key_at h p i) val w ≡ (ok false, w)
put-duplicate h w p n fuel i val v lt small =
    put-held h w p n v fuel i (key_at h p i) val small
      (leaf_search-held h p n p_root (key_at h p i) i v.leaf v.bytes v.sorted lt refl)

-- On a page size not below the page header, `put` of an entry that fails the size check reports
-- `EntryTooLarge` and leaves the writer as it was, whatever its pages hold.
pub put-too_large :
    (h : Endian) (w : Writer) (fuel : ℕ) (key val : List ℕ)
    → page_header_size ≤ w.psize
    → too_large h (w.psize - page_header_size) (length key) (length val) ≡ true
    → put h fuel key val w ≡ (err (entry_too_large (length key) (length val)), w)
unfolding put
put-too_large h w fuel key val low large = rw (sub_usize-eq-ok w.psize page_header_size low, large)

-- On a database whose root is a leaf of bytes with ascending keys and entries that share no byte,
-- `del` of a key that no entry of the leaf holds ends with `false` and leaves the writer as it was.
pub del-absent :
    (h : Endian) (w : Writer) (p : List ℕ) (n fuel : ℕ) (key : List ℕ)
    → IsRootLeaf h w p n
    → ((i : ℕ) → i < n → key_at h p i ≢ key)
    → del h (suc fuel) key w ≡ (ok false, w)
del-absent h w p n fuel key v absent =
    let (found, idx, searched, place) =
      leaf_search-IsPlace h p n p_root key v.leaf v.bytes v.sorted in
    by_answer found idx searched place
  where
    by_answer :
        (found : Bool) (idx : ℕ)
        → leaf_search h p_root p key ≡ ok (found, idx)
        → IsPlace h p n key found idx
        → del h (suc fuel) key w ≡ (ok false, w)
    by_answer true idx searched (lt, e) = absurd (absent idx lt e)
    by_answer false idx searched place = del-missing h w p n v fuel idx key searched
