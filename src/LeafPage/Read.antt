-- ===== src/LeafPage/Read.antt =====
-- The reader on a leaf of the writer: the entries that it decodes are the entries that the page
-- holds, on a host of either byte order.
use db.Prelude.{ℕ, ◌+◌, ◌%◌, ◌^◌, ◌≤◌, ◌<◌, ◌≡◌, refl, List, length, Bool, arith, lt→ltb, le→ltb}
use db.Outcomes.{ok, usize_mod}
use db.Words.Bytes.{AreBytes}
use db.Words.{Endian, file_order}
use db.Format.{bleaf_header_size, p_bleaf}
use db.Format.Align.{align_entry_bounds}
use db.Page.{PageView, LeafEntry, inline, parse, leaf_entry, decode_item, inline_bytes}
use db.Page.Reads.{u32_at-eq-ok, byte_at-eq-ok}
use db.PageBuf.Slots.{slot_of}
use db.PageBuf.Views.{
  kind_view, parse-kind_view, usize_small, entry_offset-eq-ok, inline_bytes-eq-ok,
}
use db.LeafPage.{IsLeaf, ksize_at, dsize_at, key_at, val_at}

module _ (h : Endian) (swap : Bool) (p : List ℕ) (n : ℕ) (v : IsLeaf (file_order h swap) p n)
    (bytes : AreBytes p) where
  abbrev w : Endian
  w = file_order h swap

  -- What the reader sees of the page.
  abbrev pub view_of : ℕ → PageView
  view_of = kind_view h swap p n v.slots bytes p_bleaf

  -- A leaf of the writer is a page that the reader accepts.
  pub parse-eq-ok : (pgno : ℕ) → parse h pgno p swap ≡ ok (view_of pgno)
  parse-eq-ok pgno = parse-kind_view h swap p n v.slots bytes p_bleaf pgno v.leaf_flags refl

  module _ (pgno i : ℕ) (lt : i < n) where
    abbrev off : ℕ
    off = slot_of w p i

    abbrev ks : ℕ
    ks = ksize_at w p off

    abbrev ds : ℕ
    ds = dsize_at w p off

    abbrev payload : ℕ
    payload = off + bleaf_header_size

    mod_small : (a : ℕ) → a ≤ length p → a % 2 ^ 32 ≡ a
    mod_small a le = omega (arith, v.slots.small)

    small : length p < usize_mod
    small = usize_small h swap p n v.slots bytes p_bleaf

    fits : payload + ks + ds ≤ length p
    fits = omega (arith, v.entry_high i lt, (align_entry_bounds (bleaf_header_size + ks + ds)).0)

    -- The entry that the page holds at the offset of pointer `i`.
    abbrev pub entry_of : LeafEntry
    entry_of = record { key = inline payload ks; value = inline (payload + ks) ds }

    pub leaf_entry-eq-ok : leaf_entry h (view_of pgno) i ≡ ok entry_of
    unfolding leaf_entry decode_item
    leaf_entry-eq-ok = rw (
      entry_offset-eq-ok h swap p n v.slots bytes p_bleaf pgno i lt,
      u32_at-eq-ok h (view_of pgno) bytes small off (omega (arith, fits)),
      u32_at-eq-ok h (view_of pgno) bytes small (off + 4) (omega (arith, fits)),
      byte_at-eq-ok h (view_of pgno) bytes small (off + 8) (omega (arith, fits)),
      v.entry_inline i lt,
      lt→ltb (payload + ks) usize_mod (omega (arith, fits, small)),
      lt→ltb (payload + ks + ds) usize_mod (omega (arith, fits, small)),
      le→ltb (length p) (payload + ks + ds) fits,
      mod_small payload (omega (arith, fits)),
      mod_small ks (omega (arith, fits)),
      mod_small (payload + ks) (omega (arith, fits)),
      mod_small ds (omega (arith, fits)),
    )

    pub key-eq-ok : inline_bytes (view_of pgno) (inline payload ks) ≡ ok (key_at w p i)
    key-eq-ok =
        inline_bytes-eq-ok h swap p n v.slots bytes p_bleaf pgno payload ks (omega (arith, fits))

    pub value-eq-ok : inline_bytes (view_of pgno) (inline (payload + ks) ds) ≡ ok (val_at w p i)
    value-eq-ok = inline_bytes-eq-ok h swap p n v.slots bytes p_bleaf pgno (payload + ks) ds fits

    leaf_entry-Reads :
        (e : LeafEntry) × (leaf_entry h (view_of pgno) i ≡ ok e)
        × (inline_bytes (view_of pgno) e.key ≡ ok (key_at w p i))
        × (inline_bytes (view_of pgno) e.value ≡ ok (val_at w p i))
    leaf_entry-Reads = (entry_of, leaf_entry-eq-ok, key-eq-ok, value-eq-ok)

-- A leaf page of bytes laid out as the writer lays it out in the byte order of its host is a page
-- that the reader accepts, on a host of the same byte order or, with `swap`, of the other one; the
-- view has the number of entries of the page, and each entry that the reader decodes is inline and
-- resolves to the key and the value that the page holds at that index.
pub leaf_entry-parse :
    (h : Endian) (swap : Bool) (p : List ℕ) (n pgno : ℕ)
    → IsLeaf (file_order h swap) p n
    → AreBytes p
    → (view : PageView) × (parse h pgno p swap ≡ ok view)
      × (view.nentries ≡ n)
      × ((i : ℕ)
          → i < n
          → (e : LeafEntry) × (leaf_entry h view i ≡ ok e)
            × (inline_bytes view e.key ≡ ok (key_at (file_order h swap) p i))
            × (inline_bytes view e.value ≡ ok (val_at (file_order h swap) p i)))
leaf_entry-parse h swap p n pgno v bytes = (
  view_of h swap p n v bytes pgno,
  parse-eq-ok h swap p n v bytes pgno,
  refl,
  leaf_entry-Reads h swap p n v bytes pgno,
)
