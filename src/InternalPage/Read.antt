-- ===== src/InternalPage/Read.antt =====
-- The reader on an internal page of the writer: the entries that it decodes are the entries that
-- the page holds, on a host of either byte order.
use db.Prelude.{ℕ, ◌+◌, ◌%◌, ◌^◌, ◌≤◌, ◌<◌, ◌≡◌, refl, List, length, Bool, arith, lt→ltb, le→ltb}
use db.Outcomes.{ok, usize_mod}
use db.Words.Bytes.{AreBytes}
use db.Words.{Endian, file_order}
use db.Format.{binternal_header_size, p_binternal}
use db.Format.Align.{align_entry_bounds}
use db.Page.{PageView, inline, parse, internal_entry, decode_item, inline_bytes}
use db.Page.Reads.{u32_at-eq-ok, byte_at-eq-ok}
use db.PageBuf.Slots.{slot_of}
use db.PageBuf.Views.{
  kind_view, parse-kind_view, usize_small, entry_offset-eq-ok, inline_bytes-eq-ok,
}
use db.InternalPage.{IsInternal, sep_size_at, sep_at, child_at}

module _ (h : Endian) (swap : Bool) (p : List ℕ) (n : ℕ) (v : IsInternal (file_order h swap) p n)
    (bytes : AreBytes p) (pgno : ℕ) where
  abbrev w : Endian
  w = file_order h swap

  abbrev pub node_view : PageView
  node_view = kind_view h swap p n v.slots bytes p_binternal pgno

  pub parse-node_view : parse h pgno p swap ≡ ok node_view
  parse-node_view = parse-kind_view h swap p n v.slots bytes p_binternal pgno v.internal_flags refl

  small : length p < usize_mod
  small = usize_small h swap p n v.slots bytes p_binternal

  module _ (i : ℕ) (lt : i < n) where
    abbrev off : ℕ
    off = slot_of w p i

    abbrev ks : ℕ
    ks = sep_size_at w p i

    abbrev payload : ℕ
    payload = off + binternal_header_size

    fits : payload + ks ≤ length p
    fits = omega (arith, v.entry_high i lt, (align_entry_bounds (binternal_header_size + ks)).0)

    mod_small : (a : ℕ) → a ≤ length p → a % 2 ^ 32 ≡ a
    mod_small a le = omega (arith, v.slots.small)

    pub internal_entry-eq-ok :
        internal_entry h node_view i
        ≡ ok (record { key = inline payload ks; child = child_at w p i })
    unfolding internal_entry decode_item
    internal_entry-eq-ok = rw (
      entry_offset-eq-ok h swap p n v.slots bytes p_binternal pgno i lt,
      u32_at-eq-ok h node_view bytes small off (omega (arith, fits)),
      u32_at-eq-ok h node_view bytes small (off + 4) (omega (arith, fits)),
      byte_at-eq-ok h node_view bytes small (off + 8) (omega (arith, fits)),
      v.entry_inline i lt,
      lt→ltb (payload + ks) usize_mod (omega (arith, fits, small)),
      le→ltb (length p) (payload + ks) fits,
      mod_small payload (omega (arith, fits)),
      mod_small ks (omega (arith, fits)),
    )

    pub sep-eq-ok : inline_bytes node_view (inline payload ks) ≡ ok (sep_at w p i)
    sep-eq-ok = inline_bytes-eq-ok h swap p n v.slots bytes p_binternal pgno payload ks fits
