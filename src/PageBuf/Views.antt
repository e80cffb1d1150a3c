-- ===== src/PageBuf/Views.antt =====
-- The reader on a page of the writer: it accepts the page, on a host of either byte order, and
-- reads its pointers and its inline items as the page has them.
use db.Prelude.{
  ℕ, ◌+◌, ◌-◌, ◌*◌, ◌/◌, ◌%◌, ◌≤◌, ◌<◌, ◌≡◌, List, length, Bool, arith, slice-eq-some, window,
  lt→ltb, le→ltb, ==_iff, true,
}
use db.Outcomes.{ok, usize_mod, sub_usize-eq-ok}
use db.Words.Bytes.{AreBytes}
use db.Words.{Endian, u32_from, file_order}
use db.Format.{page_header_size}
use db.Page.{PageView, inline, parse, entry_offset, inline_bytes, supported_type}
use db.Page.Reads.{read_u16-eq-ok, read_u32-eq-ok, u16_at-eq-ok}
use db.PageBuf.Slots.{HasSlots, slot_of, upper_of, lower_of}

module _ (h : Endian) (swap : Bool) (p : List ℕ) (n : ℕ) (v : HasSlots (file_order h swap) p n)
    (bytes : AreBytes p) (kind : ℕ) where
  abbrev w : Endian
  w = file_order h swap

  -- What the reader sees of the page.
  abbrev pub kind_view : ℕ → PageView
  kind_view pgno = record {
    pgno = pgno;
    prev_pg = u32_from w p 4;
    next_pg = u32_from w p 8;
    bytes = p;
    swap = swap;
    flags = kind;
    nentries = n;
  }

  low : lower_of w p ≡ page_header_size + n * 2
  low = v.lower_at

  header_in : page_header_size ≤ length p
  header_in = v.header_in

  even : lower_of w p - page_header_size ≡ n * 2
  even = omega (arith, low)

  half : (lower_of w p - page_header_size) / 2 ≡ n
  half = omega (arith, even)

  pub parse-kind_view :
      (pgno : ℕ)
      → u32_from w p 12 ≡ kind
      → supported_type h kind ≡ true
      → parse h pgno p swap ≡ ok (kind_view pgno)
  unfolding parse
  parse-kind_view pgno flags supported = rw (
    le→ltb (length p) page_header_size header_in,
    read_u32-eq-ok h p bytes 4 swap (omega (arith, header_in)),
    read_u32-eq-ok h p bytes 8 swap (omega (arith, header_in)),
    read_u32-eq-ok h p bytes 12 swap (omega (arith, header_in)),
    read_u16-eq-ok h p bytes 16 swap (omega (arith, header_in)),
    read_u16-eq-ok h p bytes 18 swap (omega (arith, header_in)),
    le→ltb (lower_of w p) page_header_size (omega (arith, low)),
    le→ltb (length p) (upper_of w p) v.upper_in,
    le→ltb (upper_of w p) (lower_of w p) v.free,
    sub_usize-eq-ok (lower_of w p) page_header_size (omega (arith, low)),
    (==_iff ((lower_of w p - page_header_size) % 2) 0).1 (omega (arith, even)),
    flags,
    supported,
    half,
  )

  pub usize_small : length p < usize_mod
  usize_small = omega (arith, v.small)

  pub entry_offset-eq-ok :
      (pgno i : ℕ) → i < n → entry_offset h (kind_view pgno) i ≡ ok (slot_of w p i)
  unfolding entry_offset
  entry_offset-eq-ok pgno i lt = rw (lt→ltb i n lt) (
      u16_at-eq-ok h (kind_view pgno) bytes usize_small (page_header_size + i * 2)
        (omega (arith, low, v.free, v.upper_in)))

  pub inline_bytes-eq-ok :
      (pgno a b : ℕ)
      → a + b ≤ length p
      → inline_bytes (kind_view pgno) (inline a b) ≡ ok (window p a b)
  unfolding inline_bytes
  inline_bytes-eq-ok pgno a b le =
      let size : a + b - a ≡ b = omega arith in
      rw (
        lt→ltb (a + b) usize_mod (omega (arith, usize_small)),
        slice-eq-some p a (a + b) (omega arith) le,
        size,
      )
