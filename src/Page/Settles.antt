-- ===== src/Page/Settles.antt =====
-- The decoding of a page settles on every list of bytes.
use db.Prelude.{ℕ, ◌+◌, ◌*◌, ◌≤◌, ◌≡◌, refl, List, length, Bool, true, arith}
use db.Outcomes.{ok, index-eq-ok}
use db.Outcomes.Settles.{settles}
use db.Words.{Endian}
use db.Page.Reads.{index-slice}
use db.Format.{page_header_size}
use db.Page.{
  PageView, ItemRef, inline, overflow, inline_bytes, byte_at, read_u16, read_u32, u16_at, u32_at,
  parse, entry_offset, decode_item, leaf_entry, internal_entry,
}

module _ (h : Endian) (v : PageView) where
  pub u16_at-settles : (off : ℕ) → settles (u16_at h v off) ≡ true
  unfolding u16_at
  u16_at-settles off =
      ground (arith, index-slice v.bytes off (off + 2) 0, index-slice v.bytes off (off + 2) 1)

  pub u32_at-settles : (off : ℕ) → settles (u32_at h v off) ≡ true
  unfolding u32_at
  u32_at-settles off = ground (
    arith,
    index-slice v.bytes off (off + 4) 0,
    index-slice v.bytes off (off + 4) 1,
    index-slice v.bytes off (off + 4) 2,
    index-slice v.bytes off (off + 4) 3,
  )

  byte_at-settles : (off : ℕ) → settles (byte_at v off) ≡ true
  unfolding byte_at
  byte_at-settles off = ground arith

  pub inline_bytes-settles : (item : ItemRef) → settles (inline_bytes v item) ≡ true
  unfolding inline_bytes
  inline_bytes-settles (inline off len) = ground arith
  inline_bytes-settles (overflow pgno size) = refl

  pub entry_offset-settles : (idx : ℕ) → settles (entry_offset h v idx) ≡ true
  unfolding entry_offset
  entry_offset-settles idx = ground (arith, u16_at-settles (page_header_size + idx * 2))

  decode_item-settles : (off len : ℕ) (big : Bool) → settles (decode_item h v off len big) ≡ true
  unfolding decode_item
  decode_item-settles off len big = ground (arith, u32_at-settles off, u32_at-settles (off + 4))

  pub leaf_entry-settles : (idx : ℕ) → settles (leaf_entry h v idx) ≡ true
  unfolding leaf_entry
  leaf_entry-settles idx =
      grind (arith, entry_offset-settles, u32_at-settles, byte_at-settles, decode_item-settles)

  pub internal_entry-settles : (idx : ℕ) → settles (internal_entry h v idx) ≡ true
  unfolding internal_entry
  internal_entry-settles idx =
      grind (arith, entry_offset-settles, u32_at-settles, byte_at-settles, decode_item-settles)

module _ (h : Endian) (xs : List ℕ) (off : ℕ) (swap : Bool) where
  read_u16-settles : off + 2 ≤ length xs → settles (read_u16 h xs off swap) ≡ true
  unfolding read_u16
  read_u16-settles p = ground (arith, index-eq-ok xs off, index-eq-ok xs (off + 1))

  read_u32-settles : off + 4 ≤ length xs → settles (read_u32 h xs off swap) ≡ true
  unfolding read_u32
  read_u32-settles p = ground (
    arith,
    index-eq-ok xs off,
    index-eq-ok xs (off + 1),
    index-eq-ok xs (off + 2),
    index-eq-ok xs (off + 3),
  )

pub parse-settles :
    (h : Endian) (pgno : ℕ) (bytes : List ℕ) (swap : Bool)
    → settles (parse h pgno bytes swap) ≡ true
unfolding parse
parse-settles h pgno bytes swap = ground (
  arith,
  read_u32-settles h bytes 4 swap,
  read_u32-settles h bytes 8 swap,
  read_u32-settles h bytes 12 swap,
  read_u16-settles h bytes 16 swap,
  read_u16-settles h bytes 18 swap,
)

-- A parsed page is not shorter than its header.
pub parse-roomy :
    (h : Endian) (pgno : ℕ) (bytes : List ℕ) (swap : Bool) {view : PageView}
    → parse h pgno bytes swap ≡ ok view
    → page_header_size ≤ length view.bytes
unfolding parse read_u16 read_u32
parse-roomy h pgno bytes swap e = grind arith
