-- ===== src/Page.antt =====
-- src/page.rs: the validated view of a page's bytes, and the decoding of its entries. The parameter
-- is the byte order of the host.
pub mod Reads
pub mod Settles
use db.Prelude.{
  ℕ, ◌+◌, ◌*◌, ◌/◌, ◌%◌, ◌^◌, List, length, slice, get_elem?, Bool, true, false, not, ◌==◌, ltb,
  if◌then◌else◌, ◌||◌, Option, none, some, String,
}
use db.Outcomes.{
  Outcome, ok, err, ◌>>=◌, ◌>>◌, Error, corrupt_page, fail_if, ok_or, checked_add, index, sub_usize,
  slice_from,
}
use db.Words.{Endian, from_ne_u16, from_ne_u32, swap_bytes_u16, swap_bytes_u32, bit_set}
use db.Format.{
  page_header_size, p_binternal, p_bleaf, p_overflow, p_bigkey_bit, p_bigdata_bit, novflsize,
  bleaf_header_size, binternal_header_size, p_type_bits,
}

pub record PageView : Type 0 where
  pub pgno : ℕ
  pub prev_pg : ℕ
  pub next_pg : ℕ
  pub bytes : List ℕ
  pub swap : Bool
  pub flags : ℕ
  pub nentries : ℕ

-- `inline off len`: the bytes `[off, off + len)` of the page. `overflow pgno size`: a chain.
pub data ItemRef : Type 0 where
  inline : ℕ → ℕ → ItemRef
  overflow : ℕ → ℕ → ItemRef

pub record LeafEntry : Type 0 where
  pub key : ItemRef
  pub value : ItemRef

pub record InternalEntry : Type 0 where
  pub key : ItemRef
  pub child : ℕ

-- `P_BLEAF` is bit 1, `P_BINTERNAL` bit 0 and `P_OVERFLOW` bit 2 of the flags.
abbrev pub is_leaf : PageView → Bool
is_leaf v = bit_set v.flags 1

abbrev pub is_internal : PageView → Bool
is_internal v = bit_set v.flags 0

abbrev pub is_overflow : PageView → Bool
is_overflow v = bit_set v.flags 2

abbrev pub overflow_payload : PageView → Outcome (List ℕ)
overflow_payload v = slice_from v.bytes page_header_size

abbrev pub corrupt : PageView → String → Error
corrupt v reason = corrupt_page v.pgno reason

unfoldable pub inline_bytes : PageView → ItemRef → Outcome (List ℕ)
inline_bytes v (inline off len) = do
  end ← ok_or (checked_add off len) (corrupt v "inline offset + length overflows")
  ok_or (slice v.bytes off end) (corrupt v "inline offset out of range")
inline_bytes v (overflow _ _) = err (corrupt v "expected inline item, found overflow")

unfoldable pub byte_at : PageView → ℕ → Outcome ℕ
byte_at v off = ok_or (get_elem? v.bytes off) (corrupt v "byte read out of range")

module _ (h : Endian) where
  unfoldable pub read_u16_bytes : ℕ → ℕ → Bool → ℕ
  read_u16_bytes b0 b1 swap = let v = from_ne_u16 h b0 b1 in if swap then swap_bytes_u16 v else v

  unfoldable pub read_u32_bytes : ℕ → ℕ → ℕ → ℕ → Bool → ℕ
  read_u32_bytes b0 b1 b2 b3 swap =
      let v = from_ne_u32 h b0 b1 b2 b3 in if swap then swap_bytes_u32 v else v

  -- These index the slice, and panic out of range.
  unfoldable pub read_u16 : List ℕ → ℕ → Bool → Outcome ℕ
  unfolding read_u16_bytes
  read_u16 bytes off swap = do
    b0 ← index bytes off
    b1 ← index bytes (off + 1)
    ok (read_u16_bytes b0 b1 swap)

  unfoldable pub read_u32 : List ℕ → ℕ → Bool → Outcome ℕ
  unfolding read_u32_bytes
  read_u32 bytes off swap = do
    b0 ← index bytes off
    b1 ← index bytes (off + 1)
    b2 ← index bytes (off + 2)
    b3 ← index bytes (off + 3)
    ok (read_u32_bytes b0 b1 b2 b3 swap)

  unfoldable pub u16_at : PageView → ℕ → Outcome ℕ
  unfolding read_u16_bytes
  u16_at v off = do
    end ← ok_or (checked_add off 2) (corrupt v "u16 offset overflows")
    b ← ok_or (slice v.bytes off end) (corrupt v "u16 read out of range")
    b0 ← index b 0
    b1 ← index b 1
    ok (read_u16_bytes b0 b1 v.swap)

  unfoldable pub u32_at : PageView → ℕ → Outcome ℕ
  unfolding read_u32_bytes
  u32_at v off = do
    end ← ok_or (checked_add off 4) (corrupt v "u32 offset overflows")
    b ← ok_or (slice v.bytes off end) (corrupt v "u32 read out of range")
    b0 ← index b 0
    b1 ← index b 1
    b2 ← index b 2
    b3 ← index b 3
    ok (read_u32_bytes b0 b1 b2 b3 v.swap)

  -- `flags & P_TYPE` is one of the three supported types.
  abbrev pub supported_type : ℕ → Bool
  supported_type flags =
      let t = flags % 2 ^ p_type_bits in t == p_binternal || (t == p_bleaf || t == p_overflow)

  -- The tests of the bounds stand in one `||`; only its last one computes `lower - PAGE_HEADER_SIZE`,
  -- which the number of entries computes again.
  unfoldable pub parse : ℕ → List ℕ → Bool → Outcome PageView
  parse pgno bytes swap = do
    fail_if (ltb (length bytes) page_header_size) (corrupt_page pgno "page shorter than header")
    prev_pg ← read_u32 bytes 4 swap
    next_pg ← read_u32 bytes 8 swap
    flags ← read_u32 bytes 12 swap
    lower ← read_u16 bytes 16 swap
    upper ← read_u16 bytes 18 swap
    fail_if (ltb lower page_header_size || (ltb (length bytes) upper || ltb upper lower))
        (corrupt_page pgno "page bounds inconsistent")
    linp ← sub_usize lower page_header_size
    fail_if (not (linp % 2 == 0)) (corrupt_page pgno "page bounds inconsistent")
    fail_if (not (supported_type flags)) (corrupt_page pgno "unsupported page type")
    ok (record {
      pgno = pgno;
      prev_pg = prev_pg;
      next_pg = next_pg;
      bytes = bytes;
      swap = swap;
      flags = flags;
      nentries = linp / 2;
    })

  unfoldable pub entry_offset : PageView → ℕ → Outcome ℕ
  entry_offset v idx = do
    fail_if (not (ltb idx v.nentries)) (corrupt v "entry index out of range")
    u16_at v (page_header_size + idx * 2)

  -- `off as u32` and `len as u32` truncate.
  unfoldable pub decode_item : PageView → ℕ → ℕ → Bool → Outcome ItemRef
  decode_item v off len big_item =
      if not big_item then ok (inline (off % 2 ^ 32) (len % 2 ^ 32)) else do
        fail_if (ltb len novflsize) (corrupt v "overflow ref too short")
        pgno ← u32_at v off
        size ← u32_at v (off + 4)
        ok (overflow pgno size)

  unfoldable pub leaf_entry : PageView → ℕ → Outcome LeafEntry
  leaf_entry v idx = do
    off ← entry_offset v idx
    ksize ← u32_at v off
    dsize ← u32_at v (off + 4)
    eflags ← byte_at v (off + 8)
    let payload = off + bleaf_header_size
    payload_end ←
        ok_or (elim (checked_add payload ksize) [ none ↦ none | some p ↦ checked_add p dsize ])
          (corrupt v "leaf payload length overflows")
    fail_if (ltb (length v.bytes) payload_end) (corrupt v "leaf payload out of range")
    key ← decode_item v payload ksize (bit_set eflags p_bigkey_bit)
    value ← decode_item v (payload + ksize) dsize (bit_set eflags p_bigdata_bit)
    ok (record { key = key; value = value })

  unfoldable pub internal_entry : PageView → ℕ → Outcome InternalEntry
  internal_entry v idx = do
    off ← entry_offset v idx
    ksize ← u32_at v off
    child ← u32_at v (off + 4)
    eflags ← byte_at v (off + 8)
    let payload = off + binternal_header_size
    payload_end ← ok_or (checked_add payload ksize) (corrupt v "internal payload length overflows")
    fail_if (ltb (length v.bytes) payload_end) (corrupt v "internal payload out of range")
    key ← decode_item v payload ksize (bit_set eflags p_bigkey_bit)
    ok (record { key = key; child = child })
