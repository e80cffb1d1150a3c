-- ===== src/PageBuf.antt =====
-- src/writer/page_buf.rs: named access to the header and `linp[]` of a page of the writer. A page
-- is its list of bytes; a setter returns the new bytes. There are no errors, only panics: an index
-- or a slice out of range, an assertion, a subtraction below zero.
pub mod Writes
pub mod Slots
pub mod Views
use db.Prelude.{
  ℕ, ◌+◌, ◌-◌, ◌*◌, ◌/◌, ◌^◌, List, length, splice, window, Bool, ◌==◌, ltb, leb, if◌then◌else◌,
}
use db.Outcomes.{Outcome, ok, panic, ◌>>=◌, ◌>>◌, assert, index, sub_usize}
use db.Words.{Endian, from_ne_u16, from_ne_u32, to_ne_u16, to_ne_u32, bit_set}
use db.Format.{max_psize, p_invalid, page_header_size, align_entry}

-- `buf[off..off + data.len()].copy_from_slice(data)`
unfoldable pub copy_into : List ℕ → ℕ → List ℕ → Outcome (List ℕ)
copy_into buf off bytes =
    if leb (off + length bytes) (length buf) then ok (splice buf off bytes) else panic

-- `buf.copy_within(start..end, dest)`
unfoldable pub copy_within : List ℕ → ℕ → ℕ → ℕ → Outcome (List ℕ)
copy_within buf start end dest = do
  assert (leb start end)
  assert (leb end (length buf))
  assert (leb (dest + (end - start)) (length buf))
  ok (splice buf dest (window buf start (end - start)))

-- `page_offset_as_u16`: the debug assertion, and the conversion
unfoldable pub page_offset_as_u16 : ℕ → Outcome ℕ
page_offset_as_u16 off = do assert (leb off max_psize); if ltb off (2 ^ 16) then ok off else panic

module _ (h : Endian) where
  unfoldable pub read_u16 : List ℕ → ℕ → Outcome ℕ
  read_u16 buf off = do b0 ← index buf off; b1 ← index buf (off + 1); ok (from_ne_u16 h b0 b1)

  unfoldable pub read_u32 : List ℕ → ℕ → Outcome ℕ
  read_u32 buf off = do
    b0 ← index buf off
    b1 ← index buf (off + 1)
    b2 ← index buf (off + 2)
    b3 ← index buf (off + 3)
    ok (from_ne_u32 h b0 b1 b2 b3)

  unfoldable pub write_u16 : List ℕ → ℕ → ℕ → Outcome (List ℕ)
  write_u16 buf off v = copy_into buf off (to_ne_u16 h v)

  unfoldable pub write_u32 : List ℕ → ℕ → ℕ → Outcome (List ℕ)
  write_u32 buf off v = copy_into buf off (to_ne_u32 h v)

  unfoldable pub prev_pg : List ℕ → Outcome ℕ
  prev_pg bytes = read_u32 bytes 4

  unfoldable pub next_pg : List ℕ → Outcome ℕ
  next_pg bytes = read_u32 bytes 8

  unfoldable pub flags : List ℕ → Outcome ℕ
  flags bytes = read_u32 bytes 12

  unfoldable pub lower : List ℕ → Outcome ℕ
  lower bytes = read_u16 bytes 16

  unfoldable pub upper : List ℕ → Outcome ℕ
  upper bytes = read_u16 bytes 18

  unfoldable pub nentries : List ℕ → Outcome ℕ
  nentries bytes = do low ← lower bytes; used ← sub_usize low page_header_size; ok (used / 2)

  unfoldable pub free_space : List ℕ → Outcome ℕ
  free_space bytes = do up ← upper bytes; low ← lower bytes; sub_usize up low

  unfoldable pub is_leaf : List ℕ → Outcome Bool
  is_leaf bytes = do f ← flags bytes; ok (bit_set f 1)

  unfoldable pub is_rightmost : List ℕ → Outcome Bool
  is_rightmost bytes = do next ← next_pg bytes; ok (next == p_invalid)

  unfoldable pub linp : List ℕ → ℕ → Outcome ℕ
  linp bytes i = read_u16 bytes (page_header_size + i * 2)

  unfoldable pub set_pgno : List ℕ → ℕ → Outcome (List ℕ)
  set_pgno bytes v = write_u32 bytes 0 v

  unfoldable pub set_prev_pg : List ℕ → ℕ → Outcome (List ℕ)
  set_prev_pg bytes v = write_u32 bytes 4 v

  unfoldable pub set_next_pg : List ℕ → ℕ → Outcome (List ℕ)
  set_next_pg bytes v = write_u32 bytes 8 v

  unfoldable pub set_flags : List ℕ → ℕ → Outcome (List ℕ)
  set_flags bytes v = write_u32 bytes 12 v

  unfoldable pub set_lower : List ℕ → ℕ → Outcome (List ℕ)
  set_lower bytes v = do
    assert (leb v max_psize)
    off ← page_offset_as_u16 v
    write_u16 bytes 16 off

  unfoldable pub set_upper : List ℕ → ℕ → Outcome (List ℕ)
  set_upper bytes v = do
    assert (leb v max_psize)
    off ← page_offset_as_u16 v
    write_u16 bytes 18 off

  unfoldable pub set_linp : List ℕ → ℕ → ℕ → Outcome (List ℕ)
  set_linp bytes i v = do
    assert (ltb v max_psize)
    off ← page_offset_as_u16 v
    write_u16 bytes (page_header_size + i * 2) off

  -- the new bytes and the new `upper`
  unfoldable pub reserve_slot : List ℕ → ℕ → ℕ → Outcome (List ℕ × ℕ)
  reserve_slot bytes idx nbytes = do
    n ← nentries bytes
    assert (leb idx n)
    assert (nbytes == align_entry nbytes)
    free ← free_space bytes
    assert (leb (nbytes + 2) free)
    low ← lower bytes
    up ← upper bytes
    shifted ←
        if ltb idx n
        then copy_within bytes (page_header_size + idx * 2) (page_header_size + n * 2)
            (page_header_size + idx * 2 + 2)
        else ok bytes
    new_upper ← sub_usize up nbytes
    linked ← set_linp shifted idx new_upper
    lowered ← set_lower linked (low + 2)
    raised ← set_upper lowered new_upper
    ok (raised, new_upper)
