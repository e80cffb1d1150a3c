-- ===== src/PageBuf/Writes.antt =====
-- The primitive reads and writes inside a page succeed, and what they leave.
use db.Prelude.{ℕ, ◌+◌, ◌*◌, ◌≤◌, ◌<◌, ◌≡◌, List, length, splice, le→leb, arith}
use db.Outcomes.{ok, index-eq-ok}
use db.Words.{Endian, to_ne_u16, to_ne_u32, u16_from, u32_from}
use db.Words.RoundTrip.{length-to_ne_u16, length-to_ne_u32}
use db.Format.{max_psize, page_header_size}
use db.PageBuf.{
  copy_into, read_u16, read_u32, write_u16, write_u32, set_lower, set_upper, set_linp,
  page_offset_as_u16,
}

pub copy_into-eq-ok :
    (buf : List ℕ) (off : ℕ) (bytes : List ℕ)
    → off + length bytes ≤ length buf
    → copy_into buf off bytes ≡ ok (splice buf off bytes)
unfolding copy_into
copy_into-eq-ok buf off bytes h = rw (le→leb _ _ h)

module _ (h : Endian) (buf : List ℕ) (off : ℕ) where
  pub read_u16-eq-ok : off + 2 ≤ length buf → read_u16 h buf off ≡ ok (u16_from h buf off)
  unfolding read_u16
  read_u16-eq-ok p = rw (index-eq-ok buf off (omega arith), index-eq-ok buf (off + 1) (omega arith))

  pub read_u32-eq-ok : off + 4 ≤ length buf → read_u32 h buf off ≡ ok (u32_from h buf off)
  unfolding read_u32
  read_u32-eq-ok p = rw (
    index-eq-ok buf off (omega arith),
    index-eq-ok buf (off + 1) (omega arith),
    index-eq-ok buf (off + 2) (omega arith),
    index-eq-ok buf (off + 3) (omega arith),
  )

  pub write_u16-eq-ok :
      (v : ℕ) → off + 2 ≤ length buf → write_u16 h buf off v ≡ ok (splice buf off (to_ne_u16 h v))
  unfolding write_u16
  write_u16-eq-ok v p =
      copy_into-eq-ok buf off (to_ne_u16 h v) (omega (arith, length-to_ne_u16 h v))

  pub write_u32-eq-ok :
      (v : ℕ) → off + 4 ≤ length buf → write_u32 h buf off v ≡ ok (splice buf off (to_ne_u32 h v))
  unfolding write_u32
  write_u32-eq-ok v p =
      copy_into-eq-ok buf off (to_ne_u32 h v) (omega (arith, length-to_ne_u32 h v))

module _ (h : Endian) (buf : List ℕ) (v : ℕ) where
  pub set_lower-eq-ok :
      20 ≤ length buf → v ≤ max_psize → set_lower h buf v ≡ ok (splice buf 16 (to_ne_u16 h v))
  unfolding set_lower page_offset_as_u16
  set_lower-eq-ok p q = ground (arith, write_u16-eq-ok h buf 16 v)

  pub set_upper-eq-ok :
      20 ≤ length buf → v ≤ max_psize → set_upper h buf v ≡ ok (splice buf 18 (to_ne_u16 h v))
  unfolding set_upper page_offset_as_u16
  set_upper-eq-ok p q = ground (arith, write_u16-eq-ok h buf 18 v)

  pub set_linp-eq-ok :
      (i : ℕ)
      → page_header_size + i * 2 + 2 ≤ length buf
      → v < max_psize
      → set_linp h buf i v ≡ ok (splice buf (page_header_size + i * 2) (to_ne_u16 h v))
  unfolding set_linp page_offset_as_u16
  set_linp-eq-ok i p q = ground (arith, write_u16-eq-ok h buf (page_header_size + i * 2) v)
