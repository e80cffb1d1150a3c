-- ===== src/Db.antt =====
-- src/db.rs: the handle on a mapped file, the descent from the root, and overflow chains. The file
-- system and `mmap` give the bytes of the file. The loops over page links take fuel, since a file
-- may link its pages in a cycle.
pub mod Overflow
pub mod Search
pub mod Ends
pub mod Returns
pub mod Settles
use db.Prelude.{
  ℕ, ◌+◌, ◌-◌, ◌*◌, ◌/◌, ◌%◌, List, length, slice, Bool, not, ◌==◌, ltb, leb, if◌then◌else◌, ◌||◌,
  ◌&&◌, Option, none, some, take,
}
use db.Outcomes.{
  Outcome, ok, err, ◌>>=◌, ◌>>◌, fail_if, ok_or, rem_usize, short_file, bad_magic, bad_version,
  bad_page_size, unsupported_flags, unaligned_file_length, page_out_of_bounds,
}
use db.Words.{Endian, bit_set}
use db.Format.{
  Meta, parse_meta, btree_magic, btree_version, min_psize, max_psize, meta_size, r_recno_bit,
}

pub record Db : Type 0 where
  pub mmap : List ℕ
  pub psize : ℕ
  pub swap : Bool

-- `SAVEMETA` is bits 5 and 7: `flags & !SAVEMETA != 0` is any other bit.
abbrev pub foreign_flags : ℕ → Bool
foreign_flags flags = not (flags % 32 == 0) || (bit_set flags 6 || not (flags / 256 == 0))

-- `open`, from the bytes of the mapped file on
unfoldable pub open_db : Endian → List ℕ → Outcome Db
open_db h mmap = do
  hdr ← ok_or (slice mmap 0 meta_size) short_file
  let parsed = parse_meta h hdr
  let meta = parsed.0
  fail_if (not (meta.magic == btree_magic)) (bad_magic meta.magic)
  fail_if (not (meta.version == btree_version)) (bad_version meta.version)
  fail_if (not (leb min_psize meta.psize && leb meta.psize max_psize) || not (meta.psize % 2 == 0))
      (bad_page_size meta.psize)
  fail_if (foreign_flags meta.flags || bit_set meta.flags r_recno_bit)
      (unsupported_flags meta.flags)
  rest ← rem_usize (length mmap) meta.psize
  fail_if (not (rest == 0)) (unaligned_file_length (length mmap) meta.psize)
  ok (record { mmap = mmap; psize = meta.psize; swap = parsed.1 })

-- `start` and `end` are below 2 ^ 48, since `pgno` is a `u32` and `psize` at most 32768.
unfoldable pub page : Db → ℕ → Outcome (List ℕ)
page db pgno =
    ok_or (slice db.mmap (pgno * db.psize) (pgno * db.psize + db.psize)) (page_out_of_bounds pgno)
