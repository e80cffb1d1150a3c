-- ===== src/Format.antt =====
-- src/format.rs: the constants of the file format, the alignment of entries, and the meta page.
-- A mask test `v & (1 << k) != 0` is `bit_set v k`, and `v & 0x1f` is `v % 32`.
pub mod Align
use db.Prelude.{ℕ, ◌+◌, ◌-◌, ◌*◌, ◌/◌, List, get_or, Bool, not, ◌==◌, if◌then◌else◌}
use db.Words.{Endian, from_ne_u32, swap_bytes_u32}

abbrev pub btree_magic : ℕ
btree_magic = 0x0005_3162

abbrev pub btree_version : ℕ
btree_version = 3

abbrev pub min_psize : ℕ
min_psize = 512

abbrev pub max_psize : ℕ
max_psize = 32768

abbrev pub p_invalid : ℕ
p_invalid = 0

abbrev pub p_root : ℕ
p_root = 1

abbrev pub p_binternal : ℕ
p_binternal = 0x01

abbrev pub p_bleaf : ℕ
p_bleaf = 0x02

abbrev pub p_overflow : ℕ
p_overflow = 0x04

-- `P_TYPE` is 0x1f: the five low bits.
abbrev pub p_type_bits : ℕ
p_type_bits = 5

-- The bit positions of `P_BIGDATA`, `P_BIGKEY`, `B_NODUPS` and `R_RECNO`.
abbrev pub p_bigdata_bit : ℕ
p_bigdata_bit = 0

abbrev pub p_bigkey_bit : ℕ
p_bigkey_bit = 1

abbrev pub b_nodups : ℕ
b_nodups = 0x0020

abbrev pub r_recno_bit : ℕ
r_recno_bit = 7

abbrev pub meta_size : ℕ
meta_size = 24

abbrev pub page_header_size : ℕ
page_header_size = 4 * 4 + 2 * 2

abbrev pub novflsize : ℕ
novflsize = 8

abbrev pub bleaf_header_size : ℕ
bleaf_header_size = 4 + 4 + 1

abbrev pub binternal_header_size : ℕ
binternal_header_size = 4 + 4 + 1

abbrev pub entry_align : ℕ
entry_align = 4

-- `(n + ENTRY_ALIGN - 1) & !(ENTRY_ALIGN - 1)`: the mask clears the two low bits.
unfoldable pub align_entry : ℕ → ℕ
align_entry n = (n + entry_align - 1) / entry_align * entry_align

pub record Meta : Type 0 where
  pub magic : ℕ
  pub version : ℕ
  pub psize : ℕ
  pub flags : ℕ

module _ (h : Endian) where
  -- the closure `r` of `Meta::parse`
  unfoldable pub meta_word : List ℕ → Bool → ℕ → ℕ
  meta_word buf swap off =
      let v =
        from_ne_u32 h (get_or buf off 0) (get_or buf (off + 1) 0) (get_or buf (off + 2) 0)
          (get_or buf (off + 3) 0) in
      if swap then swap_bytes_u32 v else v

  -- `buf` has `META_SIZE` bytes, so that no index is out of range.
  unfoldable pub parse_meta : List ℕ → Meta × Bool
  unfolding meta_word
  parse_meta buf =
      let native_magic =
        from_ne_u32 h (get_or buf 0 0) (get_or buf 1 0) (get_or buf 2 0) (get_or buf 3 0) in
      let swap = not (native_magic == btree_magic) in
      (
        record {
          magic = meta_word buf swap 0;
          version = meta_word buf swap 4;
          psize = meta_word buf swap 8;
          flags = meta_word buf swap 20;
        },
        swap,
      )
