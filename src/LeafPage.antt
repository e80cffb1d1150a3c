-- ===== src/LeafPage.antt =====
-- A leaf page as the entries that it holds: the abstract view that the writer's changes of a page
-- and the reader's decoding of one have in common.
pub mod Insert
pub mod Moved
pub mod Delete
pub mod Read
pub mod Search
pub mod Store
pub mod Scan
pub mod Ends
use db.Prelude.{◌≢◌, ◌⊎◌, ℕ, ◌+◌, ◌*◌, ◌≤◌, ◌<◌, ◌≡◌, List, length, window, get_or}
use db.Words.{Endian, u32_from}
use db.Format.{bleaf_header_size, p_bleaf}
use db.PageBuf.Slots.{HasSlots, slot_of, upper_of}
use db.Writer.Entries.{leaf_nbytes}

-- the entry stored at offset `off`
abbrev pub ksize_at : Endian → List ℕ → ℕ → ℕ
ksize_at h p off = u32_from h p off

abbrev pub dsize_at : Endian → List ℕ → ℕ → ℕ
dsize_at h p off = u32_from h p (off + 4)

abbrev pub key_from : Endian → List ℕ → ℕ → List ℕ
key_from h p off = window p (off + bleaf_header_size) (ksize_at h p off)

abbrev pub val_from : Endian → List ℕ → ℕ → List ℕ
val_from h p off = window p (off + bleaf_header_size + ksize_at h p off) (dsize_at h p off)

-- entry `i`
abbrev pub key_at : Endian → List ℕ → ℕ → List ℕ
key_at h p i = key_from h p (slot_of h p i)

abbrev pub val_at : Endian → List ℕ → ℕ → List ℕ
val_at h p i = val_from h p (slot_of h p i)

-- A leaf page of the writer with `n` entries: each lies between `upper` and the end of the page,
-- and none is an overflow reference.
pub record IsLeaf (h : Endian) (p : List ℕ) (n : ℕ) : Type 0 where
  pub slots : HasSlots h p n
  pub leaf_flags : u32_from h p 12 ≡ p_bleaf
  pub entry_low : (i : ℕ) → i < n → upper_of h p ≤ slot_of h p i
  pub entry_high :
      (i : ℕ)
      → i < n
      → slot_of h p i + leaf_nbytes (ksize_at h p (slot_of h p i)) (dsize_at h p (slot_of h p i))
        ≤ length p
  pub entry_inline : (i : ℕ) → i < n → get_or p (slot_of h p i + 8) 0 ≡ 0

-- The space of the entry at offset `off`, with its padding.
abbrev pub entry_size : Endian → List ℕ → ℕ → ℕ
entry_size h p off = leaf_nbytes (ksize_at h p off) (dsize_at h p off)

-- No two entries of the page share a byte.
pub record IsPacked (h : Endian) (p : List ℕ) (n : ℕ) : Type 0 where
  pub apart :
      (i j : ℕ)
      → i < n
      → j < n
      → i ≢ j
      → (slot_of h p i + entry_size h p (slot_of h p i) ≤ slot_of h p j)
        ⊎ (slot_of h p j + entry_size h p (slot_of h p j) ≤ slot_of h p i)
