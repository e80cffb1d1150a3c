-- ===== src/InternalPage.antt =====
-- An internal page of src/writer/mod.rs as the separators and children that it holds: the abstract
-- view that the writer's root split, its descent and the reader's descent have in common.
pub mod Read
pub mod Root
use db.Prelude.{◌⊎◌, ℕ, ◌+◌, ◌≤◌, ◌<◌, ◌≡◌, List, length, window, get_or}
use db.Words.{Endian, u32_from}
use db.Words.Bytes.{AreBytes}
use db.Format.{binternal_header_size, p_binternal}
use db.Order.{◌≺◌}
use db.PageBuf.Slots.{HasSlots, slot_of, upper_of}
use db.Writer.Entries.{internal_nbytes}

-- the separator and the child of entry `i`
abbrev pub sep_size_at : Endian → List ℕ → ℕ → ℕ
sep_size_at h p i = u32_from h p (slot_of h p i)

abbrev pub sep_at : Endian → List ℕ → ℕ → List ℕ
sep_at h p i = window p (slot_of h p i + binternal_header_size) (sep_size_at h p i)

abbrev pub child_at : Endian → List ℕ → ℕ → ℕ
child_at h p i = u32_from h p (slot_of h p i + 4)

-- An internal page of the writer with `n` entries: each lies between `upper` and the end of the
-- page, and no separator is an overflow reference.
pub record IsInternal (h : Endian) (p : List ℕ) (n : ℕ) : Type 0 where
  pub slots : HasSlots h p n
  pub internal_flags : u32_from h p 12 ≡ p_binternal
  pub entry_low : (i : ℕ) → i < n → upper_of h p ≤ slot_of h p i
  pub entry_high : (i : ℕ) → i < n → slot_of h p i + internal_nbytes (sep_size_at h p i) ≤ length p
  pub entry_inline : (i : ℕ) → i < n → get_or p (slot_of h p i + 8) 0 ≡ 0

-- The page is an internal page of bytes whose separators ascend. Its entry `slot` is the last one
-- whose separator is not above the key, or the first one where all others are above it, and leads
-- to page `child`.
pub record IsNode (h : Endian) (p key : List ℕ) (child : ℕ) : Type 0 where
  pub count : ℕ
  pub internal : IsInternal h p count
  pub bytes : AreBytes p
  pub ascend : (i j : ℕ) → i < j → j < count → sep_at h p i ≺ sep_at h p j
  pub slot : ℕ
  pub slot_in : slot < count
  pub slot_child : child_at h p slot ≡ child
  pub not_above : 0 < slot → (sep_at h p slot ≡ key) ⊎ (sep_at h p slot ≺ key)
  pub above : (j : ℕ) → slot < j → j < count → key ≺ sep_at h p j
