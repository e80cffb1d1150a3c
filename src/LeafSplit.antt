-- ===== src/LeafSplit.antt =====
-- A leaf page while the two loops of a split fill it: its slots are taken in any order, and `lower`
-- is written last.
pub mod Slot
pub mod Copies
pub mod Half
pub mod Sums
pub mod Shared
pub mod Empty
pub mod Packing
pub mod Costs
pub mod Ordered
use db.Prelude.{
  ◌≢◌, ◌⊎◌, ℕ, ◌+◌, ◌*◌, ◌≤◌, ◌<◌, ◌≡◌, refl, sym, ap, ap₂, ◌∙◌, List, length, window, get_or,
  arith,
}
use db.Words.{Endian, u32_from}
use db.Format.{bleaf_header_size, p_bleaf, max_psize, page_header_size}
use db.PageBuf.Slots.{slot_of, upper_of}
use db.Writer.Entries.{leaf_nbytes}

-- The entry of `key` and `val` stands at `off`, behind `upper`.
pub record Holds (h : Endian) (q : List ℕ) (off : ℕ) (key val : List ℕ) : Type 0 where
  pub low : upper_of h q ≤ off
  pub high : off + leaf_nbytes (length key) (length val) ≤ length q
  pub ksize : u32_from h q off ≡ length key
  pub dsize : u32_from h q (off + 4) ≡ length val
  pub eflags : get_or q (off + 8) 0 ≡ 0
  pub key_bytes : window q (off + bleaf_header_size) (length key) ≡ key
  pub val_bytes : window q (off + bleaf_header_size + length key) (length val) ≡ val

-- A page for `top` slots: those below `m` have the entries of `key` and `val`, the slot `hole` left
-- out. A `hole` not below `m` is none.
pub record Filled (h : Endian) (q : List ℕ) (top m hole : ℕ) (key val : ℕ → List ℕ) : Type 0 where
  pub header_in : page_header_size + top * 2 ≤ upper_of h q
  pub small : length q ≤ max_psize
  pub upper_in : upper_of h q ≤ length q
  pub leaf_flags : u32_from h q 12 ≡ p_bleaf
  pub entry : (i : ℕ) → i < m → i ≢ hole → Holds h q (slot_of h q i) (key i) (val i)
  pub apart :
      (i j : ℕ)
      → i < m
      → j < m
      → i ≢ hole
      → j ≢ hole
      → i ≢ j
      → (slot_of h q i + leaf_nbytes (length (key i)) (length (val i)) ≤ slot_of h q j)
        ⊎ (slot_of h q j + leaf_nbytes (length (key j)) (length (val j)) ≤ slot_of h q i)

-- A leaf page without entries, as far as it is read.
pub record Blank (h : Endian) (q : List ℕ) : Type 0 where
  pub small : length q ≤ max_psize
  pub upper_at : upper_of h q ≡ length q
  pub leaf_flags : u32_from h q 12 ≡ p_bleaf

pub Blank-Filled :
    (h : Endian) (q : List ℕ) (top m hole : ℕ) (key val : ℕ → List ℕ)
    → Blank h q
    → ((i : ℕ) → i < m → i ≡ hole)
    → page_header_size + top * 2 ≤ length q
    → Filled h q top m hole key val
Blank-Filled h q top m hole key val v none room = record {
  header_in = omega (arith, v.upper_at, room);
  small = v.small;
  upper_in = omega (arith, v.upper_at);
  leaf_flags = v.leaf_flags;
  entry = λ i lt ne. absurd (ne (none i lt));
  apart = λ i j li lj ni nj ne. absurd (ni (none i li));
}
