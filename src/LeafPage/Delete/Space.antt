-- ===== src/LeafPage/Delete/Space.antt =====
-- The space of an entry that `delete_leaf_entry` removes, and the entries around it.
use db.Prelude.{
  ℕ, ◌+◌, ◌-◌, ◌*◌, ◌≤◌, ◌<◌, ◌≡◌, ◌≢◌, refl, ◌⊎◌, inl, inr, List, length, arith, Agree, MovedTo,
  lt→ltb, le→ltb,
}
use db.Words.{Endian}
use db.Words.Bytes.{AreBytes}
use db.Format.{bleaf_header_size, max_psize, page_header_size}
use db.Format.Align.{align_entry_bounds}
use db.PageBuf.Slots.{slot_of, upper_of, lower_of}
use db.Writer.Entries.Pointers.{adjusted}
use db.LeafPage.{IsLeaf, IsPacked, entry_size, ksize_at, dsize_at, key_at, val_at}

-- Page `q` is leaf `p`, of `n + 1` entries, without entry `idx`.
pub record Deleted (h : Endian) (p q : List ℕ) (n idx : ℕ) : Type 0 where
  pub leaf : IsLeaf h q n
  pub packed : IsPacked h q n
  pub same_length : length q ≡ length p
  pub header : Agree q p 0 16
  pub bytes : AreBytes p → AreBytes q
  pub space :
      upper_of h q - lower_of h q
      ≡ upper_of h p - lower_of h p + (entry_size h p (slot_of h p idx) + 2)
  pub before : (i : ℕ) → i < idx → (key_at h q i ≡ key_at h p i) × (val_at h q i ≡ val_at h p i)
  pub after :
      (i : ℕ)
      → idx ≤ i
      → i < n
      → (key_at h q i ≡ key_at h p (i + 1)) × (val_at h q i ≡ val_at h p (i + 1))

-- What the moves of `delete_leaf_entry` make of page `p`: the bytes of the entries in front of entry
-- `idx` stand where its bytes end, and the pointers say so.
pub record Closed (h : Endian) (p q : List ℕ) (n idx : ℕ) : Type 0 where
  pub same_length : length q ≡ length p
  pub header : Agree q p 0 16
  pub bytes : AreBytes p → AreBytes q
  pub lower_at : lower_of h q ≡ page_header_size + n * 2
  pub upper_at : upper_of h q ≡ upper_of h p + entry_size h p (slot_of h p idx)
  pub slots_before :
      (i : ℕ)
      → i < idx
      → slot_of h q i
        ≡ adjusted (slot_of h p idx) (entry_size h p (slot_of h p idx)) (slot_of h p i)
  pub slots_after :
      (i : ℕ)
      → idx ≤ i
      → i < n
      → slot_of h q i
        ≡ adjusted (slot_of h p idx) (entry_size h p (slot_of h p idx)) (slot_of h p (i + 1))
  pub moved :
      (i : ℕ)
      → i < n + 1
      → i ≢ idx
      → MovedTo q p
          (adjusted (slot_of h p idx) (entry_size h p (slot_of h p idx)) (slot_of h p i))
          (slot_of h p i)
          (bleaf_header_size + ksize_at h p (slot_of h p i) + dsize_at h p (slot_of h p i))

module _ (h : Endian) (p : List ℕ) (n idx : ℕ) (v : IsLeaf h p (n + 1))
    (packed : IsPacked h p (n + 1)) (inside : idx ≤ n) where
  abbrev o : ℕ
  o = slot_of h p idx

  abbrev nb : ℕ
  nb = entry_size h p o

  abbrev up : ℕ
  up = upper_of h p

  abbrev slot : ℕ → ℕ
  slot i = slot_of h p i

  abbrev adj : ℕ → ℕ
  adj = adjusted o nb

  pub low : lower_of h p ≡ page_header_size + (n + 1) * 2
  low = v.slots.lower_at

  pub size_low :
      (off : ℕ) → bleaf_header_size + ksize_at h p off + dsize_at h p off ≤ entry_size h p off
  size_low off = (align_entry_bounds (bleaf_header_size + ksize_at h p off + dsize_at h p off)).0

  pub above_upper : up ≤ o
  above_upper = v.entry_low idx (omega arith)

  pub o_high : o + nb ≤ length p
  o_high = v.entry_high idx (omega arith)

  pub free : lower_of h p ≤ up
  free = v.slots.free

  -- Each other entry lies in front of the removed one, and moves, or behind it, and stays.
  pub adj_cases :
      (i : ℕ)
      → i < n + 1
      → i ≢ idx
      → ((slot i + entry_size h p (slot i) ≤ o) × (adj (slot i) ≡ slot i + nb))
        ⊎ ((o + nb ≤ slot i) × (adj (slot i) ≡ slot i))
  adj_cases i lt ne = elim (packed.apart i idx lt (omega arith) ne) [
    | inl front ↦
        let e = lt→ltb (slot i) o (omega (arith, size_low (slot i))) in inl (front, rw e refl)
    | inr back ↦ let e = le→ltb (slot i) o (omega arith) in inr (back, rw e refl)
  ]

  pub adj_small : (i : ℕ) → i < n + 1 → i ≢ idx → adj (slot i) < max_psize
  adj_small i lt ne = elim (adj_cases i lt ne) [
    | inl (front, e) ↦ omega (arith, e, front, o_high, size_low (slot i), v.slots.small)
    | inr (back, e) ↦ omega (arith, e, back, v.entry_high i lt, size_low (slot i), v.slots.small)
  ]
