-- ===== src/Format/Align.antt =====
-- The alignment of entries.
use db.Prelude.{ℕ, ◌+◌, ◌%◌, ◌≤◌, ◌<◌, ◌≡◌, arith}
use db.Format.{align_entry, entry_align}

-- `align_entry n` is the least multiple of `ENTRY_ALIGN` that is not below `n`.
pub align_entry-least :
    (n m : ℕ)
    → (align_entry n % entry_align ≡ 0)
      × (n ≤ align_entry n)
      × (m % entry_align ≡ 0 → n ≤ m → align_entry n ≤ m)
unfolding align_entry
align_entry-least n m = omega arith

pub align_entry_bounds : (n : ℕ) → (n ≤ align_entry n) × (align_entry n < n + 4)
unfolding align_entry
align_entry_bounds n = omega arith

pub align_entry_idem : (n : ℕ) → align_entry (align_entry n) ≡ align_entry n
unfolding align_entry
align_entry_idem n = omega arith

pub align_entry_mono : (n m : ℕ) → n ≤ m → align_entry n ≤ align_entry m
unfolding align_entry
align_entry_mono n m h = omega arith
