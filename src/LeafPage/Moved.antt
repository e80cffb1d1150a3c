-- ===== src/LeafPage/Moved.antt =====
-- An entry whose bytes stand elsewhere on another page.
use db.Prelude.{
  ℕ, ◌+◌, ◌≤◌, ◌≡◌, refl, List, length, get_or, arith, MovedTo, MovedTo-sub, window-eq_of_MovedTo,
}
use db.Words.{Endian}
use db.Words.RoundTrip.{u32_from-MovedTo}
use db.Format.{bleaf_header_size}
use db.LeafPage.{ksize_at, dsize_at, key_from, val_from}

module _ (h : Endian) (p q : List ℕ) (off off' : ℕ)
    (same : MovedTo q p off' off (bleaf_header_size + ksize_at h p off + dsize_at h p off))
    (inside : off + (bleaf_header_size + ksize_at h p off + dsize_at h p off) ≤ length p)
    (inside' : off' + (bleaf_header_size + ksize_at h p off + dsize_at h p off) ≤ length q) where
  abbrev size : ℕ
  size = bleaf_header_size + ksize_at h p off + dsize_at h p off

  pub ksize_moved : ksize_at h q off' ≡ ksize_at h p off
  ksize_moved =
      u32_from-MovedTo h q p off' off
        (MovedTo-sub q p off' off size 0 4 off' off same (omega arith) (omega arith) (omega arith))

  pub dsize_moved : dsize_at h q off' ≡ dsize_at h p off
  dsize_moved =
      u32_from-MovedTo h q p (off' + 4) (off + 4)
        (MovedTo-sub q p off' off size 4 4 (off' + 4) (off + 4) same (omega arith) refl refl)

  pub key_moved : key_from h q off' ≡ key_from h p off
  key_moved = rw ksize_moved (
      window-eq_of_MovedTo q p (off' + bleaf_header_size) (off + bleaf_header_size)
        (ksize_at h p off) (omega arith) (omega arith)
        (MovedTo-sub q p off' off size bleaf_header_size (ksize_at h p off)
          (off' + bleaf_header_size) (off + bleaf_header_size) same (omega arith) refl refl))

  pub val_moved : val_from h q off' ≡ val_from h p off
  val_moved =
      rw (ksize_moved, dsize_moved)
        (window-eq_of_MovedTo q p (off' + bleaf_header_size + ksize_at h p off)
          (off + bleaf_header_size + ksize_at h p off) (dsize_at h p off) (omega arith)
          (omega arith)
          (MovedTo-sub q p off' off size (bleaf_header_size + ksize_at h p off) (dsize_at h p off)
            (off' + bleaf_header_size + ksize_at h p off)
            (off + bleaf_header_size + ksize_at h p off) same (omega arith) (omega arith)
            (omega arith)))

  pub eflags_moved : get_or q (off' + 8) 0 ≡ get_or p (off + 8) 0
  eflags_moved = same 8 (omega arith)
