-- ===== src/Page/Reads.antt =====
-- When the readers of words succeed, and what they read: the word in the byte order of the file,
-- whatever the byte order of the host.
use db.Prelude.{
  ℕ, ◌+◌, ◌-◌, ◌≤◌, ◌<◌, ◌≡◌, refl, List, get_or, length, Bool, true, false, arith, slice-eq-some,
  get_or-window, length-window, window, get_elem?-eq-get_or, lt→ltb, ap, ◌∙◌,
}
use db.Outcomes.{ok, index, index-eq-ok, usize_mod}
use db.Words.{Endian, u16_from, u32_from, from_ne_u16, from_ne_u32, file_order}
use db.Words.Bytes.{AreBytes}
use db.Words.RoundTrip.{swap-from_ne_u16, swap-from_ne_u32}
use db.Page.{PageView, read_u16, read_u32, u16_at, u32_at, byte_at, read_u16_bytes, read_u32_bytes}

plus_zero : (n : ℕ) → n + 0 ≡ n
plus_zero n = omega arith

-- An index into a part that was cut out in range.
pub index-slice :
    (xs : List ℕ) (a b j : ℕ)
    → a + j < b
    → b ≤ length xs
    → index (window xs a (b - a)) j ≡ ok (get_or xs (a + j) 0)
index-slice xs a b j lt le =
    index-eq-ok (window xs a (b - a)) j (omega (arith, length-window xs a (b - a) (omega arith)))
    ∙ ap ok (get_or-window xs a (b - a) j 0 (omega arith))

module _ (h : Endian) where
  read_u16_bytes-file_order :
      (b0 b1 : ℕ) (swap : Bool)
      → b0 < 256
      → b1 < 256
      → read_u16_bytes h b0 b1 swap ≡ from_ne_u16 (file_order h swap) b0 b1
  unfolding read_u16_bytes
  read_u16_bytes-file_order b0 b1 false p0 p1 = refl
  read_u16_bytes-file_order b0 b1 true p0 p1 = swap-from_ne_u16 h b0 b1 p0 p1

  read_u32_bytes-file_order :
      (b0 b1 b2 b3 : ℕ) (swap : Bool)
      → b0 < 256
      → b1 < 256
      → b2 < 256
      → b3 < 256
      → read_u32_bytes h b0 b1 b2 b3 swap ≡ from_ne_u32 (file_order h swap) b0 b1 b2 b3
  unfolding read_u32_bytes
  read_u32_bytes-file_order b0 b1 b2 b3 false p0 p1 p2 p3 = refl
  read_u32_bytes-file_order b0 b1 b2 b3 true p0 p1 p2 p3 =
      swap-from_ne_u32 h b0 b1 b2 b3 p0 p1 p2 p3

  module _ (xs : List ℕ) (bytes : AreBytes xs) where
    pub read_u16-eq-ok :
        (off : ℕ) (swap : Bool)
        → off + 2 ≤ length xs
        → read_u16 h xs off swap ≡ ok (u16_from (file_order h swap) xs off)
    unfolding read_u16
    read_u16-eq-ok off swap p =
        rw (index-eq-ok xs off (omega arith), index-eq-ok xs (off + 1) (omega arith))
          (ap ok (read_u16_bytes-file_order _ _ swap (bytes off) (bytes (off + 1))))

    pub read_u32-eq-ok :
        (off : ℕ) (swap : Bool)
        → off + 4 ≤ length xs
        → read_u32 h xs off swap ≡ ok (u32_from (file_order h swap) xs off)
    unfolding read_u32
    read_u32-eq-ok off swap p =
        rw
          (
            index-eq-ok xs off (omega arith),
            index-eq-ok xs (off + 1) (omega arith),
            index-eq-ok xs (off + 2) (omega arith),
            index-eq-ok xs (off + 3) (omega arith),
          )
          (ap ok (
            read_u32_bytes-file_order _ _ _ _ swap (bytes off) (bytes (off + 1)) (bytes (off + 2))
              (bytes (off + 3))))

  module _ (v : PageView) (bytes : AreBytes v.bytes) (small : length v.bytes < usize_mod) where
    pub u16_at-eq-ok :
        (off : ℕ)
        → off + 2 ≤ length v.bytes
        → u16_at h v off ≡ ok (u16_from (file_order h v.swap) v.bytes off)
    unfolding u16_at
    u16_at-eq-ok off p =
        rw
          (
            lt→ltb (off + 2) usize_mod (omega arith),
            slice-eq-some v.bytes off (off + 2) (omega arith) p,
            index-slice v.bytes off (off + 2) 0 (omega arith) p,
            index-slice v.bytes off (off + 2) 1 (omega arith) p,
            plus_zero off,
          )
          (ap ok (read_u16_bytes-file_order _ _ v.swap (bytes off) (bytes (off + 1))))

    pub u32_at-eq-ok :
        (off : ℕ)
        → off + 4 ≤ length v.bytes
        → u32_at h v off ≡ ok (u32_from (file_order h v.swap) v.bytes off)
    unfolding u32_at
    u32_at-eq-ok off p =
        rw
          (
            lt→ltb (off + 4) usize_mod (omega arith),
            slice-eq-some v.bytes off (off + 4) (omega arith) p,
            index-slice v.bytes off (off + 4) 0 (omega arith) p,
            index-slice v.bytes off (off + 4) 1 (omega arith) p,
            index-slice v.bytes off (off + 4) 2 (omega arith) p,
            index-slice v.bytes off (off + 4) 3 (omega arith) p,
            plus_zero off,
          )
          (ap ok (
            read_u32_bytes-file_order _ _ _ _ v.swap (bytes off) (bytes (off + 1)) (bytes (off + 2))
              (bytes (off + 3))))

    pub byte_at-eq-ok : (off : ℕ) → off < length v.bytes → byte_at v off ≡ ok (get_or v.bytes off 0)
    unfolding byte_at
    byte_at-eq-ok off p = rw (get_elem?-eq-get_or v.bytes off 0 p)
