-- ===== src/Words/RoundTrip.antt =====
-- Reading back the bytes of a word, in the byte order of the host and across hosts.
use db.Prelude.{MovedTo, get_or, sym, ap, ℕ, ◌+◌, ◌^◌, ◌<◌, ◌≡◌, List, arith, length}
use db.Prelude.{
  Agree, splice, get_or-splice_at, get_or-splice_before, get_or-splice_after, ◌≤◌, refl, ◌∙◌, ◌⊎◌,
  inl, inr,
}
use db.Words.{
  Endian, little, big, other, from_ne_u16, from_ne_u32, to_ne_u16, to_ne_u32, swap_bytes_u16,
  swap_bytes_u32, u16_from, u32_from,
}

pub length-to_ne_u16 : (e : Endian) (v : ℕ) → length (to_ne_u16 e v) ≡ 2
unfolding to_ne_u16
length-to_ne_u16 little v = refl
length-to_ne_u16 big v = refl

pub length-to_ne_u32 : (e : Endian) (v : ℕ) → length (to_ne_u32 e v) ≡ 4
unfolding to_ne_u32
length-to_ne_u32 little v = refl
length-to_ne_u32 big v = refl

pub u16_from-to_ne : (e : Endian) (v : ℕ) → v < 2 ^ 16 → u16_from e (to_ne_u16 e v) 0 ≡ v
unfolding from_ne_u16 to_ne_u16
u16_from-to_ne little v h = omega arith
u16_from-to_ne big v h = omega arith

pub u32_from-to_ne : (e : Endian) (v : ℕ) → v < 2 ^ 32 → u32_from e (to_ne_u32 e v) 0 ≡ v
unfolding from_ne_u32 to_ne_u32
u32_from-to_ne little v h = omega arith
u32_from-to_ne big v h = omega arith

pub swap-from_ne_u16 :
    (h : Endian) (b0 b1 : ℕ)
    → b0 < 256
    → b1 < 256
    → swap_bytes_u16 (from_ne_u16 h b0 b1) ≡ from_ne_u16 (other h) b0 b1
unfolding from_ne_u16 swap_bytes_u16
swap-from_ne_u16 little b0 b1 p0 p1 = omega arith
swap-from_ne_u16 big b0 b1 p0 p1 = omega arith

pub swap-from_ne_u32 :
    (h : Endian) (b0 b1 b2 b3 : ℕ)
    → b0 < 256
    → b1 < 256
    → b2 < 256
    → b3 < 256
    → swap_bytes_u32 (from_ne_u32 h b0 b1 b2 b3) ≡ from_ne_u32 (other h) b0 b1 b2 b3
unfolding from_ne_u32 swap_bytes_u32
swap-from_ne_u32 little b0 b1 b2 b3 p0 p1 p2 p3 = omega arith
swap-from_ne_u32 big b0 b1 b2 b3 p0 p1 p2 p3 = omega arith

-- A read at the offset of a write shows the bytes written.
pub u16_from-splice_self :
    (e : Endian) (xs : List ℕ) (off : ℕ) (ys : List ℕ)
    → length ys ≡ 2
    → off + 2 ≤ length xs
    → u16_from e (splice xs off ys) off ≡ u16_from e ys 0
u16_from-splice_self e xs off ys l h = rw (
  get_or-splice_at xs off ys 0 off 0 (omega arith) (omega arith) (omega arith),
  get_or-splice_at xs off ys 1 (off + 1) 0 refl (omega arith) (omega arith),
)

pub u32_from-splice_self :
    (e : Endian) (xs : List ℕ) (off : ℕ) (ys : List ℕ)
    → length ys ≡ 4
    → off + 4 ≤ length xs
    → u32_from e (splice xs off ys) off ≡ u32_from e ys 0
u32_from-splice_self e xs off ys l h = rw (
  get_or-splice_at xs off ys 0 off 0 (omega arith) (omega arith) (omega arith),
  get_or-splice_at xs off ys 1 (off + 1) 0 refl (omega arith) (omega arith),
  get_or-splice_at xs off ys 2 (off + 2) 0 refl (omega arith) (omega arith),
  get_or-splice_at xs off ys 3 (off + 3) 0 refl (omega arith) (omega arith),
)

-- A word written into a list is read back at its offset.
pub u16_from-splice :
    (e : Endian) (xs : List ℕ) (off v : ℕ)
    → off + 2 ≤ length xs
    → v < 2 ^ 16
    → u16_from e (splice xs off (to_ne_u16 e v)) off ≡ v
u16_from-splice e xs off v h p =
    u16_from-splice_self e xs off (to_ne_u16 e v) (length-to_ne_u16 e v) h ∙ u16_from-to_ne e v p

pub u32_from-splice :
    (e : Endian) (xs : List ℕ) (off v : ℕ)
    → off + 4 ≤ length xs
    → v < 2 ^ 32
    → u32_from e (splice xs off (to_ne_u32 e v)) off ≡ v
u32_from-splice e xs off v h p =
    u32_from-splice_self e xs off (to_ne_u32 e v) (length-to_ne_u32 e v) h ∙ u32_from-to_ne e v p

-- A write leaves a word that it does not touch.
pub u16_from-splice_apart :
    (e : Endian) (xs : List ℕ) (a : ℕ) (ys : List ℕ) (off : ℕ)
    → (off + 2 ≤ a) ⊎ (a + length ys ≤ off)
    → u16_from e (splice xs a ys) off ≡ u16_from e xs off
u16_from-splice_apart e xs a ys off (inl h) = rw (
  get_or-splice_before xs a ys off 0 (omega arith),
  get_or-splice_before xs a ys (off + 1) 0 (omega arith),
)
u16_from-splice_apart e xs a ys off (inr h) = rw (
  get_or-splice_after xs a ys off 0 (omega arith),
  get_or-splice_after xs a ys (off + 1) 0 (omega arith),
)

pub u32_from-splice_apart :
    (e : Endian) (xs : List ℕ) (a : ℕ) (ys : List ℕ) (off : ℕ)
    → (off + 4 ≤ a) ⊎ (a + length ys ≤ off)
    → u32_from e (splice xs a ys) off ≡ u32_from e xs off
u32_from-splice_apart e xs a ys off (inl h) = rw (
  get_or-splice_before xs a ys off 0 (omega arith),
  get_or-splice_before xs a ys (off + 1) 0 (omega arith),
  get_or-splice_before xs a ys (off + 2) 0 (omega arith),
  get_or-splice_before xs a ys (off + 3) 0 (omega arith),
)
u32_from-splice_apart e xs a ys off (inr h) = rw (
  get_or-splice_after xs a ys off 0 (omega arith),
  get_or-splice_after xs a ys (off + 1) 0 (omega arith),
  get_or-splice_after xs a ys (off + 2) 0 (omega arith),
  get_or-splice_after xs a ys (off + 3) 0 (omega arith),
)

-- A word read where two lists agree.
pub u16_from-Agree :
    (e : Endian) (xs ys : List ℕ) (off : ℕ)
    → Agree xs ys off (off + 2)
    → u16_from e xs off ≡ u16_from e ys off
u16_from-Agree e xs ys off same =
    rw (same off (omega arith) (omega arith), same (off + 1) (omega arith) (omega arith))

pub u32_from-Agree :
    (e : Endian) (xs ys : List ℕ) (off : ℕ)
    → Agree xs ys off (off + 4)
    → u32_from e xs off ≡ u32_from e ys off
u32_from-Agree e xs ys off same = rw (
  same off (omega arith) (omega arith),
  same (off + 1) (omega arith) (omega arith),
  same (off + 2) (omega arith) (omega arith),
  same (off + 3) (omega arith) (omega arith),
)

-- A word that stands elsewhere in another list.
pub u32_from-MovedTo :
    (e : Endian) (xs ys : List ℕ) (b a : ℕ)
    → MovedTo xs ys b a 4
    → u32_from e xs b ≡ u32_from e ys a
u32_from-MovedTo e xs ys b a moved =
    let b0 : b + 0 ≡ b = omega arith in
    let a0 : a + 0 ≡ a = omega arith in
    let first : get_or xs b 0 ≡ get_or ys a 0 =
      ap (λ i. get_or xs i 0) (sym b0) ∙ moved 0 (omega arith) ∙ ap (λ i. get_or ys i 0) a0 in
    rw (first, moved 1 (omega arith), moved 2 (omega arith), moved 3 (omega arith))
