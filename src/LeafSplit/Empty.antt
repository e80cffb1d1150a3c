-- ===== src/LeafSplit/Empty.antt =====
-- The page that `empty_leaf` makes, and the blank leaf pages of a split.
use db.Prelude.{
  get_or, ℕ, zero, suc, ◌+◌, ◌^◌, ◌≤◌, ◌<◌, ◌≡◌, refl, sym, ◌∙◌, inl, inr, List, length, splice,
  replicate, length-splice, length-replicate, arith,
}
use db.Outcomes.{ok}
use db.Words.{Endian, little, big, from_ne_u32, u16_from, u32_from, to_ne_u16, to_ne_u32}
use db.Words.Bytes.{
  AreBytes, nil-AreBytes, cons-AreBytes, splice-AreBytes, to_ne_u16-AreBytes, to_ne_u32-AreBytes,
}
use db.Words.RoundTrip.{
  length-to_ne_u32, u16_from-splice, u16_from-splice_apart, u32_from-splice, u32_from-splice_apart,
}
use db.Format.{p_bleaf, p_invalid, page_header_size, min_psize, max_psize}
use db.PageBuf.{set_pgno, set_flags, set_prev_pg, set_next_pg}
use db.PageBuf.Writes.{write_u32-eq-ok, set_lower-eq-ok, set_upper-eq-ok}
use db.Writer.{empty_leaf}
use db.LeafPage.{IsLeaf}
use db.LeafSplit.{Blank}

abbrev pub zeros_of : ℕ → List ℕ
zeros_of n = replicate n 0

pub length-zeros_of : (n : ℕ) → length (zeros_of n) ≡ n
length-zeros_of n = length-replicate n _

zeros-AreBytes : (n : ℕ) → AreBytes (replicate n 0)
zeros-AreBytes zero = nil-AreBytes
zeros-AreBytes (suc n) = cons-AreBytes 0 (replicate n 0) (omega arith) (zeros-AreBytes n)

get_or-replicate : (n i : ℕ) → get_or {A = ℕ} (replicate n 0) i 0 ≡ 0
get_or-replicate zero i = refl
get_or-replicate (suc n) zero = refl
get_or-replicate (suc n) (suc i) = get_or-replicate n i

from_zeros : (h : Endian) → from_ne_u32 h 0 0 0 0 ≡ 0
unfolding from_ne_u32
from_zeros little = refl
from_zeros big = refl

u32_from-zeros : (h : Endian) (n off : ℕ) → u32_from h (replicate n 0) off ≡ 0
u32_from-zeros h n off =
    rw
      (
        get_or-replicate n off,
        get_or-replicate n (off + 1),
        get_or-replicate n (off + 2),
        get_or-replicate n (off + 3),
      )
      (from_zeros h)

module _ (h : Endian) (psize pgno : ℕ) (low : min_psize ≤ psize) (high : psize ≤ max_psize) where
  abbrev p0 : List ℕ
  p0 = splice (zeros_of psize) 0 (to_ne_u32 h pgno)

  abbrev p1 : List ℕ
  p1 = splice p0 12 (to_ne_u32 h p_bleaf)

  abbrev p2 : List ℕ
  p2 = splice p1 16 (to_ne_u16 h page_header_size)

  abbrev pub page_of : List ℕ
  page_of = splice p2 18 (to_ne_u16 h psize)

  zeros : length (zeros_of psize) ≡ psize
  zeros = length-zeros_of psize

  length-p0 : length p0 ≡ psize
  length-p0 = simp length-splice zeros

  length-p1 : length p1 ≡ psize
  length-p1 = simp length-splice zeros

  length-p2 : length p2 ≡ psize
  length-p2 = simp length-splice zeros

  pub length-page_of : length page_of ≡ psize
  length-page_of = simp length-splice zeros

  pub empty_leaf-eq-ok : empty_leaf h pgno psize ≡ ok page_of
  unfolding empty_leaf set_pgno set_flags
  empty_leaf-eq-ok = rw (
    write_u32-eq-ok h (zeros_of psize) 0 pgno (omega (arith, zeros)),
    write_u32-eq-ok h p0 12 p_bleaf (omega (arith, length-p0)),
    set_lower-eq-ok h p1 page_header_size (omega (arith, length-p1)) (omega arith),
    set_upper-eq-ok h p2 psize (omega (arith, length-p2)) high,
  )

  pub lower_of_empty : u16_from h page_of 16 ≡ page_header_size
  lower_of_empty =
      u16_from-splice_apart h p2 18 (to_ne_u16 h psize) 16 (inl (omega arith))
      ∙ u16_from-splice h p1 16 page_header_size (omega (arith, length-p1)) (omega arith)

  pub upper_of_empty : u16_from h page_of 18 ≡ psize
  upper_of_empty = u16_from-splice h p2 18 psize (omega (arith, length-p2)) (omega arith)

  pub page_of-IsLeaf : IsLeaf h page_of 0
  page_of-IsLeaf = record {
    slots = record {
      header_in = omega (arith, length-page_of);
      small = omega (arith, length-page_of);
      lower_at = lower_of_empty;
      free = omega (arith, lower_of_empty, upper_of_empty);
      upper_in = omega (arith, length-page_of, upper_of_empty);
    };
    leaf_flags =
        u32_from-splice_apart h p2 18 (to_ne_u16 h psize) 12 (inl (omega arith))
        ∙ u32_from-splice_apart h p1 16 (to_ne_u16 h page_header_size) 12 (inl (omega arith))
        ∙ u32_from-splice h p0 12 p_bleaf (omega (arith, length-p0)) (omega arith);
    entry_low = λ i lt. absurd (omega arith);
    entry_high = λ i lt. absurd (omega arith);
    entry_inline = λ i lt. absurd (omega arith);
  }

  pub page_of-AreBytes : AreBytes page_of
  page_of-AreBytes =
      splice-AreBytes p2 18 (to_ne_u16 h psize)
        (splice-AreBytes p1 16 (to_ne_u16 h page_header_size)
          (splice-AreBytes p0 12 (to_ne_u32 h p_bleaf)
            (splice-AreBytes (zeros_of psize) 0 (to_ne_u32 h pgno) (zeros-AreBytes psize)
              (to_ne_u32-AreBytes h pgno))
            (to_ne_u32-AreBytes h p_bleaf))
          (to_ne_u16-AreBytes h page_header_size))
        (to_ne_u16-AreBytes h psize)

  -- With a word of the links written, the page is one that a split can fill.
  linked-Blank :
      (at v : ℕ)
      → at + 4 ≤ 12
      → Blank h (splice page_of at (to_ne_u32 h v))
        × AreBytes (splice page_of at (to_ne_u32 h v))
        × (length (splice page_of at (to_ne_u32 h v)) ≡ psize)
  linked-Blank at v le = (
    record {
      small = omega (arith, len);
      upper_at =
          u16_from-splice_apart h page_of at (to_ne_u32 h v) 18
            (inr (omega (arith, length-to_ne_u32 h v)))
          ∙ upper_of_empty
          ∙ sym len;
      leaf_flags =
          u32_from-splice_apart h page_of at (to_ne_u32 h v) 12
            (inr (omega (arith, length-to_ne_u32 h v)))
          ∙ page_of-IsLeaf.leaf_flags;
    },
    splice-AreBytes page_of at _ page_of-AreBytes (to_ne_u32-AreBytes h v),
    len,
  )
    where
      len : length (splice page_of at (to_ne_u32 h v)) ≡ psize
      len = length-splice page_of at (to_ne_u32 h v) ∙ length-page_of

  -- A page without a right neighbour.
  no_next : u32_from h page_of 8 ≡ 0
  no_next =
      u32_from-splice_apart h p2 18 (to_ne_u16 h psize) 8 (inl (omega arith))
      ∙ u32_from-splice_apart h p1 16 (to_ne_u16 h page_header_size) 8 (inl (omega arith))
      ∙ u32_from-splice_apart h p0 12 (to_ne_u32 h p_bleaf) 8 (inl (omega arith))
      ∙ u32_from-splice_apart h (zeros_of psize) 0 (to_ne_u32 h pgno) 8
          (inr (omega (arith, length-to_ne_u32 h pgno)))
      ∙ u32_from-zeros h psize 8

  pub set_next_pg-Blank :
      (v : ℕ)
      → v < 2 ^ 32
      → (b : List ℕ) × (set_next_pg h page_of v ≡ ok b)
        × Blank h b
        × AreBytes b
        × (length b ≡ psize)
        × (u32_from h b 8 ≡ v)
  unfolding set_next_pg
  set_next_pg-Blank v word =
      let (blank, bytes, len) = linked-Blank 8 v (omega arith) in
      (
        splice page_of 8 (to_ne_u32 h v),
        write_u32-eq-ok h page_of 8 v (omega (arith, length-page_of)),
        blank,
        bytes,
        len,
        u32_from-splice h page_of 8 v (omega (arith, length-page_of)) word,
      )

  pub set_prev_pg-Blank :
      (v : ℕ)
      → (b : List ℕ) × (set_prev_pg h page_of v ≡ ok b)
        × Blank h b
        × AreBytes b
        × (length b ≡ psize)
        × (u32_from h b 8 ≡ p_invalid)
  unfolding set_prev_pg
  set_prev_pg-Blank v =
      let (blank, bytes, len) = linked-Blank 4 v (omega arith) in
      (
        splice page_of 4 (to_ne_u32 h v),
        write_u32-eq-ok h page_of 4 v (omega (arith, length-page_of)),
        blank,
        bytes,
        len,
        u32_from-splice_apart h page_of 4 (to_ne_u32 h v) 8
              (inr (omega (arith, length-to_ne_u32 h v)))
            ∙ no_next,
      )
