-- ===== src/LeafSplit/Ordered.antt =====
-- The order of the keys on the two pages of a split.
use db.Prelude.{ℕ, ◌+◌, ◌-◌, ◌/◌, ◌≤◌, suc, length, ◌<◌, ◌≡◌, sym, subst, List, false, arith}
use native.Mathlib.Decide.{dec_lt, ℕ_discrete}
use db.Outcomes.{ok}
use db.Words.{Endian}
use db.Words.Bytes.{AreBytes}
use db.Format.{page_header_size}
use db.Writer.Entries.{leaf_nbytes}
use db.Writer.Plan.Balance.{slot_cost, sum_below}
use db.Writer.Split.{share_leaf}
use db.Order.{◌≺◌}
use db.LeafPage.{IsLeaf, key_at}
use db.LeafPage.Search.{IsSorted, IsPlace}
use db.LeafSplit.{Blank}
use db.LeafSplit.Shared.{
  share_leaf-IsShared, size_of, IsShared, merged, merged-before, merged-here, merged-after,
}

module _ (h : Endian) (old : List ℕ) (n skip : ℕ) (key : List ℕ) (sorted : IsSorted h old n)
    (place : IsPlace h old n key false skip) where
  abbrev row : ℕ → List ℕ
  row = merged skip key (key_at h old)

  low : (o : ℕ) → o < skip → row o ≡ key_at h old o
  low o lt = merged-before skip key (key_at h old) o lt

  high : (o : ℕ) → skip < o → row o ≡ key_at h old (o - 1)
  high o lt = merged-after skip key (key_at h old) o (o - 1) lt (omega arith)

  ascend : (i j : ℕ) (a b : List ℕ) → row i ≡ a → row j ≡ b → a ≺ b → row i ≺ row j
  ascend i j a b ei ej lt = subst (λ k. k ≺ row j) (sym ei) (subst (λ k. a ≺ k) (sym ej) lt)

  pub row_sorted : (i j : ℕ) → i < j → j < n + 1 → row i ≺ row j
  row_sorted i j lt le = elim (dec_lt j skip) [
    | yes j_low ↦
        ascend i j (key_at h old i) (key_at h old j) (low i (omega arith)) (low j j_low)
          (sorted i j lt (omega (arith, place.0)))
    | no j_high ↦ elim (ℕ_discrete j skip) [
      | yes j_here ↦
          ascend i j (key_at h old i) key (low i (omega arith))
            (merged-here skip key (key_at h old) j j_here) (place.1 i (omega arith))
      | no j_off ↦
          let behind : skip < j = omega (arith, j_off) in
          elim (dec_lt i skip) [
            | yes i_low ↦
                ascend i j (key_at h old i) (key_at h old (j - 1)) (low i i_low) (high j behind)
                  (sorted i (j - 1) (omega arith) (omega arith))
            | no i_high ↦ elim (ℕ_discrete i skip) [
              | yes i_here ↦
                  ascend i j key (key_at h old (j - 1))
                    (merged-here skip key (key_at h old) i i_here) (high j behind)
                    (place.2 (j - 1) (omega arith) (omega arith))
              | no i_off ↦
                  ascend i j (key_at h old (i - 1)) (key_at h old (j - 1))
                    (high i (omega (arith, i_off))) (high j behind)
                    (sorted (i - 1) (j - 1) (omega (arith, i_off)) (omega arith))
            ]
          ]
    ]
  ]

-- When a leaf of ascending keys and a pair that belongs at index `skip` of it stand on the two
-- pages of a split: the keys of each page ascend, and each key of the left page is smaller than
-- each key of the right one.
pub IsShared-IsSorted :
    (h : Endian) (old : List ℕ) (n skip : ℕ) (key val l_buf r_buf l r : List ℕ)
    → IsSorted h old n
    → IsPlace h old n key false skip
    → (s : IsShared h old n skip key val l_buf r_buf l r)
    → IsSorted h l s.left
      × IsSorted h r (n + 1 - s.left)
      × ((i j : ℕ) → i < s.left → j < n + 1 - s.left → key_at h l i ≺ key_at h r j)
IsShared-IsSorted h old n skip key val l_buf r_buf l r sorted place s = (
  λ i j lt le.
      both (s.l_half.key_is i (omega arith)) (s.l_half.key_is j le)
        (row_sorted h old n skip key sorted place i j lt (omega (arith, s.right_some))),
  λ i j lt le. both (s.r_half.key_is i (omega arith)) (s.r_half.key_is j le) (
      row_sorted h old n skip key sorted place (s.left + i) (s.left + j) (omega arith)
        (omega arith)),
  λ i j li lj.
      both (s.l_half.key_is i li) (s.r_half.key_is j lj)
        (row_sorted h old n skip key sorted place i (s.left + j) (omega arith) (omega arith)),
)
  where
    both : {a b c d : List ℕ} → a ≡ c → b ≡ d → c ≺ d → a ≺ b
    both {a} {b} {c} {d} ea eb lt = subst (λ k. k ≺ b) (sym ea) (subst (λ k. c ≺ k) (sym eb) lt)

-- For a leaf of bytes with at least two entries of ascending keys and a new pair of bytes that
-- belongs at index `skip` of it, none of which takes with its pointer more than half of the bytes
-- behind a page's header, and which together take at most one and a half times those bytes, and two
-- empty leaf pages of the page size: `share_leaf` succeeds with two pages that hold `m` entries and
-- the others, at least one each; the keys of each page ascend, and each key of the left page is
-- smaller than each key of the right one.
pub share_leaf-IsSorted :
    (h : Endian) (pgno psize skip n : ℕ) (old key val l_buf r_buf : List ℕ)
    → IsLeaf h old n
    → AreBytes old
    → AreBytes key
    → AreBytes val
    → Blank h l_buf
    → AreBytes l_buf
    → length l_buf ≡ psize
    → Blank h r_buf
    → AreBytes r_buf
    → length r_buf ≡ psize
    → page_header_size + 4 ≤ psize
    → 2 ≤ n
    → IsSorted h old n
    → IsPlace h old n key false skip
    → ((o : ℕ)
        → o ≤ n
        → slot_cost skip (leaf_nbytes (length key) (length val)) (size_of h old) o
          ≤ (psize - page_header_size) / 2)
    → sum_below (slot_cost skip (leaf_nbytes (length key) (length val)) (size_of h old)) (suc n)
      ≤ psize - page_header_size + (psize - page_header_size) / 2
    → (l : List ℕ) × (r : List ℕ) × (share_leaf h pgno old psize skip key val l_buf r_buf
        ≡ ok (l, r))
      × (m : ℕ) × (1 ≤ m)
      × (m ≤ n)
      × IsLeaf h l m
      × IsLeaf h r (n + 1 - m)
      × IsSorted h l m
      × IsSorted h r (n + 1 - m)
      × ((i j : ℕ) → i < m → j < n + 1 - m → key_at h l i ≺ key_at h r j)
share_leaf-IsSorted h pgno psize skip n old key val l_buf r_buf v ob kb vb l_blank lb l_len r_blank
      rb r_len roomy two sorted place small whole =
    let (l, r, shared, s) =
      share_leaf-IsShared h pgno psize skip n old key val l_buf r_buf v ob kb vb l_blank lb l_len
        r_blank rb r_len roomy two place.0 small whole in
    let (left, right, across) =
      IsShared-IsSorted h old n skip key val l_buf r_buf l r sorted place s in
    (
      l,
      r,
      shared,
      s.left,
      s.left_some,
      omega (arith, s.right_some),
      s.l_half.leaf,
      s.r_half.leaf,
      left,
      right,
      across,
    )
