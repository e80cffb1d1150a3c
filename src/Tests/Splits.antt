-- ===== src/Tests/Splits.antt =====
-- The theorems about the split of a leaf, on a page of 64 bytes with two entries.
use db.Prelude.{
  ℕ, zero, suc, ◌+◌, ◌-◌, ◌/◌, ◌≤◌, ◌<◌, ◌≡◌, refl, List, [], ◌∷◌, length, replicate, get_or, false,
  arith,
}
use db.Outcomes.{ok}
use db.Words.{little, from_ne_u16, from_ne_u32}
use db.Words.Bytes.{are_bytes-AreBytes}
use db.Format.{page_header_size, align_entry}
use db.Order.{cmp, ◌≺◌}
use db.PageBuf.Slots.{upper_of, slot_of}
use db.Writer.Entries.{leaf_nbytes}
use db.Writer.Plan.Balance.{slot_cost, sum_below}
use db.Writer.Split.{share_leaf}
use db.LeafPage.{IsLeaf, ksize_at, dsize_at, key_at}
use db.LeafPage.Search.{IsSorted, IsPlace}
use db.LeafSplit.{Blank}
use db.LeafSplit.Shared.{IsShared, size_of, share_leaf-IsShared}
use db.LeafSplit.Ordered.{share_leaf-IsSorted}

-- the entries of the keys 1 and 5
abbrev old : List ℕ
old =
    1 ∷ 0 ∷ 0 ∷ 0 ∷ 0 ∷ 0 ∷ 0 ∷ 0 ∷ 0 ∷ 0 ∷ 0 ∷ 0 ∷ 2 ∷ 0 ∷ 0 ∷ 0 ∷ 24 ∷ 0 ∷ 40 ∷ 0 ∷ 52 ∷ 0 ∷ 40
    ∷ 0 ∷ 0 ∷ 0 ∷ 0 ∷ 0 ∷ 0 ∷ 0 ∷ 0 ∷ 0 ∷ 0 ∷ 0 ∷ 0 ∷ 0 ∷ 0 ∷ 0 ∷ 0 ∷ 0 ∷ 1 ∷ 0 ∷ 0 ∷ 0 ∷ 1 ∷ 0 ∷ 0
    ∷ 0 ∷ 0 ∷ 5 ∷ 7 ∷ 0 ∷ 1 ∷ 0 ∷ 0 ∷ 0 ∷ 1 ∷ 0 ∷ 0 ∷ 0 ∷ 0 ∷ 1 ∷ 9 ∷ 0 ∷ []

-- a page without entries
abbrev blank : List ℕ
blank =
    7 ∷ 0 ∷ 0 ∷ 0 ∷ 0 ∷ 0 ∷ 0 ∷ 0 ∷ 0 ∷ 0 ∷ 0 ∷ 0 ∷ 2 ∷ 0 ∷ 0 ∷ 0 ∷ 20 ∷ 0 ∷ 64 ∷ 0 ∷ replicate 44 0

abbrev key : List ℕ
key = 3 ∷ []

abbrev val : List ℕ
val = 2 ∷ []

blank-Blank : Blank little blank
unfolding from_ne_u16 from_ne_u32
blank-Blank = record { small = omega arith; upper_at = refl; leaf_flags = refl }

old-IsLeaf : IsLeaf little old 2
unfolding from_ne_u16 from_ne_u32 align_entry
old-IsLeaf = record {
  slots = record {
    header_in = omega arith;
    small = omega arith;
    lower_at = refl;
    free = omega arith;
    upper_in = omega arith;
  };
  leaf_flags = refl;
  entry_low = low;
  entry_high = high;
  entry_inline = inline;
}
  where
    low : (i : ℕ) → i < 2 → upper_of little old ≤ slot_of little old i
    low zero lt = omega arith
    low (suc zero) lt = omega arith
    low (suc (suc i)) lt = absurd (omega arith)

    high :
        (i : ℕ)
        → i < 2
        → slot_of little old i
            + leaf_nbytes
                (ksize_at little old (slot_of little old i))
                (dsize_at little old (slot_of little old i))
          ≤ length old
    high zero lt = omega arith
    high (suc zero) lt = omega arith
    high (suc (suc i)) lt = absurd (omega arith)

    inline : (i : ℕ) → i < 2 → get_or old (slot_of little old i + 8) 0 ≡ 0
    inline zero lt = refl
    inline (suc zero) lt = refl
    inline (suc (suc i)) lt = absurd (omega arith)

old-IsSorted : IsSorted little old 2
unfolding from_ne_u16 from_ne_u32 cmp
old-IsSorted zero (suc zero) lt le = refl
old-IsSorted i zero lt le = absurd (omega arith)
old-IsSorted (suc i) (suc j) lt le = absurd (omega arith)
old-IsSorted i (suc (suc j)) lt le = absurd (omega arith)

key-IsPlace : IsPlace little old 2 key false 1
unfolding from_ne_u16 from_ne_u32 cmp
key-IsPlace = (omega arith, below, above)
  where
    below : (i : ℕ) → i < 1 → key_at little old i ≺ key
    below zero lt = refl
    below (suc i) lt = absurd (omega arith)

    above : (i : ℕ) → 1 ≤ i → i < 2 → key ≺ key_at little old i
    above zero le lt = absurd (omega arith)
    above (suc zero) le lt = refl
    above (suc (suc i)) le lt = absurd (omega arith)

abbrev costs : ℕ → ℕ
costs = slot_cost 1 (leaf_nbytes (length key) (length val)) (size_of little old)

small_costs : (o : ℕ) → o ≤ 2 → costs o ≤ (64 - page_header_size) / 2
unfolding from_ne_u16 from_ne_u32 align_entry
small_costs zero le = omega arith
small_costs (suc zero) le = omega arith
small_costs (suc (suc zero)) le = omega arith
small_costs (suc (suc (suc o))) le = absurd (omega arith)

all_costs : sum_below costs 3 ≤ 64 - page_header_size + (64 - page_header_size) / 2
unfolding from_ne_u16 from_ne_u32 align_entry sum_below
all_costs = omega arith

share_leaf-IsShared_example :
    (l : List ℕ) × (r : List ℕ) × (share_leaf little 1 old 64 1 key val blank blank ≡ ok (l, r))
    × IsShared little old 2 1 key val blank blank l r
share_leaf-IsShared_example =
    share_leaf-IsShared little 1 64 1 2 old key val blank blank old-IsLeaf
      (are_bytes-AreBytes old refl) (are_bytes-AreBytes key refl) (are_bytes-AreBytes val refl)
      blank-Blank (are_bytes-AreBytes blank refl) refl blank-Blank (are_bytes-AreBytes blank refl)
      refl (omega arith) (omega arith) (omega arith) small_costs all_costs

share_leaf-IsSorted_example :
    (l : List ℕ) × (r : List ℕ) × (share_leaf little 1 old 64 1 key val blank blank ≡ ok (l, r))
    × (m : ℕ) × (1 ≤ m)
    × (m ≤ 2)
    × IsLeaf little l m
    × IsLeaf little r (2 + 1 - m)
    × IsSorted little l m
    × IsSorted little r (2 + 1 - m)
    × ((i j : ℕ) → i < m → j < 2 + 1 - m → key_at little l i ≺ key_at little r j)
share_leaf-IsSorted_example =
    share_leaf-IsSorted little 1 64 1 2 old key val blank blank old-IsLeaf
      (are_bytes-AreBytes old refl) (are_bytes-AreBytes key refl) (are_bytes-AreBytes val refl)
      blank-Blank (are_bytes-AreBytes blank refl) refl blank-Blank (are_bytes-AreBytes blank refl)
      refl (omega arith) (omega arith) old-IsSorted key-IsPlace small_costs all_costs
