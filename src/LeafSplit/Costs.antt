-- ===== src/LeafSplit/Costs.antt =====
-- What a split has to share out when no entry takes more than half of a page: at most one and a
-- half pages, since the entries of the old page are packed on it.
use db.Prelude.{
  ℕ, zero, suc, ◌+◌, ◌-◌, ◌*◌, ◌/◌, ◌≤◌, ◌<◌, ◌≡◌, refl, sym, ap, ap₂, ◌∙◌, List, length,
  length-window, arith, inl, inr,
}
use native.Mathlib.Decide.{dec_lt, ℕ_discrete}
use db.Words.{Endian}
use db.Format.{bleaf_header_size, binternal_header_size, page_header_size}
use db.Format.Align.{align_entry_bounds, align_entry_mono}
use db.PageBuf.Slots.{slot_of, upper_of}
use db.Writer.Entries.{leaf_nbytes, internal_nbytes}
use db.Writer.Plan.Balance.{sum_below, slot_cost}
use db.LeafPage.{IsLeaf, IsPacked, entry_size, ksize_at, dsize_at, key_at, val_at}
use db.LeafSplit.Copies.{sum_from}
use db.LeafSplit.Sums.{sum_below-high, sum_from-suc}
use db.LeafSplit.Shared.{size_of, merged, merged-before, merged-here, merged-after}
use db.LeafSplit.Packing.{Apart, sum-Apart}

sum_from-below : (f : ℕ → ℕ) (n : ℕ) → sum_from f 0 n ≡ sum_below f n
unfolding sum_from sum_below
sum_from-below f zero = refl
sum_from-below f (suc n) = sum_from-suc f n ∙ ap (λ x. x + f n) (sum_from-below f n)

module _ (h : Endian) (p : List ℕ) (n : ℕ) (v : IsLeaf h p n) (packed : IsPacked h p n) where
  fits :
      (i : ℕ)
      → i < n
      → slot_of h p i
          + bleaf_header_size
          + ksize_at h p (slot_of h p i)
          + dsize_at h p (slot_of h p i)
        ≤ length p
  fits i lt = omega (
    arith,
    v.entry_high i lt,
    (align_entry_bounds
        (bleaf_header_size + ksize_at h p (slot_of h p i) + dsize_at h p (slot_of h p i))).0,
  )

  pub size_of-entry_size : (i : ℕ) → i < n → size_of h p i ≡ entry_size h p (slot_of h p i)
  size_of-entry_size i lt =
      let ks = ksize_at h p (slot_of h p i) in
      let ds = dsize_at h p (slot_of h p i) in
      ap₂ leaf_nbytes
        (length-window p (slot_of h p i + bleaf_header_size) ks (omega (arith, fits i lt)))
        (length-window p (slot_of h p i + bleaf_header_size + ks) ds (fits i lt))

  all-Apart : Apart (upper_of h p) (length p) n (slot_of h p) (size_of h p)
  all-Apart = record {
    low = v.entry_low;
    high = λ i lt. omega (arith, size_of-entry_size i lt, v.entry_high i lt);
    apart = λ i j li lj ne. elim (packed.apart i j li lj ne) [
      | inl x ↦ inl (omega (arith, size_of-entry_size i li))
      | inr x ↦ inr (omega (arith, size_of-entry_size j lj))
    ];
  }

  -- The entries and their pointers stand behind the header.
  entries_room : sum_below (size_of h p) n + n * 2 ≤ length p - page_header_size
  entries_room = omega (
    arith,
    sum-Apart n (upper_of h p) (length p) (slot_of h p) (size_of h p) v.slots.upper_in all-Apart,
    v.slots.lower_at,
    v.slots.free,
  )

  module _ (skip ilen : ℕ) (inside : skip ≤ n)
      (new_small : ilen + 2 ≤ (length p - page_header_size) / 2) where
    pub cost_small :
        ((i : ℕ) → i < n → size_of h p i + 2 ≤ (length p - page_header_size) / 2)
        → (o : ℕ) → o ≤ n
        → slot_cost skip ilen (size_of h p) o ≤ (length p - page_header_size) / 2
    cost_small small o le = elim (ℕ_discrete skip o) [
      | yes here ↦ ground arith
      | no other ↦ elim (dec_lt skip o) [
        | yes behind ↦ ground (arith, small (o - 1) (omega arith))
        | no before ↦ ground (arith, small o (ground arith))
      ]
    ]

    pub cost_whole :
        sum_below (slot_cost skip ilen (size_of h p)) (suc n)
        ≤ length p - page_header_size + (length p - page_header_size) / 2
    cost_whole =
        let count : suc n ≡ skip + 1 + (n - skip) = omega arith in
        let count' : skip + (n - skip) ≡ n = omega arith in
        let total =
          ap (sum_below (slot_cost skip ilen (size_of h p))) count
          ∙ sum_below-high skip ilen (size_of h p) (n - skip) in
        let entries = ap (sum_from (size_of h p) 0) count' ∙ sum_from-below (size_of h p) n in
        omega (arith, total, entries, entries_room)

    -- A key of the row, as a separator.
    pub separator_small :
        (key : List ℕ) (vlen : ℕ)
        → ilen ≡ leaf_nbytes (length key) vlen
        → ((i : ℕ) → i < n → size_of h p i + 2 ≤ (length p - page_header_size) / 2)
        → (o : ℕ) → o ≤ n
        → internal_nbytes (length (merged skip key (key_at h p) o)) + 2
          ≤ (length p - page_header_size) / 2
    separator_small key vlen new small o le = elim (ℕ_discrete skip o) [
      | yes here ↦
          let same =
            ap (λ k. internal_nbytes (length k)) (merged-here skip key (key_at h p) o (sym here)) in
          omega (arith, same, new, wider (length key) vlen)
      | no other ↦ elim (dec_lt o skip) [
        | yes low ↦
            let same =
              ap (λ k. internal_nbytes (length k)) (merged-before skip key (key_at h p) o low) in
            omega (
              arith,
              same,
              wider (length (key_at h p o)) (length (val_at h p o)),
              small o (omega arith),
            )
        | no high ↦
            let behind : skip < o = ground arith in
            let same =
              ap (λ k. internal_nbytes (length k))
                (merged-after skip key (key_at h p) o (o - 1) behind (omega arith)) in
            omega (
              arith,
              same,
              wider (length (key_at h p (o - 1))) (length (val_at h p (o - 1))),
              small (o - 1) (omega arith),
            )
      ]
    ]
      where
        wider : (k d : ℕ) → internal_nbytes k ≤ leaf_nbytes k d
        wider k d =
            align_entry_mono (binternal_header_size + k) (bleaf_header_size + k + d) (omega arith)
