-- ===== src/LeafSplit/Copies.antt =====
-- `copy_entries` onto a leaf page that is being filled.
use db.Prelude.{
  inl, inr, ℕ, zero, suc, ◌+◌, ◌-◌, ◌*◌, ◌≤◌, ◌<◌, ◌≡◌, refl, sym, ap, ap₂, subst, ◌∙◌, List,
  length, splice, arith, length-splice, Agree, splice-Agree_before, splice-Agree_after, ltb,
  if◌then◌else◌, Option, none, some,
}
use db.Outcomes.{ok}
use db.Words.{Endian, to_ne_u16}
use db.Words.Bytes.{AreBytes, splice-AreBytes, to_ne_u16-AreBytes}
use db.Words.RoundTrip.{
  length-to_ne_u16, u16_from-splice, u16_from-splice_apart, u32_from-splice_apart,
}
use db.Format.{max_psize, page_header_size}
use db.Page.{PageView, LeafEntry, leaf_entry, inline_bytes}
use db.PageBuf.{set_lower}
use db.PageBuf.Writes.{set_lower-eq-ok}
use db.PageBuf.Slots.{slot_of, upper_of, lower_of}
use db.Writer.Entries.{
  leaf_nbytes, write_entry_at_slot, copy_one, copy_loop, skip_reserved, copy_entries,
}
use db.LeafSplit.{Holds, Filled, Blank, Blank-Filled}
use db.LeafSplit.Slot.{Holds-Agree, write_entry_at_slot-Filled}

-- The entries that a view of a page reads.
abbrev pub Reads : Endian → PageView → ℕ → (ℕ → List ℕ) → (ℕ → List ℕ) → Type 0
Reads h view n skey sval =
    (i : ℕ)
    → i < n
    → (e : LeafEntry) × (leaf_entry h view i ≡ ok e)
      × (inline_bytes view e.key ≡ ok (skey i))
      × (inline_bytes view e.value ≡ ok (sval i))

-- The slot of the `j`th entry that is copied, with the slot `hole` left out.
abbrev pub place : ℕ → ℕ → ℕ
place hole j = if ltb j hole then j else j + 1

-- the slot that a copy leaves out, as the code has it; without one, no slot below `top`
abbrev pub Reserves : Option ℕ → ℕ → ℕ → Type 0
Reserves none hole top = top ≤ hole
Reserves (some r) hole top = r ≡ hole

-- the sum of `f j`, ..., `f (j + k - 1)`
unfoldable pub sum_from : (ℕ → ℕ) → ℕ → ℕ → ℕ
sum_from f j zero = 0
sum_from f j (suc k) = f j + sum_from f (j + 1) k

set_lower-Filled :
    (h : Endian) (p : List ℕ) (top m hole : ℕ) (key val : ℕ → List ℕ) (low : ℕ)
    → Filled h p top m hole key val
    → low ≤ max_psize
    → (q : List ℕ) × (set_lower h p low ≡ ok q)
      × Filled h q top m hole key val
      × (lower_of h q ≡ low)
      × (length q ≡ length p)
      × (upper_of h q ≡ upper_of h p)
      × Agree q p 0 16
      × (AreBytes p → AreBytes q)
set_lower-Filled h p top m hole key val low v le =
    let bytes = to_ne_u16 h low in
    let two = length-to_ne_u16 h low in
    let q = splice p 16 bytes in
    let len : length q ≡ length p = length-splice p 16 bytes in
    let up : upper_of h q ≡ upper_of h p =
      u16_from-splice_apart h p 16 bytes 18 (inr (omega (arith, two))) in
    let slot : (i : ℕ) → slot_of h q i ≡ slot_of h p i = λ i.
      u16_from-splice_apart h p 16 bytes (page_header_size + i * 2) (inr (omega (arith, two))) in
    (
      q,
      set_lower-eq-ok h p low (omega (arith, v.upper_in, v.header_in)) le,
      record {
        header_in = omega (arith, up, v.header_in);
        small = omega (arith, len, v.small);
        upper_in = omega (arith, len, up, v.upper_in);
        leaf_flags = u32_from-splice_apart h p 16 bytes 12 (inl (omega arith)) ∙ v.leaf_flags;
        entry = λ i li ni.
            subst (λ o. Holds h q o (key i) (val i)) (sym (slot i))
              (Holds-Agree h p q (slot_of h p i) (key i) (val i) len (omega (arith, up))
                (splice-Agree_after p 16 bytes (upper_of h p) (length p)
                  (omega (arith, two, v.header_in)))
                (v.entry i li ni));
        apart = λ i j li lj ni nj ne. elim (v.apart i j li lj ni nj ne) [
          | inl x ↦ inl (omega (arith, slot i, slot j))
          | inr x ↦ inr (omega (arith, slot i, slot j))
        ];
      },
      u16_from-splice h p 16 low (omega (arith, v.upper_in, v.header_in)) (omega arith),
      len,
      up,
      splice-Agree_before p 16 bytes 0,
      λ b. splice-AreBytes p 16 bytes b (to_ne_u16-AreBytes h low),
    )

module _ (h : Endian) (view : PageView) (n : ℕ) (skey sval : ℕ → List ℕ)
    (reads : Reads h view n skey sval) where
  copy_one_lem :
      (i slot : ℕ) (dst : List ℕ)
      → i < n
      → copy_one h view i slot dst ≡ write_entry_at_slot h slot (skey i) (sval i) dst
  unfolding copy_one
  copy_one_lem i slot dst lt = let (e, found, k, d) = reads i lt in rw (found, k, d) refl

  abbrev pub src_size : ℕ → ℕ
  src_size i = leaf_nbytes (length (skey i)) (length (sval i))

  module _ (top start count hole extra : ℕ) (reserve : Option ℕ) (key val : ℕ → List ℕ)
      (inside : start + count ≤ n) (slots : place hole count ≤ top)
      (short : page_header_size + top * 2 ≤ max_psize) (reserves : Reserves reserve hole top)
      (keys : (j : ℕ) → j < count → key (place hole j) ≡ skey (start + j))
      (vals : (j : ℕ) → j < count → val (place hole j) ≡ sval (start + j))
      (key_bytes : (i : ℕ) → i < n → AreBytes (skey i))
      (val_bytes : (i : ℕ) → i < n → AreBytes (sval i)) where
    next_slot :
        (reserve : Option ℕ) (j slot : ℕ)
        → Reserves reserve hole top
        → j < count
        → skip_reserved h reserve slot ≡ place hole j
        → skip_reserved h reserve (skip_reserved h reserve slot + 1) ≡ place hole (j + 1)
    unfolding skip_reserved
    next_slot none j slot r lt e = ground arith
    next_slot (some r) j slot same lt e = ground arith

    -- No slot is behind the last one.
    slot_in : (j : ℕ) → j ≤ count → place hole j ≤ top
    slot_in j le = ground (arith, slots)

    slot_below : (j : ℕ) → j < count → place hole j < top
    slot_below j lt = ground (arith, slots)

    -- What the loop leaves, from the `j`th entry on.
    abbrev Copied : List ℕ → List ℕ → Type 0
    Copied dst q =
        Filled h q top (place hole count) hole key val
        × (lower_of h q ≡ page_header_size + place hole count * 2)
        × (length q ≡ length dst)
        × (page_header_size + top * 2 + extra ≤ upper_of h q)
        × Agree q dst 0 16
        × AreBytes q

    copy_loop-suc :
        (k i slot : ℕ) (dst q r : List ℕ)
        → copy_one h view i (skip_reserved h reserve slot) dst ≡ ok q
        → copy_loop h (copy_one h view) reserve k (i + 1) (skip_reserved h reserve slot + 1) q
          ≡ ok r
        → copy_loop h (copy_one h view) reserve (suc k) i slot dst ≡ ok r
    unfolding copy_loop
    copy_loop-suc k i slot dst q r first rest = rw (copy_loop, first, rest) refl

    copy_loop-Filled :
        (k j slot : ℕ) (dst : List ℕ)
        → j + k ≡ count
        → skip_reserved h reserve slot ≡ place hole j
        → Filled h dst top (place hole j) hole key val
        → AreBytes dst
        → page_header_size + top * 2 + extra + sum_from src_size (start + j) k ≤ upper_of h dst
        → (q : List ℕ) × (copy_loop h (copy_one h view) reserve k (start + j) slot dst ≡ ok q)
          × Copied dst q
    unfolding copy_loop sum_from
    copy_loop-Filled zero j slot dst e at v bytes room =
        let here : j ≡ count = omega arith in
        let low : page_header_size + skip_reserved h reserve slot * 2 ≤ max_psize =
          omega (arith, at, slot_in j (omega arith), short) in
        let (q, done, vq, lowq, len, up, same, bq) =
          set_lower-Filled h dst top (place hole j) hole key val
            (page_header_size + skip_reserved h reserve slot * 2) v low in
        (
          q,
          done,
          (
            subst (λ c. Filled h q top (place hole c) hole key val) here vq,
            lowq
                ∙ ap (λ s. page_header_size + s * 2) at
                ∙ ap (λ c. page_header_size + place hole c * 2) here,
            len,
            omega (arith, up),
            same,
            bq bytes,
          ),
        )
    copy_loop-Filled (suc k) j slot dst e at v bytes room =
        let lt : j < count = omega arith in
        let size : leaf_nbytes (length (key (place hole j))) (length (val (place hole j)))
            ≡ src_size (start + j) =
          ap₂ (λ k d. leaf_nbytes (length k) (length d)) (keys j lt) (vals j lt) in
        let back : start + j + 1 ≡ start + (j + 1) = omega arith in
        let more : sum_from src_size (start + j + 1) k ≡ sum_from src_size (start + (j + 1)) k =
          ap (λ s. sum_from src_size s k) back in
        let (q, written, vq, len, up, same, bq) =
          write_entry_at_slot-Filled h dst top (place hole j) hole key val (place hole j)
            (place hole (j + 1)) hole v (slot_below j lt) (slot_in j (omega arith))
            (slot_in (j + 1) (omega arith)) (omega (arith, room, size))
            (λ i li ni off. ground arith) in
        let first : copy_one h view (start + j) (skip_reserved h reserve slot) dst ≡ ok q =
          copy_one_lem (start + j) (skip_reserved h reserve slot) dst (omega (arith, inside))
          ∙ ap₂ (λ k d. write_entry_at_slot h (skip_reserved h reserve slot) k d dst)
              (sym (keys j lt)) (sym (vals j lt))
          ∙ ap (λ s. write_entry_at_slot h s (key (place hole j)) (val (place hole j)) dst) at
          ∙ written in
        let (r, rest, (vr, lowr, lenr, upr, samer, br)) =
          copy_loop-Filled k (j + 1) (skip_reserved h reserve slot + 1) q (omega arith)
            (next_slot reserve j slot reserves lt at) vq
            (bq bytes
              (subst AreBytes (sym (keys j lt)) (key_bytes (start + j) (omega (arith, inside))))
              (subst AreBytes (sym (vals j lt)) (val_bytes (start + j) (omega (arith, inside)))))
            (omega (arith, up, size, more)) in
        (
          r,
          copy_loop-suc k (start + j) slot dst q r first (
              ap
                (λ s.
                  copy_loop h (copy_one h view) reserve k s (skip_reserved h reserve slot + 1) q)
                back
              ∙ rest),
          (vr, lowr, lenr ∙ len, upr, (λ i a b. samer i a b ∙ same i a (omega arith)), br),
        )

    first_slot :
        (reserve : Option ℕ)
        → Reserves reserve hole top
        → 0 < top
        → skip_reserved h reserve 0 ≡ place hole 0
    unfolding skip_reserved
    first_slot none r some_slot = ground arith
    first_slot (some r) same some_slot = ground arith

    -- The copy onto a page without entries.
    pub copy_entries-Filled :
        (finish : ℕ) (dst : List ℕ)
        → finish - start ≡ count
        → 0 < top
        → Blank h dst
        → AreBytes dst
        → page_header_size + top * 2 + extra + sum_from src_size start count ≤ length dst
        → (q : List ℕ) × (copy_entries h view start finish reserve dst ≡ ok q) × Copied dst q
    unfolding copy_entries
    copy_entries-Filled finish dst e some_slot blank bytes room =
        let back : start ≡ start + 0 = omega arith in
        let sums = ap (λ s. sum_from src_size s count) back in
        let (q, done, copied) =
          copy_loop-Filled count 0 0 dst (omega arith) (first_slot reserve reserves some_slot)
            (Blank-Filled h dst top (place hole 0) hole key val blank (λ i lt. ground arith)
              (omega (arith, room)))
            bytes (omega (arith, room, sums, blank.upper_at)) in
        (q, ap₂ (λ k s. copy_loop h (copy_one h view) reserve k s 0 dst) e back ∙ done, copied)
