-- ===== src/LeafPage/Delete.antt =====
-- `delete_leaf_entry` removes from the list of entries of the page.
pub mod Space
pub mod Entries
use db.Prelude.{
  slice-eq-some, ℕ, suc, ◌+◌, ◌-◌, ◌*◌, ◌≤◌, ◌<◌, ◌≡◌, ◌≢◌, refl, sym, ap, ap₂, ◌∙◌, ◌⊎◌, inl, inr,
  subst, List, length, window, splice, get_or, arith, Agree, MovedTo, length-splice, length-window,
  get_or-window, get_or-splice_at, splice-Agree_before, splice-Agree_after, le→leb, lt→ltb, le→ltb,
  ltb, if◌then◌else◌,
}
use native.Mathlib.Decide.{dec_lt}
use db.Outcomes.{ok, sub_usize-eq-ok}
use db.Words.{Endian, u32_from, to_ne_u16}
use db.Words.Bytes.{AreBytes, splice-AreBytes, window-AreBytes, to_ne_u16-AreBytes}
use db.Words.RoundTrip.{
  u16_from-Agree, u32_from-Agree, u16_from-splice, u16_from-splice_apart, length-to_ne_u16,
  u32_from-MovedTo,
}
use db.Format.{bleaf_header_size, max_psize, page_header_size}
use db.Format.Align.{align_entry_bounds}
use db.PageBuf.{copy_within}
use db.PageBuf.Writes.{set_lower-eq-ok, set_upper-eq-ok}
use db.PageBuf.Slots.{slot_of, upper_of, lower_of, lower-eq-ok, upper-eq-ok, nentries-eq-ok}
use db.Writer.Entries.{leaf_nbytes, delete_leaf_entry, read_u32_at, shift_before, shift_after}
use db.Writer.Entries.Pointers.{
  Pointed, adjusted, linp-eq-ok, shift_before-Pointed, shift_after-Pointed, slot-low, slot-high,
}
use db.LeafPage.{
  IsLeaf, IsPacked, entry_size, ksize_at, dsize_at, key_from, val_from, key_at, val_at,
}
use db.LeafPage.Moved.{ksize_moved, dsize_moved, key_moved, val_moved, eflags_moved}
pub use db.LeafPage.Delete.Space.{Deleted}
use db.LeafPage.Delete.Space.{Closed, size_low, above_upper, o_high, adj_cases, adj_small}
use db.LeafPage.Delete.Entries.{q-Deleted}

module _ (h : Endian) (p : List ℕ) (n idx : ℕ) (v : IsLeaf h p (n + 1))
    (packed : IsPacked h p (n + 1)) (inside : idx ≤ n) where
  abbrev o : ℕ
  o = slot_of h p idx

  abbrev nb : ℕ
  nb = entry_size h p o

  abbrev up : ℕ
  up = upper_of h p

  abbrev slot : ℕ → ℕ
  slot i = slot_of h p i

  abbrev adj : ℕ → ℕ
  adj = adjusted o nb

  low : lower_of h p ≡ page_header_size + (n + 1) * 2
  low = v.slots.lower_at

  abbrev p0 : List ℕ
  p0 = splice p (up + nb) (window p up (o - up))

  length-p0 : length p0 ≡ length p
  length-p0 = length-splice p (up + nb) (window p up (o - up))

  length-gap : length (window p up (o - up)) ≡ o - up
  length-gap =
      length-window p up (o - up)
        (omega (arith, (above_upper h p n idx v packed inside), (o_high h p n idx v packed inside)))

  copied : copy_within p up o (up + nb) ≡ ok p0
  unfolding copy_within
  copied = rw (
    le→leb up o (above_upper h p n idx v packed inside),
    le→leb o (length p) (omega (arith, (o_high h p n idx v packed inside))),
    le→leb (up + nb + (o - up)) (length p) (
        omega (arith, (o_high h p n idx v packed inside), (above_upper h p n idx v packed inside))),
  )

  p0_low : (lo : ℕ) → Agree p0 p lo (up + nb)
  p0_low = splice-Agree_before p (up + nb) (window p up (o - up))

  p0_high : (hi : ℕ) → Agree p0 p (o + nb) hi
  p0_high hi =
      splice-Agree_after p (up + nb) (window p up (o - up)) (o + nb) hi
        (omega (arith, length-gap, (above_upper h p n idx v packed inside)))

  -- The bytes in front of the entry stand `nb` further.
  p0_moved : MovedTo p0 p (up + nb) up (o - up)
  p0_moved j lt =
      get_or-splice_at p (up + nb) (window p up (o - up)) j (up + nb + j) 0 (omega arith)
        (omega (arith, length-gap))
        (omega (
          arith,
          length-gap,
          (o_high h p n idx v packed inside),
          (above_upper h p n idx v packed inside),
        ))
      ∙ get_or-window p up (o - up) j 0 lt

  slot_first : (i : ℕ) → i < n + 1 → slot_of h p0 i ≡ slot i
  slot_first i lt =
      u16_from-Agree h p0 p (page_header_size + i * 2)
        (λ j l r. p0_low 0 j (omega arith) (omega (arith, low, v.slots.free)))

  read_u32_at-eq-ok : (off : ℕ) → off + 4 ≤ length p → read_u32_at h p off ≡ ok (u32_from h p off)
  unfolding read_u32_at
  read_u32_at-eq-ok off le =
      let four : off + 4 - off ≡ 4 = omega arith in
      rw (slice-eq-some p off (off + 4) (omega arith) le, four)
        (ap ok (
          u32_from-MovedTo h (window p off 4) p 0 off (λ j lt.
            let zero_left : 0 + j ≡ j = omega arith in
            ap (λ k. get_or (window p off 4) k 0) zero_left ∙ get_or-window p off 4 j 0 lt)))

  module _ (p1 p2 : List ℕ) (s1 : Pointed h p0 p1 0 idx (λ k. adj (slot_of h p0 k)))
      (s2 : Pointed h p1 p2 idx (n - idx) (λ k. adj (slot_of h p1 (k + 1)))) where
    abbrev p3 : List ℕ
    p3 = splice p2 16 (to_ne_u16 h (lower_of h p - 2))

    abbrev q : List ℕ
    q = splice p3 18 (to_ne_u16 h (up + nb))

    length-p2 : length p2 ≡ length p
    length-p2 = s2.same_length ∙ s1.same_length ∙ length-p0

    length-p3 : length p3 ≡ length p
    length-p3 = length-splice p2 16 (to_ne_u16 h (lower_of h p - 2)) ∙ length-p2

    length-q : length q ≡ length p
    length-q = length-splice p3 18 (to_ne_u16 h (up + nb)) ∙ length-p3

    -- The header writes show nothing behind the header, and nothing in front of `lower`.
    q-p2 : (hi : ℕ) → Agree q p2 page_header_size hi
    q-p2 hi j l r =
        splice-Agree_after p3 18 (to_ne_u16 h (up + nb)) page_header_size hi
          (omega (arith, length-to_ne_u16 h (up + nb))) j l r
        ∙ splice-Agree_after p2 16 (to_ne_u16 h (lower_of h p - 2)) page_header_size hi
            (omega (arith, length-to_ne_u16 h (lower_of h p - 2))) j l r

    q-p2_low : Agree q p2 0 16
    q-p2_low j l r =
        splice-Agree_before p3 18 (to_ne_u16 h (up + nb)) 0 j l (omega arith)
        ∙ splice-Agree_before p2 16 (to_ne_u16 h (lower_of h p - 2)) 0 j l r

    q_header : Agree q p 0 16
    q_header j l r =
        q-p2_low j l r
        ∙ s2.low 0 j l (omega arith)
        ∙ s1.low 0 j l (omega arith)
        ∙ p0_low 0 j l (omega (arith, low, v.slots.free))

    -- Behind the pointers nothing but the move of the bytes shows.
    q-p0 : (hi : ℕ) → Agree q p0 up hi
    q-p0 hi j l r =
        q-p2 (suc j) j (omega (arith, low, v.slots.free)) (omega arith)
        ∙ s2.high (suc j) j (omega (arith, low, v.slots.free)) (omega arith)
        ∙ s1.high (suc j) j (omega (arith, low, v.slots.free)) (omega arith)

    slot_q : (i : ℕ) → slot_of h q i ≡ slot_of h p2 i
    slot_q i =
        u16_from-Agree h q p2 (page_header_size + i * 2)
          (λ j l r. q-p2 (suc j) j (omega arith) (omega arith))

    slot_before : (i : ℕ) → i < idx → slot_of h q i ≡ adj (slot i)
    slot_before i lt =
        slot_q i
        ∙ slot-low h p1 p2 idx (n - idx) i (λ k. adj (slot_of h p1 (k + 1))) s2 lt
        ∙ s1.at i (omega arith) (omega arith)
        ∙ ap adj (slot_first i (omega arith))

    slot_after : (i : ℕ) → idx ≤ i → i < n → slot_of h q i ≡ adj (slot (i + 1))
    slot_after i le lt =
        slot_q i
        ∙ s2.at i le (omega arith)
        ∙ ap adj (
            slot-high h p0 p1 0 idx (i + 1) (λ k. adj (slot_of h p0 k)) s1 (omega arith)
            ∙ slot_first (i + 1) (omega arith))

    lower_q : lower_of h q ≡ page_header_size + n * 2
    lower_q =
        u16_from-splice_apart h p3 18 (to_ne_u16 h (up + nb)) 16 (inl (omega arith))
        ∙ u16_from-splice h p2 16 (lower_of h p - 2) (omega (arith, length-p2, v.slots.header_in))
            (omega (arith, low, v.slots.free, v.slots.upper_in, v.slots.small))
        ∙ omega (arith, low)

    upper_q : upper_of h q ≡ up + nb
    upper_q = u16_from-splice h p3 18 (up + nb) (omega (arith, length-p3, v.slots.header_in)) (
        omega (
          arith,
          (above_upper h p n idx v packed inside),
          (o_high h p n idx v packed inside),
          v.slots.small,
        ))

    -- Entry `i` of the old page, where it stands on the new one.
    moved_entry :
        (i : ℕ)
        → i < n + 1
        → i ≢ idx
        → MovedTo q p
            (adj (slot i))
            (slot i)
            (bleaf_header_size + ksize_at h p (slot i) + dsize_at h p (slot i))
    moved_entry i lt ne j jlt = elim (adj_cases h p n idx v packed inside i lt ne) [
      | inl (front, e) ↦
          let there : adj (slot i) + j ≡ up + nb + (slot i - up + j) =
            omega (arith, e, v.entry_low i lt) in
          let here : up + (slot i - up + j) ≡ slot i + j = omega (arith, v.entry_low i lt) in
          ap (λ k. get_or q k 0) there
          ∙ q-p0 (suc (up + nb + (slot i - up + j))) (up + nb + (slot i - up + j)) (omega arith)
              (omega arith)
          ∙ p0_moved (slot i - up + j)
              (omega (arith, front, size_low h p n idx v packed inside (slot i), v.entry_low i lt))
          ∙ ap (λ k. get_or p k 0) here
      | inr (back, e) ↦
          let there : adj (slot i) + j ≡ slot i + j = omega (arith, e) in
          ap (λ k. get_or q k 0) there
          ∙ q-p0 (suc (slot i + j)) (slot i + j) (omega (arith, v.entry_low i lt)) (omega arith)
          ∙ p0_high (suc (slot i + j)) (slot i + j) (omega (arith, back)) (omega arith)
    ]

    q-Closed : Closed h p q n idx
    q-Closed = record {
      same_length = length-q;
      header = q_header;
      bytes = λ b.
          splice-AreBytes p3 18 (to_ne_u16 h (up + nb))
            (splice-AreBytes p2 16 (to_ne_u16 h (lower_of h p - 2))
              (s2.bytes (
                s1.bytes (
                  splice-AreBytes p (up + nb) (window p up (o - up)) b
                    (window-AreBytes p up (o - up) b))))
              (to_ne_u16-AreBytes h (lower_of h p - 2)))
            (to_ne_u16-AreBytes h (up + nb));
      lower_at = lower_q;
      upper_at = upper_q;
      slots_before = slot_before;
      slots_after = slot_after;
      moved = moved_entry;
    }

    delete-eq-ok :
        shift_before h o nb idx 0 p0 ≡ ok p1
        → shift_after h o nb (n - idx) idx p1 ≡ ok p2
        → delete_leaf_entry h idx p ≡ ok q
    unfolding delete_leaf_entry
    delete-eq-ok first second =
        let count : n + 1 - 1 - idx ≡ n - idx = omega arith in
        rw (
          lower-eq-ok h p (n + 1) v.slots,
          upper-eq-ok h p (n + 1) v.slots,
          nentries-eq-ok h p (n + 1) v.slots,
          linp-eq-ok h p idx (omega (arith, low, v.slots.free, v.slots.upper_in)),
          read_u32_at-eq-ok o (
              omega
                (arith, (o_high h p n idx v packed inside), size_low h p n idx v packed inside o)),
          read_u32_at-eq-ok (o + 4) (
              omega
                (arith, (o_high h p n idx v packed inside), size_low h p n idx v packed inside o)),
          copied,
          first,
          sub_usize-eq-ok (n + 1) 1 (omega arith),
          count,
          second,
          sub_usize-eq-ok (lower_of h p) 2 (omega (arith, low)),
          set_lower-eq-ok h p2 (lower_of h p - 2) (omega (arith, length-p2, v.slots.header_in))
              (omega (arith, v.slots.free, v.slots.upper_in, v.slots.small)),
          set_upper-eq-ok h p3 (up + nb) (omega (arith, length-p3, v.slots.header_in)) (
              omega (
                arith,
                (above_upper h p n idx v packed inside),
                (o_high h p n idx v packed inside),
                v.slots.small,
              )),
        )

-- On a leaf of `n + 1` entries of which no two share a byte, `delete_leaf_entry` succeeds at every
-- index up to `n`, and leaves such a leaf of `n` entries: the entries before `idx` are unchanged,
-- those behind it stand one place further to the front, the page number, the links and the flags are
-- kept, and the free space grows by the aligned size of the entry and a pointer.
pub delete_leaf_entry-Deleted :
    (h : Endian) (p : List ℕ) (n idx : ℕ)
    → IsLeaf h p (n + 1)
    → IsPacked h p (n + 1)
    → idx ≤ n
    → (q : List ℕ) × (delete_leaf_entry h idx p ≡ ok q) × Deleted h p q n idx
delete_leaf_entry-Deleted h p n idx v packed inside =
    let off = slot_of h p idx in
    let size = entry_size h p off in
    let start = p0 h p n idx v packed inside in
    let low_p = v.slots.lower_at in
    let room : page_header_size + (n + 1) * 2 ≤ length start =
      omega (arith, length-p0 h p n idx v packed inside, low_p, v.slots.free, v.slots.upper_in) in
    let (p1, first, s1) = shift_before-Pointed h off size idx 0 start (omega arith) (λ k l r.
      rw (slot_first h p n idx v packed inside k (omega arith))
        (adj_small h p n idx v packed inside k (omega arith) (λ e. omega arith))) in
    let same : (k : ℕ)
        → idx ≤ k
        → k < idx + (n - idx)
        → slot_of h p1 (k + 1) ≡ slot_of h p (k + 1) =
      λ k l r.
        slot-high h start p1 0 idx (k + 1) (λ i. adjusted off size (slot_of h start i)) s1
          (omega arith)
        ∙ slot_first h p n idx v packed inside (k + 1) (omega arith) in
    let (p2, second, s2) =
      shift_after-Pointed h off size (n - idx) idx p1 (omega (arith, s1.same_length)) (λ k l r.
        rw (same k l r)
          (adj_small h p n idx v packed inside (k + 1) (omega arith) (λ e. omega arith))) in
    (
      q h p n idx v packed inside p1 p2 s1 s2,
      delete-eq-ok h p n idx v packed inside p1 p2 s1 s2 first second,
      q-Deleted h p (q h p n idx v packed inside p1 p2 s1 s2) n idx v packed inside
          (q-Closed h p n idx v packed inside p1 p2 s1 s2),
    )
