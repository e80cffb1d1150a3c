-- ===== src/PageBuf/Slots.antt =====
-- `reserve_slot` opens a slot in `linp[]`: the pointers from it on move up by one, `lower` and
-- `upper` close in on the free space, and no other byte changes.
use db.Prelude.{
  ℕ, suc, ◌+◌, ◌-◌, ◌*◌, ◌≤◌, ◌<◌, ◌≡◌, ap, ◌∙◌, List, [], length, splice, window, get_or, arith,
  length-splice, length-window, splice-nil, Agree, splice-Agree_before, splice-Agree_after,
  get_or-splice_at, get_or-window, le→leb, lt→ltb, le→ltb, ltb, ==_iff, if◌then◌else◌, inl,
}
use native.Mathlib.Decide.{dec_lt}
use db.Outcomes.{ok, sub_usize-eq-ok}
use db.Words.{Endian, to_ne_u16, u16_from}
use db.Words.Bytes.{AreBytes, splice-AreBytes, window-AreBytes, to_ne_u16-AreBytes}
use db.Words.RoundTrip.{length-to_ne_u16, u16_from-splice, u16_from-Agree, u16_from-splice_apart}
use db.Format.{max_psize, page_header_size, align_entry}
use db.PageBuf.{lower, upper, nentries, free_space, reserve_slot, copy_within}
use db.PageBuf.Writes.{read_u16-eq-ok, set_lower-eq-ok, set_upper-eq-ok, set_linp-eq-ok}

-- The header and the pointers of a page, as numbers.
abbrev pub lower_of : Endian → List ℕ → ℕ
lower_of h p = u16_from h p 16

abbrev pub upper_of : Endian → List ℕ → ℕ
upper_of h p = u16_from h p 18

abbrev pub slot_of : Endian → List ℕ → ℕ → ℕ
slot_of h p i = u16_from h p (page_header_size + i * 2)

-- A page of the writer with `n` slots: its size and its header agree.
pub record HasSlots (h : Endian) (p : List ℕ) (n : ℕ) : Type 0 where
  pub header_in : page_header_size ≤ length p
  pub small : length p ≤ max_psize
  pub lower_at : lower_of h p ≡ page_header_size + n * 2
  pub free : lower_of h p ≤ upper_of h p
  pub upper_in : upper_of h p ≤ length p

-- Page `q` is page `p`, of `n` slots, with slot `idx` opened for an entry at `new_upper`.
pub record Reserved (h : Endian) (p q : List ℕ) (n idx new_upper : ℕ) : Type 0 where
  pub same_length : length q ≡ length p
  pub header : Agree q p 0 16
  pub lower_at : lower_of h q ≡ page_header_size + (n + 1) * 2
  pub upper_at : upper_of h q ≡ new_upper
  pub slots_before : (i : ℕ) → i < idx → slot_of h q i ≡ slot_of h p i
  pub slot_at : slot_of h q idx ≡ new_upper
  pub slots_after : (i : ℕ) → idx ≤ i → i < n → slot_of h q (i + 1) ≡ slot_of h p i
  pub rest : (hi : ℕ) → Agree q p (page_header_size + (n + 1) * 2) hi
  pub bytes : AreBytes p → AreBytes q

module _ (h : Endian) (p : List ℕ) (n : ℕ) (v : HasSlots h p n) where
  pub lower-eq-ok : lower h p ≡ ok (lower_of h p)
  unfolding lower
  lower-eq-ok = read_u16-eq-ok h p 16 (omega arith)

  pub upper-eq-ok : upper h p ≡ ok (upper_of h p)
  unfolding upper
  upper-eq-ok = read_u16-eq-ok h p 18 (omega arith)

  pub nentries-eq-ok : nentries h p ≡ ok n
  unfolding nentries
  nentries-eq-ok =
      rw (lower-eq-ok, sub_usize-eq-ok (lower_of h p) page_header_size (omega arith))
        (ap ok (omega arith))

  pub free_space-eq-ok : free_space h p ≡ ok (upper_of h p - lower_of h p)
  unfolding free_space
  free_space-eq-ok = rw (upper-eq-ok, lower-eq-ok) (sub_usize-eq-ok _ _ (omega arith))

window-zero : (xs : List ℕ) (a n : ℕ) → n ≡ 0 → window xs a n ≡ []
window-zero xs a n e = rw e

module _ (h : Endian) (p : List ℕ) (n idx nbytes : ℕ) (v : HasSlots h p n) (inside : idx ≤ n)
    (pos : 0 < nbytes) (room : nbytes + 2 ≤ upper_of h p - lower_of h p) where
  abbrev from : ℕ
  from = page_header_size + idx * 2

  abbrev moved : ℕ
  moved = page_header_size + n * 2 - from

  abbrev q0 : List ℕ
  q0 = splice p (from + 2) (window p from moved)

  abbrev nu : ℕ
  nu = upper_of h p - nbytes

  abbrev q1 : List ℕ
  q1 = splice q0 from (to_ne_u16 h nu)

  abbrev q2 : List ℕ
  q2 = splice q1 16 (to_ne_u16 h (lower_of h p + 2))

  abbrev q3 : List ℕ
  q3 = splice q2 18 (to_ne_u16 h nu)

  length-moved : length (window p from moved) ≡ moved
  length-moved = length-window p from moved (omega arith)

  shifted :
      (if ltb idx n then copy_within p from (page_header_size + n * 2) (from + 2) else ok p) ≡ ok q0
  unfolding copy_within
  shifted = elim (dec_lt idx n) [
    | yes lt ↦ rw (
      lt→ltb idx n lt,
      le→leb from (page_header_size + n * 2) (omega arith),
      le→leb (page_header_size + n * 2) (length p) (omega arith),
      le→leb (from + 2 + (page_header_size + n * 2 - from)) (length p) (omega arith),
    )
    | no ge ↦ rw (
      le→ltb idx n (omega arith),
      window-zero p from moved (omega arith),
      splice-nil p (from + 2),
    )
  ]

  length-q2 : length q2 ≡ length p
  length-q2 = simp length-splice

  reserve_slot-eq-ok : nbytes ≡ align_entry nbytes → reserve_slot h p idx nbytes ≡ ok (q3, nu)
  unfolding reserve_slot
  reserve_slot-eq-ok aligned = rw (
    nentries-eq-ok h p n v,
    le→leb idx n inside,
    (==_iff nbytes (align_entry nbytes)).1 aligned,
    free_space-eq-ok h p n v,
    le→leb (nbytes + 2) (upper_of h p - lower_of h p) room,
    lower-eq-ok h p n v,
    upper-eq-ok h p n v,
    shifted,
    sub_usize-eq-ok (upper_of h p) nbytes (omega arith),
    set_linp-eq-ok h q0 nu idx (simp length-splice (omega arith)) (omega arith),
    set_lower-eq-ok h q1 (lower_of h p + 2) (simp length-splice (omega arith)) (omega arith),
    set_upper-eq-ok h q2 nu (simp length-splice (omega arith)) (omega arith),
  )

  len16 : (w : ℕ) → length (to_ne_u16 h w) ≡ 2
  len16 = length-to_ne_u16 h

  -- Behind the header the two header writes show nothing, and so before it.
  q3-q1_after : (hi : ℕ) → Agree q3 q1 page_header_size hi
  q3-q1_after hi j l r =
      splice-Agree_after q2 18 (to_ne_u16 h nu) page_header_size hi (omega (arith, len16 nu)) j l r
      ∙ splice-Agree_after q1 16 (to_ne_u16 h (lower_of h p + 2)) page_header_size hi
          (omega (arith, len16 (lower_of h p + 2))) j l r

  q1-p_before : Agree q1 p 0 from
  q1-p_before j l r =
      splice-Agree_before q0 from (to_ne_u16 h nu) 0 j l r
      ∙ splice-Agree_before p (from + 2) (window p from moved) 0 j l (omega arith)

  q3-p_header : Agree q3 p 0 16
  q3-p_header j l r =
      splice-Agree_before q2 18 (to_ne_u16 h nu) 0 j l (omega arith)
      ∙ splice-Agree_before q1 16 (to_ne_u16 h (lower_of h p + 2)) 0 j l r
      ∙ q1-p_before j l (omega arith)

  q3-p_rest : (hi : ℕ) → Agree q3 p (page_header_size + (n + 1) * 2) hi
  q3-p_rest hi j l r =
      q3-q1_after hi j (omega arith) r
      ∙ splice-Agree_after q0 from (to_ne_u16 h nu) j hi (omega (arith, len16 nu)) j (omega arith) r
      ∙ splice-Agree_after p (from + 2) (window p from moved) j hi (omega (arith, length-moved)) j
          (omega arith) r

  -- The pointers that moved.
  moved_byte :
      (j : ℕ) → from ≤ j → j < page_header_size + n * 2 → get_or q3 (j + 2) 0 ≡ get_or p j 0
  moved_byte j l r =
      q3-q1_after (j + 3) (j + 2) (omega arith) (omega arith)
      ∙ splice-Agree_after q0 from (to_ne_u16 h nu) (j + 2) (j + 3) (omega (arith, len16 nu))
          (j + 2) (omega arith) (omega arith)
      ∙ get_or-splice_at p (from + 2) (window p from moved) (j - from) (j + 2) 0 (omega arith)
          (omega (arith, length-moved)) (omega (arith, length-moved))
      ∙ get_or-window p from moved (j - from) 0 (omega arith)
      ∙ ap (λ k. get_or p k 0) {x = from + (j - from)} {y = j} (omega arith)

  moved_slot : (i : ℕ) → idx ≤ i → i < n → slot_of h q3 (i + 1) ≡ slot_of h p i
  moved_slot i l r =
      ap (λ k. u16_from h q3 k) {x = page_header_size + (i + 1) * 2}
        {y = page_header_size + i * 2 + 2} (omega arith)
      ∙ rw (moved_byte (page_header_size + i * 2) (omega arith) (omega arith), second_byte)
    where
      second_byte :
          get_or q3 (page_header_size + i * 2 + 2 + 1) 0 ≡ get_or p (page_header_size + i * 2 + 1) 0
      second_byte =
          ap (λ k. get_or q3 k 0) {x = page_header_size + i * 2 + 2 + 1}
            {y = page_header_size + i * 2 + 1 + 2} (omega arith)
          ∙ moved_byte (page_header_size + i * 2 + 1) (omega arith) (omega arith)

  pub q3-Reserved : Reserved h p q3 n idx nu
  q3-Reserved = record {
    same_length = simp length-splice;
    header = q3-p_header;
    lower_at =
        u16_from-splice_apart h q2 18 (to_ne_u16 h nu) 16 (inl (omega arith))
        ∙ u16_from-splice h q1 16 (lower_of h p + 2) (simp length-splice (omega arith))
            (omega arith)
        ∙ omega arith;
    upper_at = u16_from-splice h q2 18 nu (omega (arith, length-q2)) (omega arith);
    slots_before = λ i lt. u16_from-Agree h q3 p (page_header_size + i * 2) (λ j l r.
        q3-q1_after (suc j) j (omega arith) (omega arith)
        ∙ q1-p_before j (omega arith) (omega arith));
    slot_at =
        u16_from-Agree h q3 q1 from (λ j l r. q3-q1_after (suc j) j (omega arith) (omega arith))
        ∙ u16_from-splice h q0 from nu (simp length-splice (omega arith)) (omega arith);
    slots_after = moved_slot;
    rest = q3-p_rest;
    bytes = λ b.
        splice-AreBytes q2 18 _
          (splice-AreBytes q1 16 _
            (splice-AreBytes q0 from _
              (splice-AreBytes p (from + 2) _ b (window-AreBytes p from moved b))
              (to_ne_u16-AreBytes h nu))
            (to_ne_u16-AreBytes h (lower_of h p + 2)))
          (to_ne_u16-AreBytes h nu);
  }

-- On a page of `n` slots with room for an entry of `nbytes` aligned bytes and its pointer,
-- `reserve_slot` succeeds at every index up to `n`: the new entry's offset is `upper - nbytes`, slot
-- `idx` points at it, the pointers from `idx` on move up by one, and no byte behind them changes.
pub reserve_slot-Reserved :
    (h : Endian) (p : List ℕ) (n idx nbytes : ℕ)
    → HasSlots h p n
    → idx ≤ n
    → 0 < nbytes
    → nbytes ≡ align_entry nbytes
    → nbytes + 2 ≤ upper_of h p - lower_of h p
    → (q : List ℕ) × (reserve_slot h p idx nbytes ≡ ok (q, upper_of h p - nbytes))
      × Reserved h p q n idx (upper_of h p - nbytes)
reserve_slot-Reserved h p n idx nbytes v inside pos aligned room = (
  q3 h p n idx nbytes v inside pos room,
  reserve_slot-eq-ok h p n idx nbytes v inside pos room aligned,
  q3-Reserved h p n idx nbytes v inside pos room,
)
