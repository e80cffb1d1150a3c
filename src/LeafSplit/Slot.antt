-- ===== src/LeafSplit/Slot.antt =====
-- `write_entry_at_slot` on a leaf page that is being filled.
use db.Prelude.{
  ◌≢◌, ◌⊎◌, inl, inr, ℕ, ◌+◌, ◌-◌, ◌*◌, ◌≤◌, ◌<◌, ◌≡◌, sym, ap, subst, ◌∙◌, List, length, splice,
  arith, length-splice, Agree, splice-Agree_before, splice-Agree_after, window-eq_of_Agree,
}
use native.Mathlib.Decide.{ℕ_discrete, dec_lt}
use db.Outcomes.{ok, sub_usize-eq-ok}
use db.Words.{Endian, to_ne_u16}
use db.Words.Bytes.{AreBytes, splice-AreBytes, to_ne_u16-AreBytes}
use db.Words.RoundTrip.{
  length-to_ne_u16, u16_from-splice, u16_from-splice_apart, u16_from-Agree, u32_from-Agree,
}
use db.Format.{bleaf_header_size, page_header_size}
use db.Format.Align.{align_entry_bounds}
use db.PageBuf.{upper}
use db.PageBuf.Writes.{read_u16-eq-ok, set_upper-eq-ok, set_linp-eq-ok}
use db.PageBuf.Slots.{slot_of, upper_of}
use db.Writer.Entries.{leaf_nbytes, write_entry_at_slot}
use db.Writer.Entries.Written.{LeafWritten, write_bleaf_inline-LeafWritten}
use db.LeafSplit.{Holds, Filled}

-- An entry is still there on a page that agrees with the old one behind the old `upper`.
pub Holds-Agree :
    (h : Endian) (p q : List ℕ) (off : ℕ) (key val : List ℕ)
    → length q ≡ length p
    → upper_of h q ≤ upper_of h p
    → Agree q p (upper_of h p) (length p)
    → Holds h p off key val
    → Holds h q off key val
Holds-Agree h p q off key val len up same v =
    let bounds = (align_entry_bounds (bleaf_header_size + length key + length val)).0 in
    record {
      low = omega (arith, v.low, up);
      high = omega (arith, v.high, len);
      ksize =
          u32_from-Agree h q p off
            (λ j l r. same j (omega (arith, v.low)) (omega (arith, v.high, bounds)))
          ∙ v.ksize;
      dsize =
          u32_from-Agree h q p (off + 4)
            (λ j l r. same j (omega (arith, v.low)) (omega (arith, v.high, bounds)))
          ∙ v.dsize;
      eflags = same (off + 8) (omega (arith, v.low)) (omega (arith, v.high, bounds)) ∙ v.eflags;
      key_bytes =
          window-eq_of_Agree q p (off + bleaf_header_size) (length key)
            (omega (arith, len, v.high, bounds)) (omega (arith, v.high, bounds))
            (λ j l r. same j (omega (arith, v.low)) (omega (arith, v.high, bounds)))
          ∙ v.key_bytes;
      val_bytes =
          window-eq_of_Agree q p (off + bleaf_header_size + length key) (length val)
            (omega (arith, len, v.high, bounds)) (omega (arith, v.high, bounds))
            (λ j l r. same j (omega (arith, v.low)) (omega (arith, v.high, bounds)))
          ∙ v.val_bytes;
    }

module _ (h : Endian) (p : List ℕ) (top m hole : ℕ) (key val : ℕ → List ℕ) (slot : ℕ)
    (v : Filled h p top m hole key val) (inside : slot < top)
    (room : page_header_size + top * 2 + leaf_nbytes (length (key slot)) (length (val slot))
      ≤ upper_of h p) where
  abbrev nb : ℕ
  nb = leaf_nbytes (length (key slot)) (length (val slot))

  abbrev nu : ℕ
  nu = upper_of h p - nb

  abbrev r0 : List ℕ
  r0 = splice p 18 (to_ne_u16 h nu)

  abbrev r1 : List ℕ
  r1 = splice r0 (page_header_size + slot * 2) (to_ne_u16 h nu)

  nb_low : bleaf_header_size + length (key slot) + length (val slot) ≤ nb
  nb_low = (align_entry_bounds (bleaf_header_size + length (key slot) + length (val slot))).0

  length-r0 : length r0 ≡ length p
  length-r0 = length-splice p 18 (to_ne_u16 h nu)

  length-r1 : length r1 ≡ length p
  length-r1 = length-splice r0 (page_header_size + slot * 2) (to_ne_u16 h nu) ∙ length-r0

  abbrev two : length (to_ne_u16 h nu) ≡ 2
  two = length-to_ne_u16 h nu

  module _ (q : List ℕ) (wr : LeafWritten h r1 q nu (key slot) (val slot)) where
    length-q : length q ≡ length p
    length-q = wr.same_length ∙ length-r1

    -- Between the header and the new entry only the pointer changes.
    q-r1 : (lo hi : ℕ) → hi ≤ nu → Agree q r1 lo hi
    q-r1 lo hi le j l r = wr.before lo j l (omega arith)

    q-p_low : Agree q p 0 18
    q-p_low j l r =
        q-r1 0 18 (omega (arith, room)) j l r
        ∙ splice-Agree_before r0 (page_header_size + slot * 2) (to_ne_u16 h nu) 0 j l (omega arith)
        ∙ splice-Agree_before p 18 (to_ne_u16 h nu) 0 j l r

    q-p_high : Agree q p (upper_of h p) (length p)
    q-p_high j l r =
        wr.after (length p) j (omega (arith, nb_low, room)) r
        ∙ splice-Agree_after r0 (page_header_size + slot * 2) (to_ne_u16 h nu) (upper_of h p)
            (length p) (omega (arith, two, room)) j l r
        ∙ splice-Agree_after p 18 (to_ne_u16 h nu) (upper_of h p) (length p)
            (omega (arith, two, room)) j l r

    upper_q : upper_of h q ≡ nu
    upper_q =
        u16_from-Agree h q r1 18
          (λ j l r. q-r1 0 20 (omega (arith, room)) j (omega arith) (omega arith))
        ∙ u16_from-splice_apart h r0 (page_header_size + slot * 2) (to_ne_u16 h nu) 18
            (inl (omega arith))
        ∙ u16_from-splice h p 18 nu (omega (arith, v.upper_in, room))
            (omega (arith, v.upper_in, v.small, room, nb_low))

    slot_r1 : (i : ℕ) → i < top → slot_of h q i ≡ slot_of h r1 i
    slot_r1 i lt =
        u16_from-Agree h q r1 (page_header_size + i * 2)
          (λ j l r. q-r1 0 nu (omega arith) j (omega arith) (omega (arith, room)))

    slot_here : slot_of h q slot ≡ nu
    slot_here =
        slot_r1 slot inside
        ∙ u16_from-splice h r0 (page_header_size + slot * 2) nu
            (omega (arith, length-r0, v.upper_in, room))
            (omega (arith, v.upper_in, v.small, room, nb_low))

    slot_other : (i : ℕ) → i < top → i ≢ slot → slot_of h q i ≡ slot_of h p i
    slot_other i lt ne =
        slot_r1 i lt
        ∙ u16_from-splice_apart h r0 (page_header_size + slot * 2) (to_ne_u16 h nu)
            (page_header_size + i * 2) apart
        ∙ u16_from-splice_apart h p 18 (to_ne_u16 h nu) (page_header_size + i * 2)
            (inr (omega (arith, two)))
      where
        apart :
            (page_header_size + i * 2 + 2 ≤ page_header_size + slot * 2)
            ⊎ (page_header_size + slot * 2 + length (to_ne_u16 h nu) ≤ page_header_size + i * 2)
        apart = elim (dec_lt i slot) [
          | yes b ↦ inl (omega arith)
          | no a ↦ inr (ground (arith, two, ne))
        ]

    new_Holds : Holds h q nu (key slot) (val slot)
    new_Holds = record {
      low = omega (arith, upper_q);
      high = omega (arith, length-q, room, v.upper_in);
      ksize = wr.ksize;
      dsize = wr.dsize;
      eflags = wr.eflags;
      key_bytes = wr.key_bytes;
      val_bytes = wr.val_bytes;
    }

    old_Holds : (i : ℕ) → i < m → i ≢ hole → Holds h q (slot_of h p i) (key i) (val i)
    old_Holds i lt ne =
        Holds-Agree h p q (slot_of h p i) (key i) (val i) length-q (omega (arith, upper_q)) q-p_high
          (v.entry i lt ne)

    -- Any `m'` and `hole'` that leave out no more than the old ones and `slot`.
    q-Filled :
        (m' hole' : ℕ)
        → m ≤ top
        → m' ≤ top
        → ((i : ℕ) → i < m' → i ≢ hole' → i ≢ slot → (i < m) × (i ≢ hole))
        → Filled h q top m' hole' key val
    q-Filled m' hole' le le' old = record {
      header_in = omega (arith, upper_q, room);
      small = omega (arith, length-q, v.small);
      upper_in = omega (arith, length-q, upper_q, v.upper_in);
      leaf_flags =
          u32_from-Agree h q p 12 (λ j l r. q-p_low j (omega arith) (omega arith)) ∙ v.leaf_flags;
      entry = λ i lt ne. elim (ℕ_discrete i slot) [
        | yes here ↦
            subst (λ k. Holds h q (slot_of h q k) (key k) (val k)) (sym here)
              (subst (λ o. Holds h q o (key slot) (val slot)) (sym slot_here) new_Holds)
        | no off ↦
            let (a, b) = old i lt ne off in
            subst (λ o. Holds h q o (key i) (val i)) (sym (slot_other i (omega arith) off))
              (old_Holds i a b)
      ];
      apart = λ i j li lj ni nj ne. elim (ℕ_discrete i slot) [
        | yes here ↦
            let off : j ≢ slot = λ e. ne (here ∙ sym e) in
            let (a, b) = old j lj nj off in
            let at : slot_of h q i ≡ nu = ap (slot_of h q) here ∙ slot_here in
            let size : leaf_nbytes (length (key i)) (length (val i)) ≡ nb =
              ap (λ k. leaf_nbytes (length (key k)) (length (val k))) here in
            inl (omega (arith, at, size, room, slot_other j (omega arith) off, (v.entry j a b).low))
        | no off ↦ elim (ℕ_discrete j slot) [
          | yes here ↦
              let (a, b) = old i li ni off in
              let at : slot_of h q j ≡ nu = ap (slot_of h q) here ∙ slot_here in
              let size : leaf_nbytes (length (key j)) (length (val j)) ≡ nb =
                ap (λ k. leaf_nbytes (length (key k)) (length (val k))) here in
              inr
                (omega (arith, at, size, room, slot_other i (omega arith) off, (v.entry i a b).low))
          | no off' ↦
              let (a, b) = old i li ni off in
              let (c, d) = old j lj nj off' in
              let ei = slot_other i (omega arith) off in
              let ej = slot_other j (omega arith) off' in
              elim (v.apart i j a c b d ne) [
                | inl x ↦ inl (omega (arith, ei, ej))
                | inr x ↦ inr (omega (arith, ei, ej))
              ]
        ]
      ];
    }

-- `write_entry_at_slot` at a slot of a page that is being filled, with room for the entry: the page
-- is filled with the entry besides.
pub write_entry_at_slot-Filled :
    (h : Endian) (p : List ℕ) (top m hole : ℕ) (key val : ℕ → List ℕ) (slot m' hole' : ℕ)
    → Filled h p top m hole key val
    → slot < top
    → m ≤ top
    → m' ≤ top
    → page_header_size + top * 2 + leaf_nbytes (length (key slot)) (length (val slot))
      ≤ upper_of h p
    → ((i : ℕ) → i < m' → i ≢ hole' → i ≢ slot → (i < m) × (i ≢ hole))
    → (q : List ℕ) × (write_entry_at_slot h slot (key slot) (val slot) p ≡ ok q)
      × Filled h q top m' hole' key val
      × (length q ≡ length p)
      × (upper_of h q ≡ upper_of h p - leaf_nbytes (length (key slot)) (length (val slot)))
      × Agree q p 0 18
      × (AreBytes p → AreBytes (key slot) → AreBytes (val slot) → AreBytes q)
unfolding write_entry_at_slot upper
write_entry_at_slot-Filled h p top m hole key val slot m' hole' v inside le le' room old =
    let nu = upper_of h p - leaf_nbytes (length (key slot)) (length (val slot)) in
    let bounds = nb_low h p top m hole key val slot v inside room in
    let (q, written, wr) =
      write_bleaf_inline-LeafWritten h (r1 h p top m hole key val slot v inside room) nu (key slot)
        (val slot) (omega (arith, length-r1 h p top m hole key val slot v inside room, v.small))
        (omega
          (arith, length-r1 h p top m hole key val slot v inside room, v.upper_in, bounds, room)) in
    (
      q,
      rw (
        read_u16-eq-ok h p 18 (omega (arith, v.upper_in, v.header_in)),
        sub_usize-eq-ok (upper_of h p) (leaf_nbytes (length (key slot)) (length (val slot)))
            (omega arith),
        set_upper-eq-ok h p nu (omega (arith, v.upper_in, v.header_in))
            (omega (arith, v.upper_in, v.small)),
        set_linp-eq-ok h (r0 h p top m hole key val slot v inside room) nu slot
            (omega
              (arith, length-r0 h p top m hole key val slot v inside room, v.upper_in, v.header_in))
            (omega (arith, v.upper_in, v.small, bounds, room)),
        written,
      ),
      q-Filled h p top m hole key val slot v inside room q wr m' hole' le le' old,
      length-q h p top m hole key val slot v inside room q wr,
      upper_q h p top m hole key val slot v inside room q wr,
      q-p_low h p top m hole key val slot v inside room q wr,
      λ b kb vb.
          wr.bytes
            (splice-AreBytes (r0 h p top m hole key val slot v inside room)
              (page_header_size + slot * 2) (to_ne_u16 h nu)
              (splice-AreBytes p 18 (to_ne_u16 h nu) b (to_ne_u16-AreBytes h nu))
              (to_ne_u16-AreBytes h nu))
            kb vb,
    )
