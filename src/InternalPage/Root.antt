-- ===== src/InternalPage/Root.antt =====
-- The new root of a root split: `convert_root_to_internal` makes the old leaf an internal page of two
-- entries.
use db.Prelude.{
  ℕ, zero, suc, ◌+◌, ◌-◌, ◌^◌, ◌≤◌, ◌<◌, ◌≡◌, sym, ap, ap₂, ◌∙◌, inl, inr, List, [], length, window,
  splice, get_or, arith, length-splice, Agree, splice-Agree_after, window-eq_of_Agree,
}
use db.Outcomes.{ok, sub_usize-eq-ok}
use db.Words.{Endian, u16_from, u32_from, to_ne_u16, to_ne_u32}
use db.Words.Bytes.{AreBytes, nil-AreBytes, splice-AreBytes, to_ne_u16-AreBytes, to_ne_u32-AreBytes}
use db.Words.RoundTrip.{
  length-to_ne_u16, length-to_ne_u32, u16_from-splice, u16_from-splice_apart, u32_from-splice,
  u32_from-splice_apart, u32_from-Agree,
}
use db.Format.{binternal_header_size, max_psize, p_bleaf, p_binternal, page_header_size}
use db.Format.Align.{align_entry_bounds}
use db.PageBuf.{flags, set_flags}
use db.PageBuf.Writes.{
  read_u32-eq-ok, write_u32-eq-ok, set_linp-eq-ok, set_lower-eq-ok, set_upper-eq-ok,
}
use db.PageBuf.Slots.{slot_of, upper_of, lower_of}
use db.Writer.Entries.{internal_nbytes, write_binternal_inline, convert_root_to_internal}
use db.Writer.Entries.Written.{InternalWritten, write_binternal_inline-InternalWritten}
use db.InternalPage.{IsInternal, sep_size_at, sep_at, child_at}

-- Page `q`, made of page `p`, is an internal page of two entries: `l_pgno` for the keys below `key`,
-- `r_pgno` for the others.
pub record IsRoot (h : Endian) (p q : List ℕ) (l_pgno r_pgno : ℕ) (key : List ℕ) : Type 0 where
  pub internal : IsInternal h q 2
  pub same_length : length q ≡ length p
  pub bytes : AreBytes p → AreBytes key → AreBytes q
  pub l_sep : sep_at h q 0 ≡ []
  pub r_sep : sep_at h q 1 ≡ key
  pub l_child : child_at h q 0 ≡ l_pgno
  pub r_child : child_at h q 1 ≡ r_pgno

-- The entry of `key` and `child` stands at `off`.
record HasEntry (h : Endian) (q : List ℕ) (off : ℕ) (key : List ℕ) (child : ℕ) : Type 0 where
  pub ksize : u32_from h q off ≡ length key
  pub second : u32_from h q (off + 4) ≡ child
  pub eflags : get_or q (off + 8) 0 ≡ 0
  pub key_bytes : window q (off + binternal_header_size) (length key) ≡ key

-- Writes elsewhere leave it.
InternalWritten-HasEntry :
    (h : Endian) (p q q' : List ℕ) (off : ℕ) (key : List ℕ) (child : ℕ)
    → InternalWritten h p q off key child
    → Agree q' q off (off + binternal_header_size + length key)
    → length q' ≡ length q
    → off + binternal_header_size + length key ≤ length q
    → HasEntry h q' off key child
InternalWritten-HasEntry h p q q' off key child wr same len inside = record {
  ksize = u32_from-Agree h q' q off (λ j l r. same j l (omega arith)) ∙ wr.ksize;
  second = u32_from-Agree h q' q (off + 4) (λ j l r. same j (omega arith) (omega arith)) ∙ wr.dsize;
  eflags = same (off + 8) (omega arith) (omega arith) ∙ wr.eflags;
  key_bytes =
      window-eq_of_Agree q' q (off + binternal_header_size) (length key) (omega (arith, len)) inside
        (λ j l r. same j (omega arith) r)
      ∙ wr.key_bytes;
}

module _ (h : Endian) (p key : List ℕ) (l_pgno r_pgno : ℕ) (small : length p ≤ max_psize)
    (leaf_flags : u32_from h p 12 ≡ p_bleaf)
    (room : page_header_size + 4 + internal_nbytes (length key) + internal_nbytes 0
      ≤ length p) where
  abbrev upper0 : ℕ
  upper0 = length p - internal_nbytes 0

  abbrev upper1 : ℕ
  upper1 = upper0 - internal_nbytes (length key)

  low0 : upper0 + binternal_header_size ≤ length p
  low0 = omega (arith, room, (align_entry_bounds (binternal_header_size + 0)).0)

  low1 : upper1 + binternal_header_size + length key ≤ upper0
  low1 = omega (arith, room, (align_entry_bounds (binternal_header_size + length key)).0)

  past : page_header_size + 4 ≤ upper1
  past = omega (arith, room)

  module _ (p0 p1 : List ℕ) (wr0 : InternalWritten h p p0 upper0 [] l_pgno)
      (wr1 : InternalWritten h p0 p1 upper1 key r_pgno) where
    abbrev p2 : List ℕ
    p2 = splice p1 page_header_size (to_ne_u16 h upper0)

    abbrev p3 : List ℕ
    p3 = splice p2 (page_header_size + 2) (to_ne_u16 h upper1)

    abbrev p4 : List ℕ
    p4 = splice p3 16 (to_ne_u16 h (page_header_size + 4))

    abbrev p5 : List ℕ
    p5 = splice p4 18 (to_ne_u16 h upper1)

    abbrev q : List ℕ
    q = splice p5 12 (to_ne_u32 h p_binternal)

    len1 : length p1 ≡ length p
    len1 = wr1.same_length ∙ wr0.same_length

    len2 : length p2 ≡ length p
    len2 = length-splice p1 page_header_size (to_ne_u16 h upper0) ∙ len1

    len3 : length p3 ≡ length p
    len3 = length-splice p2 (page_header_size + 2) (to_ne_u16 h upper1) ∙ len2

    len4 : length p4 ≡ length p
    len4 = length-splice p3 16 (to_ne_u16 h (page_header_size + 4)) ∙ len3

    len5 : length p5 ≡ length p
    len5 = length-splice p4 18 (to_ne_u16 h upper1) ∙ len4

    len : length q ≡ length p
    len = length-splice p5 12 (to_ne_u32 h p_binternal) ∙ len5

    len16 : (v : ℕ) → length (to_ne_u16 h v) ≡ 2
    len16 = length-to_ne_u16 h

    -- Behind the two pointers the header writes show nothing.
    rest : (hi : ℕ) → Agree q p1 (page_header_size + 4) hi
    rest hi j l r =
        splice-Agree_after p5 12 (to_ne_u32 h p_binternal) (page_header_size + 4) hi
          (omega (arith, length-to_ne_u32 h p_binternal)) j l r
        ∙ splice-Agree_after p4 18 (to_ne_u16 h upper1) (page_header_size + 4) hi
            (omega (arith, len16 upper1)) j l r
        ∙ splice-Agree_after p3 16 (to_ne_u16 h (page_header_size + 4)) (page_header_size + 4) hi
            (omega (arith, len16 (page_header_size + 4))) j l r
        ∙ splice-Agree_after p2 (page_header_size + 2) (to_ne_u16 h upper1) (page_header_size + 4)
            hi (omega (arith, len16 upper1)) j l r
        ∙ splice-Agree_after p1 page_header_size (to_ne_u16 h upper0) (page_header_size + 4) hi
            (omega (arith, len16 upper0)) j l r

    l_entry : HasEntry h q upper0 [] l_pgno
    l_entry =
        InternalWritten-HasEntry h p p0 q upper0 [] l_pgno wr0
          (λ j l r.
            rest (suc j) j (omega (arith, past, low1)) (omega arith)
            ∙ wr1.after (suc j) j (omega (arith, low1)) (omega arith))
          (len ∙ sym wr0.same_length) (omega (arith, low0, wr0.same_length))

    r_entry : HasEntry h q upper1 key r_pgno
    r_entry =
        InternalWritten-HasEntry h p0 p1 q upper1 key r_pgno wr1
          (λ j l r. rest (suc j) j (omega (arith, past)) (omega arith)) (len ∙ sym len1)
          (omega (arith, low0, low1, len1))

    kept_flags : u32_from h p5 12 ≡ p_bleaf
    kept_flags =
        u32_from-splice_apart h p4 18 (to_ne_u16 h upper1) 12 (inl (omega arith))
        ∙ u32_from-splice_apart h p3 16 (to_ne_u16 h (page_header_size + 4)) 12 (inl (omega arith))
        ∙ u32_from-splice_apart h p2 (page_header_size + 2) (to_ne_u16 h upper1) 12
            (inl (omega arith))
        ∙ u32_from-splice_apart h p1 page_header_size (to_ne_u16 h upper0) 12 (inl (omega arith))
        ∙ u32_from-Agree h p1 p0 12 (λ j l r. wr1.before 0 j (omega arith) (omega (arith, past)))
        ∙ u32_from-Agree h p0 p 12 (λ j l r. wr0.before 0 j (omega arith) (omega (arith, past)))
        ∙ leaf_flags

    q_lower : lower_of h q ≡ page_header_size + 4
    q_lower =
        u16_from-splice_after 16 (omega arith)
        ∙ u16_from-splice_apart h p4 18 (to_ne_u16 h upper1) 16 (inl (omega arith))
        ∙ u16_from-splice h p3 16 (page_header_size + 4) (omega (arith, len3, past, low0, low1))
            (omega arith)
      where
        u16_from-splice_after : (at : ℕ) → 16 ≤ at → u16_from h q at ≡ u16_from h p5 at
        u16_from-splice_after at le =
            u16_from-splice_apart h p5 12 (to_ne_u32 h p_binternal) at
              (inr (omega (arith, length-to_ne_u32 h p_binternal)))

    q_upper : upper_of h q ≡ upper1
    q_upper =
        u16_from-splice_apart h p5 12 (to_ne_u32 h p_binternal) 18
          (inr (omega (arith, length-to_ne_u32 h p_binternal)))
        ∙ u16_from-splice h p4 18 upper1 (omega (arith, len4, past, low0, low1))
            (omega (arith, small))

    q_slot : (off : ℕ) → page_header_size ≤ off → u16_from h q off ≡ u16_from h p3 off
    q_slot off le =
        u16_from-splice_apart h p5 12 (to_ne_u32 h p_binternal) off
          (inr (omega (arith, length-to_ne_u32 h p_binternal)))
        ∙ u16_from-splice_apart h p4 18 (to_ne_u16 h upper1) off (inr (omega (arith, len16 upper1)))
        ∙ u16_from-splice_apart h p3 16 (to_ne_u16 h (page_header_size + 4)) off
            (inr (omega (arith, len16 (page_header_size + 4))))

    l_slot : slot_of h q 0 ≡ upper0
    l_slot =
        q_slot page_header_size (omega arith)
        ∙ u16_from-splice_apart h p2 (page_header_size + 2) (to_ne_u16 h upper1) page_header_size
            (inl (omega arith))
        ∙ u16_from-splice h p1 page_header_size upper0 (omega (arith, len1, past, low0, low1))
            (omega (arith, small))

    r_slot : slot_of h q 1 ≡ upper1
    r_slot =
        q_slot (page_header_size + 2) (omega arith)
        ∙ u16_from-splice h p2 (page_header_size + 2) upper1 (omega (arith, len2, past, low0, low1))
            (omega (arith, small))

    l_size : sep_size_at h q 0 ≡ 0
    l_size = ap (u32_from h q) l_slot ∙ l_entry.ksize

    r_size : sep_size_at h q 1 ≡ length key
    r_size = ap (u32_from h q) r_slot ∙ r_entry.ksize

    entry_above : (i : ℕ) → i < 2 → upper_of h q ≤ slot_of h q i
    entry_above zero lt = omega (arith, q_upper, l_slot)
    entry_above (suc zero) lt = omega (arith, q_upper, r_slot)
    entry_above (suc (suc i)) lt = absurd (omega arith)

    entry_below : (i : ℕ) → i < 2 → slot_of h q i + internal_nbytes (sep_size_at h q i) ≤ length q
    entry_below zero lt = omega (arith, l_slot, len, room, ap internal_nbytes l_size)
    entry_below (suc zero) lt = omega (arith, r_slot, len, room, ap internal_nbytes r_size)
    entry_below (suc (suc i)) lt = absurd (omega arith)

    entry_flags : (i : ℕ) → i < 2 → get_or q (slot_of h q i + 8) 0 ≡ 0
    entry_flags zero lt = ap (λ o. get_or q (o + 8) 0) l_slot ∙ l_entry.eflags
    entry_flags (suc zero) lt = ap (λ o. get_or q (o + 8) 0) r_slot ∙ r_entry.eflags
    entry_flags (suc (suc i)) lt = absurd (omega arith)

    q-IsRoot : IsRoot h p q l_pgno r_pgno key
    q-IsRoot = record {
      internal = record {
        slots = record {
          header_in = omega (arith, len, past, low0, low1);
          small = omega (arith, len, small);
          lower_at = q_lower;
          free = omega (arith, q_lower, q_upper, past);
          upper_in = omega (arith, q_upper, len);
        };
        internal_flags =
            u32_from-splice h p5 12 p_binternal (omega (arith, len5, past, low0, low1))
              (omega arith);
        entry_low = entry_above;
        entry_high = entry_below;
        entry_inline = entry_flags;
      };
      same_length = len;
      bytes = λ b kb.
          splice-AreBytes p5 12 _
            (splice-AreBytes p4 18 _
              (splice-AreBytes p3 16 _
                (splice-AreBytes p2 (page_header_size + 2) _
                  (splice-AreBytes p1 page_header_size _
                    (wr1.bytes (wr0.bytes b nil-AreBytes nil-AreBytes) kb nil-AreBytes)
                    (to_ne_u16-AreBytes h upper0))
                  (to_ne_u16-AreBytes h upper1))
                (to_ne_u16-AreBytes h (page_header_size + 4)))
              (to_ne_u16-AreBytes h upper1))
            (to_ne_u32-AreBytes h p_binternal);
      l_sep = ap₂ (λ o k. window q (o + binternal_header_size) k) l_slot l_size ∙ l_entry.key_bytes;
      r_sep = ap₂ (λ o k. window q (o + binternal_header_size) k) r_slot r_size ∙ r_entry.key_bytes;
      l_child = ap (λ o. u32_from h q (o + 4)) l_slot ∙ l_entry.second;
      r_child = ap (λ o. u32_from h q (o + 4)) r_slot ∙ r_entry.second;
    }

    convert-eq-ok :
        write_binternal_inline h p upper0 0 [] l_pgno ≡ ok p0
        → write_binternal_inline h p0 upper1 (length key) key r_pgno ≡ ok p1
        → convert_root_to_internal h (length p) l_pgno r_pgno key p ≡ ok q
    unfolding convert_root_to_internal flags set_flags
    convert-eq-ok first second = rw (
      sub_usize-eq-ok (length p) (internal_nbytes 0) (omega (arith, room)),
      sub_usize-eq-ok upper0 (internal_nbytes (length key)) (omega (arith, room)),
      first,
      second,
      set_linp-eq-ok h p1 upper0 0 (omega (arith, len1, past, low0, low1))
          (omega (arith, small, low0)),
      set_linp-eq-ok h p2 upper1 1 (omega (arith, len2, past, low0, low1))
          (omega (arith, small, low0, low1)),
      set_lower-eq-ok h p3 (page_header_size + 4) (omega (arith, len3, past, low0, low1))
          (omega arith),
      set_upper-eq-ok h p4 upper1 (omega (arith, len4, past, low0, low1)) (omega (arith, small)),
      read_u32-eq-ok h p5 12 (omega (arith, len5, past, low0, low1)),
      kept_flags,
      write_u32-eq-ok h p5 12 p_binternal (omega (arith, len5, past, low0, low1)),
    )

-- For a leaf page with room for the two entries, of the page size, and two page numbers:
-- `convert_root_to_internal` succeeds, and the page is then an internal page of two entries: the
-- empty separator with the left page, and the key with the right one.
pub convert_root_to_internal-IsRoot :
    (h : Endian) (p key : List ℕ) (psize l_pgno r_pgno : ℕ)
    → length p ≡ psize
    → psize ≤ max_psize
    → u32_from h p 12 ≡ p_bleaf
    → page_header_size + 4 + internal_nbytes (length key) + internal_nbytes 0 ≤ psize
    → l_pgno < 2 ^ 32
    → r_pgno < 2 ^ 32
    → (q : List ℕ) × (convert_root_to_internal h psize l_pgno r_pgno key p ≡ ok q)
      × IsRoot h p q l_pgno r_pgno key
convert_root_to_internal-IsRoot h p key psize l_pgno r_pgno size small leaf_flags room l_word
      r_word =
    let small' : length p ≤ max_psize = omega (arith, size) in
    let room' : page_header_size + 4 + internal_nbytes (length key) + internal_nbytes 0 ≤ length p =
      omega (arith, size) in
    let up0 = upper0 h p key l_pgno r_pgno small' leaf_flags room' in
    let up1 = upper1 h p key l_pgno r_pgno small' leaf_flags room' in
    let l_in = low0 h p key l_pgno r_pgno small' leaf_flags room' in
    let r_in = low1 h p key l_pgno r_pgno small' leaf_flags room' in
    let (p0, first, wr0) =
      write_binternal_inline-InternalWritten h p up0 [] l_pgno small' (omega (arith, l_in))
        l_word in
    let (p1, second, wr1) =
      write_binternal_inline-InternalWritten h p0 up1 key r_pgno (omega (arith, wr0.same_length))
        (omega (arith, l_in, r_in, wr0.same_length)) r_word in
    (
      q h p key l_pgno r_pgno small' leaf_flags room' p0 p1 wr0 wr1,
      ap (λ s. convert_root_to_internal h s l_pgno r_pgno key p) (sym size)
          ∙ convert-eq-ok h p key l_pgno r_pgno small' leaf_flags room' p0 p1 wr0 wr1 first second,
      q-IsRoot h p key l_pgno r_pgno small' leaf_flags room' p0 p1 wr0 wr1,
    )
