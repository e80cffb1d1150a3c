-- ===== src/Writer/Entries/Pointers.antt =====
-- The loops of `delete_leaf_entry` over the pointers of a page.
use db.Prelude.{
  ℕ, zero, suc, ◌+◌, ◌*◌, ◌≤◌, ◌<◌, ◌≡◌, refl, sym, ap, ◌∙◌, List, length, splice, arith, ltb,
  lt→ltb, le→ltb, if◌then◌else◌, Agree, splice-Agree_before, splice-Agree_after, length-splice,
}
use native.Mathlib.Decide.{ℕ_discrete, dec_lt}
use db.Outcomes.{ok}
use db.Words.{Endian, to_ne_u16}
use db.Words.Bytes.{AreBytes, splice-AreBytes, to_ne_u16-AreBytes}
use db.Words.RoundTrip.{length-to_ne_u16, u16_from-splice, u16_from-Agree}
use db.Format.{max_psize, page_header_size}
use db.PageBuf.{linp, set_linp}
use db.PageBuf.Writes.{read_u16-eq-ok, set_linp-eq-ok}
use db.PageBuf.Slots.{slot_of}
use db.Writer.Entries.{shift_before, shift_after}

-- Page `q` is page `p` with the pointers of the `count` slots from `i` on set to `f`.
pub record Pointed (h : Endian) (p q : List ℕ) (i count : ℕ) (f : ℕ → ℕ) : Type 0 where
  pub same_length : length q ≡ length p
  pub low : (lo : ℕ) → Agree q p lo (page_header_size + i * 2)
  pub high : (hi : ℕ) → Agree q p (page_header_size + (i + count) * 2) hi
  pub at : (k : ℕ) → i ≤ k → k < i + count → slot_of h q k ≡ f k
  pub bytes : AreBytes p → AreBytes q

-- the pointer `v` after the entries in front of `offset` have moved up by `nbytes`
abbrev pub adjusted : ℕ → ℕ → ℕ → ℕ
adjusted offset nbytes v = if ltb v offset then v + nbytes else v

module _ (h : Endian) where
  Pointed-refl : (p : List ℕ) (i : ℕ) (f : ℕ → ℕ) → Pointed h p p i 0 f
  Pointed-refl p i f = record {
    same_length = refl;
    low = λ lo j l r. refl;
    high = λ hi j l r. refl;
    at = λ k l r. absurd (omega arith);
    bytes = λ b. b;
  }

  pub linp-eq-ok :
      (p : List ℕ) (i : ℕ)
      → page_header_size + i * 2 + 2 ≤ length p
      → linp h p i ≡ ok (slot_of h p i)
  unfolding linp
  linp-eq-ok p i inside = read_u16-eq-ok h p (page_header_size + i * 2) inside

  set_linp-Pointed :
      (p : List ℕ) (i v : ℕ) (f : ℕ → ℕ)
      → page_header_size + i * 2 + 2 ≤ length p
      → v < max_psize
      → v ≡ f i
      → (q : List ℕ) × (set_linp h p i v ≡ ok q) × Pointed h p q i 1 f
  set_linp-Pointed p i v f inside small e = (
    splice p (page_header_size + i * 2) (to_ne_u16 h v),
    set_linp-eq-ok h p v i inside small,
    record {
      same_length = length-splice p (page_header_size + i * 2) (to_ne_u16 h v);
      low = λ lo. splice-Agree_before p (page_header_size + i * 2) (to_ne_u16 h v) lo;
      high = λ hi.
          splice-Agree_after p (page_header_size + i * 2) (to_ne_u16 h v)
            (page_header_size + (i + 1) * 2) hi (omega (arith, length-to_ne_u16 h v));
      at = λ k l r.
          let here : k ≡ i = omega arith in
          ap (slot_of h (splice p (page_header_size + i * 2) (to_ne_u16 h v))) here
          ∙ u16_from-splice h p (page_header_size + i * 2) v inside (omega arith)
          ∙ e
          ∙ ap f (sym here);
      bytes = λ b.
          splice-AreBytes p (page_header_size + i * 2) (to_ne_u16 h v) b (to_ne_u16-AreBytes h v);
    },
  )

  pub slot-high :
      (p q : List ℕ) (i count k : ℕ) (f : ℕ → ℕ)
      → Pointed h p q i count f
      → i + count ≤ k
      → slot_of h q k ≡ slot_of h p k
  slot-high p q i count k f s le =
      u16_from-Agree h q p (page_header_size + k * 2)
        (λ j l r. s.high (suc j) j (omega arith) (omega arith))

  pub slot-low :
      (p q : List ℕ) (i count k : ℕ) (f : ℕ → ℕ)
      → Pointed h p q i count f
      → k < i
      → slot_of h q k ≡ slot_of h p k
  slot-low p q i count k f s lt =
      u16_from-Agree h q p (page_header_size + k * 2)
        (λ j l r. s.low 0 j (omega arith) (omega arith))

  Pointed-suc :
      (p r q : List ℕ) (i count : ℕ) (f : ℕ → ℕ)
      → Pointed h p r i 1 f
      → Pointed h r q (i + 1) count f
      → Pointed h p q i (suc count) f
  Pointed-suc p r q i count f one more = record {
    same_length = more.same_length ∙ one.same_length;
    low = λ lo j l s. more.low lo j l (omega arith) ∙ one.low lo j l s;
    high = λ hi j l s. more.high hi j (omega arith) s ∙ one.high hi j (omega arith) s;
    at = λ k l s. elim (ℕ_discrete k i) [
      | yes e ↦
          ap (slot_of h q) e
          ∙ slot-low r q (i + 1) count i f more (omega arith)
          ∙ one.at i (omega arith) (omega arith)
          ∙ ap f (sym e)
      | no d ↦ more.at k (omega arith) (omega arith)
    ];
    bytes = λ b. more.bytes (one.bytes b);
  }

  Pointed-eq :
      (p q : List ℕ) (i count : ℕ) (f g : ℕ → ℕ)
      → ((k : ℕ) → i ≤ k → f k ≡ g k)
      → Pointed h p q i count f
      → Pointed h p q i count g
  Pointed-eq p q i count f g e s = record {
    same_length = s.same_length;
    low = s.low;
    high = s.high;
    at = λ k l r. s.at k l r ∙ e k l;
    bytes = s.bytes;
  }

  module _ (offset nbytes : ℕ) where
    abbrev adj : ℕ → ℕ
    adj = adjusted offset nbytes

    -- one round of the first loop
    adjust_one :
        (p : List ℕ) (i : ℕ)
        → page_header_size + i * 2 + 2 ≤ length p
        → adj (slot_of h p i) < max_psize
        → (q : List ℕ) × ((if ltb (slot_of h p i) offset
              then set_linp h p i (slot_of h p i + nbytes)
              else ok p)
            ≡ ok q)
          × Pointed h p q i 1 (λ k. adj (slot_of h p k))
    adjust_one p i inside small = elim (dec_lt (slot_of h p i) offset) [
      | yes lt ↦
          let e = lt→ltb (slot_of h p i) offset lt in
          let (q, set, s) =
            set_linp-Pointed p i (slot_of h p i + nbytes) (λ k. adj (slot_of h p k)) inside
              (rw e at small) (rw e refl) in
          (q, rw e set, s)
      | no ge ↦
          let e = le→ltb (slot_of h p i) offset (omega arith) in
          (
            p,
            rw e refl,
            record {
              same_length = refl;
              low = λ lo j l r. refl;
              high = λ hi j l r. refl;
              at = λ k l r. let here : k ≡ i = omega arith in rw (here, e) refl;
              bytes = λ b. b;
            },
          )
    ]

    -- The first loop adjusts the pointers of its slots.
    pub shift_before-Pointed :
        (count i : ℕ) (p : List ℕ)
        → page_header_size + (i + count) * 2 ≤ length p
        → ((k : ℕ) → i ≤ k → k < i + count → adj (slot_of h p k) < max_psize)
        → (q : List ℕ) × (shift_before h offset nbytes count i p ≡ ok q)
          × Pointed h p q i count (λ k. adj (slot_of h p k))
    unfolding shift_before
    shift_before-Pointed zero i p inside small =
        (p, refl, Pointed-refl p i (λ k. adj (slot_of h p k)))
    shift_before-Pointed (suc count) i p inside small =
        let (r, one_ok, one) = adjust_one p i (omega arith) (small i (omega arith) (omega arith)) in
        let same : (k : ℕ) → i + 1 ≤ k → slot_of h r k ≡ slot_of h p k =
          λ k le. slot-high p r i 1 k (λ k. adj (slot_of h p k)) one (omega arith) in
        let (q, more_ok, more) =
          shift_before-Pointed count (i + 1) r (omega (arith, one.same_length))
            (λ k l s. rw (same k l) (small k (omega arith) (omega arith))) in
        (
          q,
          rw (linp-eq-ok p i (omega arith), one_ok, more_ok) refl,
          Pointed-suc p r q i count (λ k. adj (slot_of h p k)) one
              (Pointed-eq r q (i + 1) count (λ k. adj (slot_of h r k)) (λ k. adj (slot_of h p k))
                (λ k l. ap adj (same k l)) more),
        )

    -- The second loop sets each slot to the adjusted pointer of the slot behind it.
    pub shift_after-Pointed :
        (count i : ℕ) (p : List ℕ)
        → page_header_size + (i + count + 1) * 2 ≤ length p
        → ((k : ℕ) → i ≤ k → k < i + count → adj (slot_of h p (k + 1)) < max_psize)
        → (q : List ℕ) × (shift_after h offset nbytes count i p ≡ ok q)
          × Pointed h p q i count (λ k. adj (slot_of h p (k + 1)))
    unfolding shift_after
    shift_after-Pointed zero i p inside small =
        (p, refl, Pointed-refl p i (λ k. adj (slot_of h p (k + 1))))
    shift_after-Pointed (suc count) i p inside small =
        let (r, one_ok, one) =
          set_linp-Pointed p i (adj (slot_of h p (i + 1))) (λ k. adj (slot_of h p (k + 1)))
            (omega arith) (small i (omega arith) (omega arith)) refl in
        let same : (k : ℕ) → i + 1 ≤ k → slot_of h r (k + 1) ≡ slot_of h p (k + 1) =
          λ k le. slot-high p r i 1 (k + 1) (λ k. adj (slot_of h p (k + 1))) one (omega arith) in
        let (q, more_ok, more) =
          shift_after-Pointed count (i + 1) r (omega (arith, one.same_length))
            (λ k l s. rw (same k l) (small k (omega arith) (omega arith))) in
        (
          q,
          rw (linp-eq-ok p (i + 1) (omega arith), one_ok, more_ok) refl,
          Pointed-suc p r q i count (λ k. adj (slot_of h p (k + 1))) one
              (Pointed-eq r q (i + 1) count (λ k. adj (slot_of h r (k + 1)))
                (λ k. adj (slot_of h p (k + 1))) (λ k l. ap adj (same k l)) more),
        )
