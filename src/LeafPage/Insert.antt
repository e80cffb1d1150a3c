-- ===== src/LeafPage/Insert.antt =====
-- `insert_leaf_entry` inserts into the list of entries of the page.
use db.Prelude.{
  ◌≢◌, ℕ, ◌+◌, ◌-◌, ◌*◌, ◌≤◌, ◌<◌, ◌≡◌, refl, sym, ap, ap₂, ◌∙◌, ◌⊎◌, inl, inr, subst, List, length,
  window, get_or, arith, Agree, window-eq_of_Agree,
}
use native.Mathlib.Decide.{dec_lt, ℕ_discrete}
use db.Outcomes.{ok}
use db.Words.{Endian}
use db.Words.Bytes.{AreBytes}
use db.Words.RoundTrip.{u16_from-Agree, u32_from-Agree}
use db.Format.{bleaf_header_size, page_header_size}
use db.Format.Align.{align_entry_bounds, align_entry_idem}
use db.PageBuf.Slots.{HasSlots, Reserved, slot_of, upper_of, lower_of, reserve_slot-Reserved}
use db.Writer.Entries.{leaf_nbytes, insert_leaf_entry}
use db.Writer.Entries.Written.{LeafWritten, write_bleaf_inline-LeafWritten}
use db.LeafPage.{
  IsLeaf, IsPacked, entry_size, ksize_at, dsize_at, key_from, val_from, key_at, val_at,
}

-- Two pages of one length that agree from an offset on hold the same entry there.
module _ (h : Endian) (p q : List ℕ) (off : ℕ) (same_length : length q ≡ length p)
    (same : Agree q p off (length p))
    (inside : off + bleaf_header_size + ksize_at h p off + dsize_at h p off ≤ length p) where
  ksize_same : ksize_at h q off ≡ ksize_at h p off
  ksize_same = u32_from-Agree h q p off (λ j l r. same j l (omega arith))

  dsize_same : dsize_at h q off ≡ dsize_at h p off
  dsize_same = u32_from-Agree h q p (off + 4) (λ j l r. same j (omega arith) (omega arith))

  key_same : key_from h q off ≡ key_from h p off
  key_same = rw ksize_same (
      window-eq_of_Agree q p (off + bleaf_header_size) (ksize_at h p off) (omega arith)
        (omega arith) (λ j l r. same j (omega arith) (omega arith)))

  val_same : val_from h q off ≡ val_from h p off
  val_same =
      rw (ksize_same, dsize_same)
        (window-eq_of_Agree q p (off + bleaf_header_size + ksize_at h p off) (dsize_at h p off)
          (omega arith) (omega arith) (λ j l r. same j (omega arith) (omega arith)))

-- Page `q` is leaf `p`, of `n` entries, with `key` and `val` inserted as entry `idx`.
pub record Inserted (h : Endian) (p q : List ℕ) (n idx : ℕ) (key val : List ℕ) : Type 0 where
  pub leaf : IsLeaf h q (n + 1)
  pub same_length : length q ≡ length p
  pub packed : IsPacked h p n → IsPacked h q (n + 1)
  pub header : Agree q p 0 16
  pub bytes : AreBytes p → AreBytes key → AreBytes val → AreBytes q
  pub space :
      upper_of h q - lower_of h q + (leaf_nbytes (length key) (length val) + 2)
      ≡ upper_of h p - lower_of h p
  pub key_new : key_at h q idx ≡ key
  pub val_new : val_at h q idx ≡ val
  pub before : (i : ℕ) → i < idx → (key_at h q i ≡ key_at h p i) × (val_at h q i ≡ val_at h p i)
  pub after :
      (i : ℕ)
      → idx ≤ i
      → i < n
      → (key_at h q (i + 1) ≡ key_at h p i) × (val_at h q (i + 1) ≡ val_at h p i)

module _ (h : Endian) (p r q : List ℕ) (n idx : ℕ) (key val : List ℕ) (v : IsLeaf h p n)
    (inside : idx ≤ n)
    (room : leaf_nbytes (length key) (length val) + 2 ≤ upper_of h p - lower_of h p)
    (res : Reserved h p r n idx (upper_of h p - leaf_nbytes (length key) (length val)))
    (wr : LeafWritten h r q (upper_of h p - leaf_nbytes (length key) (length val)) key val) where
  abbrev nb : ℕ
  nb = leaf_nbytes (length key) (length val)

  abbrev off : ℕ
  off = upper_of h p - nb

  low : lower_of h p ≡ page_header_size + n * 2
  low = v.slots.lower_at

  up_in : upper_of h p ≤ length p
  up_in = v.slots.upper_in

  nb_low : bleaf_header_size + length key + length val ≤ nb
  nb_low = (align_entry_bounds (bleaf_header_size + length key + length val)).0

  len_q : length q ≡ length p
  len_q = wr.same_length ∙ res.same_length

  -- Behind the old `upper` nothing changes.
  kept : (hi : ℕ) → Agree q p (upper_of h p) hi
  kept hi j l s =
      wr.after hi j (omega (arith, nb_low, room)) s ∙ res.rest hi j (omega (arith, low, room)) s

  -- The header and the pointers are those of the reserved page.
  slot_written : (i : ℕ) → i ≤ n → slot_of h q i ≡ slot_of h r i
  slot_written i le =
      u16_from-Agree h q r (page_header_size + i * 2)
        (λ j l s. wr.before 0 j (omega arith) (omega (arith, low, room)))

  lower_q : lower_of h q ≡ page_header_size + (n + 1) * 2
  lower_q =
      u16_from-Agree h q r 16 (λ j l s. wr.before 0 j (omega arith) (omega (arith, low, room)))
      ∙ res.lower_at

  upper_q : upper_of h q ≡ off
  upper_q =
      u16_from-Agree h q r 18 (λ j l s. wr.before 0 j (omega arith) (omega (arith, low, room)))
      ∙ res.upper_at

  slot_before : (i : ℕ) → i < idx → slot_of h q i ≡ slot_of h p i
  slot_before i lt = slot_written i (omega (arith, inside)) ∙ res.slots_before i lt

  slot_here : slot_of h q idx ≡ off
  slot_here = slot_written idx inside ∙ res.slot_at

  slot_after : (i : ℕ) → idx ≤ i → i < n → slot_of h q (i + 1) ≡ slot_of h p i
  slot_after i le lt = slot_written (i + 1) (omega arith) ∙ res.slots_after i le lt

  -- An old entry is still there.
  old_same :
      (i : ℕ)
      → i < n
      → (ksize_at h q (slot_of h p i) ≡ ksize_at h p (slot_of h p i))
        × (dsize_at h q (slot_of h p i) ≡ dsize_at h p (slot_of h p i))
        × (key_from h q (slot_of h p i) ≡ key_at h p i)
        × (val_from h q (slot_of h p i) ≡ val_at h p i)
  old_same i lt = (
    ksize_same h p q (slot_of h p i) len_q same fits,
    dsize_same h p q (slot_of h p i) len_q same fits,
    key_same h p q (slot_of h p i) len_q same fits,
    val_same h p q (slot_of h p i) len_q same fits,
  )
    where
      same : Agree q p (slot_of h p i) (length p)
      same j l s = kept (length p) j (omega (arith, v.entry_low i lt)) s

      fits :
          slot_of h p i
            + bleaf_header_size
            + ksize_at h p (slot_of h p i)
            + dsize_at h p (slot_of h p i)
          ≤ length p
      fits = omega (
        arith,
        v.entry_high i lt,
        (align_entry_bounds
            (bleaf_header_size + ksize_at h p (slot_of h p i) + dsize_at h p (slot_of h p i))).0,
      )

  -- Entry `i` of the new page is the new one or one of the old ones.
  abbrev Origin : ℕ → Type 0
  Origin i = (slot_of h q i ≡ off) ⊎ ((j : ℕ) × (j < n) × (slot_of h q i ≡ slot_of h p j))

  origin : (i : ℕ) → i < n + 1 → Origin i
  origin i lt = elim (dec_lt i idx) [
    | yes b ↦ inr (i, omega (arith, inside), slot_before i b)
    | no a ↦ elim (ℕ_discrete i idx) [
      | yes e ↦ inl (ap (slot_of h q) e ∙ slot_here)
      | no d ↦
          let back : i ≡ i - 1 + 1 = omega arith in
          inr (
            i - 1,
            omega arith,
            ap (slot_of h q) back ∙ slot_after (i - 1) (omega arith) (omega arith),
          )
    ]
  ]

  q-HasSlots : HasSlots h q (n + 1)
  q-HasSlots = record {
    header_in = omega (arith, len_q, v.slots.header_in);
    small = omega (arith, len_q, v.slots.small);
    lower_at = lower_q;
    free = omega (arith, lower_q, upper_q, low, room);
    upper_in = omega (arith, len_q, upper_q, up_in);
  }

  abbrev leaf_bytes : ℕ → ℕ
  leaf_bytes o = leaf_nbytes (ksize_at h q o) (dsize_at h q o)

  new_high : off + leaf_bytes off ≤ length q
  new_high =
      let sizes : leaf_bytes off ≡ nb = ap₂ leaf_nbytes wr.ksize wr.dsize in
      omega (arith, sizes, len_q, up_in, room)

  old_high : (i : ℕ) → i < n → slot_of h p i + leaf_bytes (slot_of h p i) ≤ length q
  old_high i lt =
      let sizes : leaf_bytes (slot_of h p i)
          ≡ leaf_nbytes (ksize_at h p (slot_of h p i)) (dsize_at h p (slot_of h p i)) =
        ap₂ leaf_nbytes (old_same i lt).0 (old_same i lt).1 in
      omega (arith, sizes, len_q, v.entry_high i lt)

  q-IsLeaf : IsLeaf h q (n + 1)
  q-IsLeaf = record {
    slots = q-HasSlots;
    leaf_flags =
        u32_from-Agree h q p 12 (λ j l s.
          wr.before 0 j (omega arith) (omega (arith, low, room))
          ∙ res.header j (omega arith) (omega arith))
        ∙ v.leaf_flags;
    entry_low = λ i lt. elim (origin i lt) [
      | inl e ↦ omega (arith, e, upper_q)
      | inr (j, lj, e) ↦ omega (arith, e, upper_q, v.entry_low j lj)
    ];
    entry_high = λ i lt. elim (origin i lt) [
      | inl e ↦ subst (λ o. o + leaf_bytes o ≤ length q) (sym e) new_high
      | inr (j, lj, e) ↦ subst (λ o. o + leaf_bytes o ≤ length q) (sym e) (old_high j lj)
    ];
    entry_inline = λ i lt. elim (origin i lt) [
      | inl e ↦ ap (λ o. get_or q (o + 8) 0) e ∙ wr.eflags
      | inr (j, lj, e) ↦
          ap (λ o. get_or q (o + 8) 0) e
          ∙ kept (slot_of h p j + 9) (slot_of h p j + 8) (omega (arith, v.entry_low j lj))
              (omega arith)
          ∙ v.entry_inline j lj
    ];
  }

  -- An old entry of the new page, with its old index.
  slot_other :
      (i : ℕ)
      → i < n + 1
      → i ≢ idx
      → (s : ℕ) × (s < n)
        × (slot_of h q i ≡ slot_of h p s)
        × (entry_size h q (slot_of h q i) ≡ entry_size h p (slot_of h p s))
        × (((s ≡ i) × (i < idx)) ⊎ ((i ≡ s + 1) × (idx ≤ s)))
  slot_other i lt ne = elim (dec_lt i idx) [
    | yes b ↦ (
      i,
      omega (arith, inside),
      slot_before i b,
      size_of i i (omega (arith, inside)) (slot_before i b),
      inl (refl, b),
    )
    | no a ↦
        let back : i ≡ i - 1 + 1 = omega arith in
        let at = ap (slot_of h q) back ∙ slot_after (i - 1) (omega arith) (omega arith) in
        (i - 1, omega arith, at, size_of i (i - 1) (omega arith) at, inr (back, omega arith))
  ]
    where
      size_of :
          (i s : ℕ)
          → s < n
          → slot_of h q i ≡ slot_of h p s
          → entry_size h q (slot_of h q i) ≡ entry_size h p (slot_of h p s)
      size_of i s ls e = ap (entry_size h q) e ∙ ap₂ leaf_nbytes (old_same s ls).0 (old_same s ls).1

  new_size : entry_size h q (slot_of h q idx) ≡ nb
  new_size = ap (entry_size h q) slot_here ∙ ap₂ leaf_nbytes wr.ksize wr.dsize

  q-IsPacked : IsPacked h p n → IsPacked h q (n + 1)
  q-IsPacked packed = record {
    apart = λ i j li lj ne. elim (ℕ_discrete i idx) [
      | yes ei ↦
          let (t, t_in, t_at, t_size, _) = slot_other j lj (λ e. ne (ei ∙ sym e)) in
          let at = ap (slot_of h q) ei ∙ slot_here in
          let size = ap (λ k. entry_size h q (slot_of h q k)) ei ∙ new_size in
          inl (omega (arith, at, size, t_at, v.entry_low t t_in, room))
      | no di ↦ elim (ℕ_discrete j idx) [
        | yes ej ↦
            let (s, s_in, s_at, s_size, _) = slot_other i li di in
            let at = ap (slot_of h q) ej ∙ slot_here in
            let size = ap (λ k. entry_size h q (slot_of h q k)) ej ∙ new_size in
            inr (omega (arith, at, size, s_at, v.entry_low s s_in, room))
        | no dj ↦ both packed i j ne (slot_other i li di) (slot_other j lj dj)
      ]
    ];
  }
    where
      both :
          IsPacked h p n
          → (i j : ℕ) → i ≢ j
          → (s : ℕ) × (s < n)
            × (slot_of h q i ≡ slot_of h p s)
            × (entry_size h q (slot_of h q i) ≡ entry_size h p (slot_of h p s))
            × (((s ≡ i) × (i < idx)) ⊎ ((i ≡ s + 1) × (idx ≤ s)))
          → (s : ℕ) × (s < n)
            × (slot_of h q j ≡ slot_of h p s)
            × (entry_size h q (slot_of h q j) ≡ entry_size h p (slot_of h p s))
            × (((s ≡ j) × (j < idx)) ⊎ ((j ≡ s + 1) × (idx ≤ s)))
          → (slot_of h q i + entry_size h q (slot_of h q i) ≤ slot_of h q j)
            ⊎ (slot_of h q j + entry_size h q (slot_of h q j) ≤ slot_of h q i)
      both packed i j ne (s, s_in, s_at, s_size, s_which) (t, t_in, t_at, t_size, t_which) =
          elim (packed.apart s t s_in t_in (λ e. ground (arith, ne))) [
            | inl le ↦ inl (omega (arith, s_at, t_at, s_size))
            | inr le ↦ inr (omega (arith, s_at, t_at, t_size))
          ]

  q-Inserted : Inserted h p q n idx key val
  q-Inserted = record {
    leaf = q-IsLeaf;
    same_length = len_q;
    header = λ j l s.
        wr.before 0 j (omega arith) (omega (arith, low, room)) ∙ res.header j (omega arith) s;
    bytes = λ b bk bv. wr.bytes (res.bytes b) bk bv;
    packed = q-IsPacked;
    space = omega (arith, upper_q, lower_q, low, room);
    key_new =
        ap (key_from h q) slot_here
        ∙ ap (window q (off + bleaf_header_size)) wr.ksize
        ∙ wr.key_bytes;
    val_new =
        ap (val_from h q) slot_here
        ∙ ap₂ (λ k d. window q (off + bleaf_header_size + k) d) wr.ksize wr.dsize
        ∙ wr.val_bytes;
    before = λ i lt. (
      ap (key_from h q) (slot_before i lt) ∙ (old_same i (omega (arith, inside))).2,
      ap (val_from h q) (slot_before i lt) ∙ (old_same i (omega (arith, inside))).3,
    );
    after = λ i le lt. (
      ap (key_from h q) (slot_after i le lt) ∙ (old_same i lt).2,
      ap (val_from h q) (slot_after i le lt) ∙ (old_same i lt).3,
    );
  }

-- On a leaf of `n` entries with room for the entry and its pointer `insert_leaf_entry` succeeds at
-- every index up to `n`, and leaves a leaf of `n + 1` entries: entry `idx` is the key and the value
-- given, the entries before it are unchanged, those from `idx` on stand one place further, the page
-- number, the links and the flags are kept, no two entries share a byte if none did before, and the
-- free space shrinks by the aligned size of the entry and a pointer.
pub insert_leaf_entry-Inserted :
    (h : Endian) (p : List ℕ) (n idx : ℕ) (key val : List ℕ)
    → IsLeaf h p n
    → idx ≤ n
    → leaf_nbytes (length key) (length val) + 2 ≤ upper_of h p - lower_of h p
    → (q : List ℕ) × (insert_leaf_entry h idx key val p ≡ ok q) × Inserted h p q n idx key val
unfolding insert_leaf_entry
insert_leaf_entry-Inserted h p n idx key val v inside room =
    let size = bleaf_header_size + length key + length val in
    let bounds = align_entry_bounds size in
    let off = upper_of h p - leaf_nbytes (length key) (length val) in
    let (r, reserved, res) =
      reserve_slot-Reserved h p n idx (leaf_nbytes (length key) (length val)) v.slots inside
        (omega (arith, bounds.0)) (sym (align_entry_idem size)) room in
    let (q, written, wr) =
      write_bleaf_inline-LeafWritten h r off key val (omega (arith, res.same_length, v.slots.small))
        (omega (arith, res.same_length, v.slots.upper_in, bounds.0, room)) in
    (q, rw (reserved, written) refl, q-Inserted h p r q n idx key val v inside room res wr)
