-- ===== src/LeafPage/Delete/Entries.antt =====
-- The entries of the page that `delete_leaf_entry` leaves.
use db.Prelude.{
  ℕ, ◌+◌, ◌≤◌, ◌<◌, ◌≡◌, ◌≢◌, refl, sym, ap₂, ◌∙◌, ◌⊎◌, inl, inr, subst, List, length, get_or,
  arith, MovedTo, lt→ltb, le→ltb, ltb, if◌then◌else◌,
}
use native.Mathlib.Decide.{dec_lt}
use db.Words.{Endian}
use db.Words.RoundTrip.{u32_from-Agree}
use db.Format.{bleaf_header_size}
use db.PageBuf.Slots.{slot_of}
use db.Writer.Entries.{leaf_nbytes}
use db.Writer.Entries.Pointers.{adjusted}
use db.LeafPage.{
  IsLeaf, IsPacked, entry_size, ksize_at, dsize_at, key_from, val_from, key_at, val_at,
}
use db.LeafPage.Moved.{ksize_moved, dsize_moved, key_moved, val_moved, eflags_moved}
use db.LeafPage.Delete.Space.{Deleted, Closed, low, size_low, above_upper, o_high, free, adj_cases}

module _ (h : Endian) (p q : List ℕ) (n idx : ℕ) (v : IsLeaf h p (n + 1))
    (packed : IsPacked h p (n + 1)) (inside : idx ≤ n) (c : Closed h p q n idx) where
  abbrev slot : ℕ → ℕ
  slot i = slot_of h p i

  abbrev adj : ℕ → ℕ
  adj = adjusted (slot_of h p idx) (entry_size h p (slot_of h p idx))

  -- the old entry that entry `i` of the new page is
  abbrev source : ℕ → ℕ
  source i = if ltb i idx then i else i + 1

  source_cases :
      (i : ℕ)
      → i < n
      → (source i < n + 1)
        × (source i ≢ idx)
        × (slot_of h q i ≡ adj (slot (source i)))
        × (((source i ≡ i) × (i < idx)) ⊎ ((source i ≡ i + 1) × (idx ≤ i)))
  source_cases i lt = elim (dec_lt i idx) [
    | yes b ↦
        rw (lt→ltb i idx b) (omega arith, (λ e. omega arith), c.slots_before i b, inl (refl, b))
    | no a ↦
        rw (le→ltb i idx (omega arith)) (
          omega arith,
          (λ e. omega arith),
          c.slots_after i (omega arith) lt,
          inr (refl, omega arith),
        )
  ]

  -- Every entry of the new page is one of the old ones.
  kept_entry :
      (i s : ℕ)
      → s < n + 1
      → s ≢ idx
      → slot_of h q i ≡ adj (slot s)
      → (ksize_at h q (slot_of h q i) ≡ ksize_at h p (slot s))
        × (dsize_at h q (slot_of h q i) ≡ dsize_at h p (slot s))
        × (key_at h q i ≡ key_at h p s)
        × (val_at h q i ≡ val_at h p s)
        × (get_or q (slot_of h q i + 8) 0 ≡ 0)
  kept_entry i s lt ne e =
      subst
        (λ off.
          (ksize_at h q off ≡ ksize_at h p (slot s))
          × (dsize_at h q off ≡ dsize_at h p (slot s))
          × (key_from h q off ≡ key_at h p s)
          × (val_from h q off ≡ val_at h p s)
          × (get_or q (off + 8) 0 ≡ 0))
        (sym e)
        (
          ksize_moved h p q (slot s) (adj (slot s)) same old_in new_in,
          dsize_moved h p q (slot s) (adj (slot s)) same old_in new_in,
          key_moved h p q (slot s) (adj (slot s)) same old_in new_in,
          val_moved h p q (slot s) (adj (slot s)) same old_in new_in,
          eflags_moved h p q (slot s) (adj (slot s)) same old_in new_in ∙ v.entry_inline s lt,
        )
    where
      same :
          MovedTo q p
            (adj (slot s))
            (slot s)
            (bleaf_header_size + ksize_at h p (slot s) + dsize_at h p (slot s))
      same = c.moved s lt ne

      old_in :
          slot s + (bleaf_header_size + ksize_at h p (slot s) + dsize_at h p (slot s)) ≤ length p
      old_in = omega (arith, v.entry_high s lt, size_low h p n idx v packed inside (slot s))

      new_in :
          adj (slot s) + (bleaf_header_size + ksize_at h p (slot s) + dsize_at h p (slot s))
          ≤ length q
      new_in = elim (adj_cases h p n idx v packed inside s lt ne) [
        | inl (front, e) ↦ omega (
          arith,
          e,
          front,
          o_high h p n idx v packed inside,
          size_low h p n idx v packed inside (slot s),
          c.same_length,
        )
        | inr (back, e) ↦ omega (
          arith,
          e,
          v.entry_high s lt,
          size_low h p n idx v packed inside (slot s),
          c.same_length,
        )
      ]

  abbrev new_size : ℕ → ℕ
  new_size i = entry_size h q (slot_of h q i)

  size_kept : (i : ℕ) → i < n → new_size i ≡ entry_size h p (slot (source i))
  size_kept i lt =
      let (s_in, s_ne, at, which) = source_cases i lt in
      let (k, d, _, _, _) = kept_entry i (source i) s_in s_ne at in ap₂ leaf_nbytes k d

  -- The order of two old entries is kept.
  adj_apart :
      (s t : ℕ)
      → s < n + 1
      → t < n + 1
      → s ≢ idx
      → t ≢ idx
      → slot s + entry_size h p (slot s) ≤ slot t
      → adj (slot s) + entry_size h p (slot s) ≤ adj (slot t)
  adj_apart s t ls lt ns nt le = elim (adj_cases h p n idx v packed inside s ls ns) [
    | inl (front, e) ↦ elim (adj_cases h p n idx v packed inside t lt nt) [
      | inl (front', e') ↦ omega (arith, e, e')
      | inr (back', e') ↦ omega (arith, e, e')
    ]
    | inr (back, e) ↦ elim (adj_cases h p n idx v packed inside t lt nt) [
      | inl (front', e') ↦ omega (arith, e, e')
      | inr (back', e') ↦ omega (arith, e, e')
    ]
  ]

  q-IsPacked : IsPacked h q n
  q-IsPacked = record {
    apart = λ i j li lj ne.
        let (s_in, s_ne, s_at, s_which) = source_cases i li in
        let (t_in, t_ne, t_at, t_which) = source_cases j lj in
        let differ : source i ≢ source j = λ e. sources_differ i j ne s_which t_which e in
        elim (packed.apart (source i) (source j) s_in t_in differ) [
          | inl le ↦ inl (
              omega (
                arith,
                s_at,
                t_at,
                size_kept i li,
                adj_apart (source i) (source j) s_in t_in s_ne t_ne le,
              ))
          | inr le ↦ inr (
              omega (
                arith,
                s_at,
                t_at,
                size_kept j lj,
                adj_apart (source j) (source i) t_in s_in t_ne s_ne le,
              ))
        ];
  }
    where
      sources_differ :
          (i j : ℕ)
          → i ≢ j
          → ((source i ≡ i) × (i < idx)) ⊎ ((source i ≡ i + 1) × (idx ≤ i))
          → ((source j ≡ j) × (j < idx)) ⊎ ((source j ≡ j + 1) × (idx ≤ j))
          → source i ≢ source j
      sources_differ i j ne (inl (a, b)) (inl (c, d)) e = ne (sym a ∙ e ∙ c)
      sources_differ i j ne (inl (a, b)) (inr (c, d)) e = omega (arith, a, c, e)
      sources_differ i j ne (inr (a, b)) (inl (c, d)) e = omega (arith, a, c, e)
      sources_differ i j ne (inr (a, b)) (inr (c, d)) e = ne (omega (arith, a, c, e))

  q-IsLeaf : IsLeaf h q n
  q-IsLeaf = record {
    slots = record {
      header_in = omega (arith, c.same_length, v.slots.header_in);
      small = omega (arith, c.same_length, v.slots.small);
      lower_at = c.lower_at;
      free = omega (
        arith,
        c.lower_at,
        c.upper_at,
        low h p n idx v packed inside,
        free h p n idx v packed inside,
      );
      upper_in = omega (
        arith,
        c.same_length,
        c.upper_at,
        above_upper h p n idx v packed inside,
        o_high h p n idx v packed inside,
      );
    };
    leaf_flags =
        u32_from-Agree h q p 12 (λ j l r. c.header j (omega arith) (omega arith)) ∙ v.leaf_flags;
    entry_low = λ i lt.
        let (s_in, s_ne, at, which) = source_cases i lt in
        elim (adj_cases h p n idx v packed inside (source i) s_in s_ne) [
          | inl (front, e) ↦ omega (arith, at, e, c.upper_at, v.entry_low (source i) s_in)
          | inr (back, e) ↦ omega (arith, at, e, c.upper_at, above_upper h p n idx v packed inside)
        ];
    entry_high = λ i lt.
        let (s_in, s_ne, at, which) = source_cases i lt in
        elim (adj_cases h p n idx v packed inside (source i) s_in s_ne) [
          | inl (front, e) ↦
              omega (
                arith,
                at,
                e,
                size_kept i lt,
                c.same_length,
                front,
                o_high h p n idx v packed inside,
              )
          | inr (back, e) ↦
              omega (arith, at, e, size_kept i lt, c.same_length, v.entry_high (source i) s_in)
        ];
    entry_inline = λ i lt.
        let (s_in, s_ne, at, which) = source_cases i lt in (kept_entry i (source i) s_in s_ne at).4;
  }

  pub q-Deleted : Deleted h p q n idx
  q-Deleted = record {
    leaf = q-IsLeaf;
    packed = q-IsPacked;
    same_length = c.same_length;
    header = c.header;
    bytes = c.bytes;
    space = omega (
      arith,
      c.lower_at,
      c.upper_at,
      low h p n idx v packed inside,
      free h p n idx v packed inside,
    );
    before = λ i lt.
        let (k, d, key, val, _) =
          kept_entry i i (omega arith) (λ e. omega arith) (c.slots_before i lt) in
        (key, val);
    after = λ i le lt.
        let (k, d, key, val, _) =
          kept_entry i (i + 1) (omega arith) (λ e. omega arith) (c.slots_after i le lt) in
        (key, val);
  }
