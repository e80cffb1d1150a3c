-- ===== src/Arena/RootSplit/Built.antt =====
-- The pages that the root split builds, and the new root.
use db.Prelude.{
  ℕ, ◌+◌, ◌-◌, ◌/◌, ◌^◌, ◌≤◌, ◌<◌, ◌≡◌, refl, sym, ap, subst, ◌∙◌, List, [], length, lt→ltb, arith,
}
use native.Mathlib.Decide.{dec_lt, ℕ_discrete}
use db.Outcomes.{ok}
use db.Words.{Endian, u32_from}
use db.Words.Bytes.{AreBytes, window-AreBytes}
use db.Format.{align_entry, p_invalid, p_root, page_header_size}
use db.Writer.{Writer, empty_leaf}
use db.Writer.Entries.{leaf_nbytes, leaf_first_key}
use db.Writer.Split.{Halves, share_leaf, root_halves}
use db.LeafPage.{key_at}
use db.LeafPage.Ends.{leaf_first_key-eq-ok}
use db.LeafSplit.{Blank}
use db.LeafSplit.Shared.{
  merged-before, merged-here, merged-after, IsShared, share_leaf-IsShared, merged, size_of,
}
use db.LeafSplit.Costs.{cost_small, cost_whole, separator_small}
use db.LeafSplit.Empty.{empty_leaf-eq-ok, set_next_pg-Blank, set_prev_pg-Blank}
use db.InternalPage.Root.{IsRoot, convert_root_to_internal-IsRoot}
use db.RootLeaf.{IsRootLeaf, root_bytes, size_of_root}
use db.Arena.Append.{page_count, next_free_pgno-eq-ok}

-- what the split hands on to its commit
abbrev pub halves_of : Writer → List ℕ → List ℕ → List ℕ → Halves
halves_of w l r separator = record {
  l = l;
  r = r;
  l_pgno = page_count w;
  r_pgno = page_count w + 1;
  next = 0;
  l_last_key = [];
  r_first_key = separator;
}

module _ (h : Endian) (w : Writer) (p : List ℕ) (n : ℕ) (v : IsRootLeaf h w p n) (idx : ℕ)
    (key val : List ℕ) (kb : AreBytes key) (vb : AreBytes val) (inside : idx ≤ n) (two : 2 ≤ n)
    (small : (i : ℕ) → i < n → size_of h p i + 2 ≤ (w.psize - page_header_size) / 2)
    (new_small : leaf_nbytes (length key) (length val) + 2 ≤ (w.psize - page_header_size) / 2)
    (few : page_count w + 1 < 2 ^ 32) where
  abbrev ilen : ℕ
  ilen = leaf_nbytes (length key) (length val)

  abbrev half : ℕ
  half = (w.psize - page_header_size) / 2

  len : length p ≡ w.psize
  len = size_of_root h w p n v

  same_half : (length p - page_header_size) / 2 ≡ half
  same_half = ap (λ s. (s - page_header_size) / 2) len

  new_small' : ilen + 2 ≤ (length p - page_header_size) / 2
  new_small' = omega (arith, same_half, new_small)

  small' : (i : ℕ) → i < n → size_of h p i + 2 ≤ (length p - page_header_size) / 2
  small' i lt = omega (arith, same_half, small i lt)

  -- Entries and the new pair are shared out.
  halves_out :
      (l_buf r_buf : List ℕ)
      → Blank h l_buf
      → AreBytes l_buf
      → length l_buf ≡ w.psize
      → Blank h r_buf
      → AreBytes r_buf
      → length r_buf ≡ w.psize
      → (l : List ℕ) × (r : List ℕ) × (share_leaf h p_root p w.psize idx key val l_buf r_buf
          ≡ ok (l, r))
        × IsShared h p n idx key val l_buf r_buf l r
  halves_out l_buf r_buf l_blank lb l_len r_blank rb r_len =
      share_leaf-IsShared h p_root w.psize idx n p key val l_buf r_buf v.leaf v.bytes kb vb l_blank
        lb l_len r_blank rb r_len (omega (arith, v.arena.psize_low)) two inside
        (λ o le. omega (
          arith,
          same_half,
          cost_small h p n v.leaf v.packed idx ilen inside new_small' small' o le,
        ))
        (omega (arith, len, same_half, cost_whole h p n v.leaf v.packed idx ilen inside new_small'))

  -- The first key of the right page is the separator.
  first_of_right :
      (l_buf r_buf l r : List ℕ)
      → (s : IsShared h p n idx key val l_buf r_buf l r)
      → leaf_first_key h r ≡ ok (merged idx key (key_at h p) s.left)
  first_of_right l_buf r_buf l r s =
      let here : s.left + 0 ≡ s.left = omega arith in
      leaf_first_key-eq-ok h r (n + 1 - s.left) s.r_half.leaf s.r_half.bytes
        (omega (arith, s.right_some))
      ∙ ap ok
          (s.r_half.key_is 0 (omega (arith, s.right_some)) ∙ ap (merged idx key (key_at h p)) here)

  key_bytes : (o : ℕ) → AreBytes (merged idx key (key_at h p) o)
  key_bytes o = elim (ℕ_discrete idx o) [
    | yes here ↦ subst AreBytes (sym (merged-here idx key (key_at h p) o (sym here))) kb
    | no other ↦ elim (dec_lt o idx) [
      | yes low ↦
          subst AreBytes (sym (merged-before idx key (key_at h p) o low))
            (window-AreBytes p _ _ v.bytes)
      | no high ↦
          subst AreBytes
            (sym (merged-after idx key (key_at h p) o (o - 1) (ground arith) (ground arith)))
            (window-AreBytes p _ _ v.bytes)
    ]
  ]

  -- All pages of the split, before any of them is in the arena.
  pub root_halves-eq-ok :
      (l_buf : List ℕ) × (r_buf : List ℕ) × (l : List ℕ) × (r : List ℕ) × (top : List ℕ)
      × (s : IsShared h p n idx key val l_buf r_buf l r) × (length l_buf ≡ w.psize)
      × (length r_buf ≡ w.psize)
      × (u32_from h l_buf 8 ≡ page_count w + 1)
      × (u32_from h r_buf 8 ≡ p_invalid)
      × (root_halves h
            (empty_leaf h)
            (λ old l0 r0. share_leaf h p_root old w.psize idx key val l0 r0)
            (leaf_first_key h)
            w
          ≡ ok (halves_of w l r (merged idx key (key_at h p) s.left), top))
      × IsRoot h p top (page_count w) (page_count w + 1) (merged idx key (key_at h p) s.left)
      × AreBytes top
  unfolding root_halves align_entry
  root_halves-eq-ok =
      let low = v.arena.psize_low in
      let high = v.arena.psize_high in
      let (l_buf, l_linked, l_blank, lb, l_len, l_next) =
        set_next_pg-Blank h w.psize (page_count w) low high (page_count w + 1) few in
      let (r_buf, r_linked, r_blank, rb, r_len, r_next) =
        set_prev_pg-Blank h w.psize (page_count w + 1) low high (page_count w) in
      let (l, r, shared, s) = halves_out l_buf r_buf l_blank lb l_len r_blank rb r_len in
      let first = first_of_right l_buf r_buf l r s in
      let (top, converted, is_root) =
        convert_root_to_internal-IsRoot h p (merged idx key (key_at h p) s.left) w.psize
          (page_count w) (page_count w + 1) len high v.leaf.leaf_flags
          (omega (
            arith,
            low,
            same_half,
            separator_small h p n v.leaf v.packed idx ilen inside new_small' key (length val) refl
                small' s.left s.right_some,
          ))
          (omega (arith, few)) few in
      (
        l_buf,
        r_buf,
        l,
        r,
        top,
        s,
        l_len,
        r_len,
        l_next,
        r_next,
        rw (
          next_free_pgno-eq-ok w v.arena (omega (arith, few)),
          lt→ltb (page_count w + 1) (2 ^ 32) few,
          empty_leaf-eq-ok h w.psize (page_count w) low high,
          empty_leaf-eq-ok h w.psize (page_count w + 1) low high,
          l_linked,
          r_linked,
          root_bytes h w p n v,
          shared,
          first,
          converted,
        ),
        is_root,
        is_root.bytes v.bytes (key_bytes s.left),
      )
