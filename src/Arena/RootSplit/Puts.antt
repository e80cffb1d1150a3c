-- ===== src/Arena/RootSplit/Puts.antt =====
-- `put` on a database of one leaf without room for the entry.
use db.Prelude.{
  ℕ, suc, ◌+◌, ◌-◌, ◌/◌, ◌^◌, ◌≤◌, ◌<◌, ◌≡◌, refl, ◌∙◌, List, length, false, true, lt→leb, arith,
}
use db.Outcomes.{ok, sub_usize-eq-ok}
use db.Words.{Endian}
use db.Words.Bytes.{AreBytes}
use db.Words.RoundTrip.{u32_from-Agree}
use db.Format.{p_root, page_header_size}
use db.PageBuf.Slots.{upper_of, lower_of, free_space-eq-ok}
use db.Writer.{Writer, with_page}
use db.Writer.Entries.{leaf_nbytes}
use db.Writer.Pages.{leaf_search}
use db.Writer.Put.{put, put_at, split_root_leaf, too_large}
use db.LeafPage.{key_at}
use db.LeafSplit.Shared.{size_of, merged}
use db.RootLeaf.{IsRootLeaf, root_bytes, size_of_root}
use db.Arena.{Way, stop, down, Reaches}
use db.Arena.Pages.{node≢leaf}
use db.Arena.Descent.{descend-Reaches}
use db.Arena.Append.{page_count, with_pushed}
use db.Arena.RootSplit.{IsGrown}
use db.Arena.RootSplit.Built.{halves_of, root_halves-eq-ok}
use db.Arena.RootSplit.Commit.{
  root-HasPage, commit_root-eq-ok, new-IsArena, new_root, new_left, new_right,
}

module _ (h : Endian) (w : Writer) (p : List ℕ) (n : ℕ) (v : IsRootLeaf h w p n) where
  -- The root is a leaf: no path leads further.
  pub only_root :
      (key : List ℕ) {from depth to : ℕ} → Way h w key from depth to → from ≡ p_root → to ≡ p_root
  only_root key (stop pgno) e = e
  only_root key (down pgno child depth leaf q at node rest) e =
      absurd (node≢leaf h w pgno p_root q p key child n at node (root-HasPage h w p n v) v.leaf e)

  pub IsRootLeaf-Reaches : (key : List ℕ) → Reaches h w key 0 p_root p n
  IsRootLeaf-Reaches key = record {
    path = stop p_root;
    at = root-HasPage h w p n v;
    leaf = v.leaf;
    packed = v.packed;
    bytes = v.bytes;
    sorted = v.sorted;
  }

  pub put-grown :
      (fuel idx : ℕ) (key val : List ℕ) (w' : Writer)
      → too_large h (w.psize - page_header_size) (length key) (length val) ≡ false
      → leaf_search h p_root p key ≡ ok (false, idx)
      → upper_of h p - lower_of h p < leaf_nbytes (length key) (length val) + 2
      → split_root_leaf h idx key val w ≡ (ok tt, w')
      → put h (suc fuel) key val w ≡ (ok true, w')
  unfolding put put_at
  put-grown fuel idx key val w' small searched full split =
      let (spine, descended) =
        descend-Reaches h w key (suc fuel) 0 p_root n p (IsRootLeaf-Reaches key) (omega arith) in
      rw (
        sub_usize-eq-ok w.psize page_header_size
            (omega (arith, v.leaf.slots.header_in, size_of_root h w p n v)),
        small,
        descended,
        root_bytes h w p n v,
        searched,
        root_bytes h w p n v,
        free_space-eq-ok h p n v.leaf.slots,
        lt→leb (leaf_nbytes (length key) (length val) + 2) (upper_of h p - lower_of h p) full,
        split,
      )

  pub split-IsGrown :
      (idx : ℕ) (key val : List ℕ)
      → AreBytes key
      → AreBytes val
      → idx ≤ n
      → 2 ≤ n
      → ((i : ℕ) → i < n → size_of h p i + 2 ≤ (w.psize - page_header_size) / 2)
      → leaf_nbytes (length key) (length val) + 2 ≤ (w.psize - page_header_size) / 2
      → page_count w + 1 < 2 ^ 32
      → (w' : Writer) × (split_root_leaf h idx key val w ≡ (ok tt, w'))
        × IsGrown h w w' p n idx key val
  unfolding split_root_leaf
  split-IsGrown idx key val kb vb inside two small new_small few =
      let (l_buf, r_buf, l, r, top, s, l_size, r_size, l_next, r_next, built, parent, top_bytes) =
        root_halves-eq-ok h w p n v idx key val kb vb inside two small new_small few in
      let l_len = s.l_half.same_length ∙ l_size in
      let r_len = s.r_half.same_length ∙ r_size in
      (
        with_page (with_pushed (with_pushed w l) r) p_root top,
        rw built (
            commit_root-eq-ok h w p n v l r top l_len r_len parent.same_length few
              (halves_of w l r (merged idx key (key_at h p) s.left)) refl refl refl refl),
        record {
          l_buf = l_buf;
          r_buf = r_buf;
          l = l;
          r = r;
          top = top;
          shared = s;
          parent = parent;
          top_bytes = top_bytes;
          arena = new-IsArena h w p n v l r top l_len r_len parent.same_length few;
          at_top = new_root h w p n v l r top l_len r_len parent.same_length few;
          at_l = new_left h w p n v l r top l_len r_len parent.same_length few;
          at_r = new_right h w p n v l r top l_len r_len parent.same_length few;
          l_next =
              u32_from-Agree h l l_buf 8 (λ j le lt. s.l_half.header j (omega arith) (omega arith))
              ∙ l_next;
          r_next =
              u32_from-Agree h r r_buf 8 (λ j le lt. s.r_half.header j (omega arith) (omega arith))
              ∙ r_next;
        },
      )
