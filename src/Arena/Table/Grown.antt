-- ===== src/Arena/Table/Grown.antt =====
-- `put` on a database of one leaf without room: the map that the grown tree is.
use db.Prelude.{
  ℕ, zero, suc, ◌+◌, ◌-◌, ◌/◌, ◌^◌, ◌≤◌, ◌<◌, ◌≡◌, ◌≢◌, ◌⊎◌, refl, sym, ap, subst, ◌∙◌, inl, inr,
  List, [], length, Bool, true, false, Option, some, none, Ordering, arith,
}
use native.Mathlib.Decide.{dec_lt, ℕ_discrete}
use db.Outcomes.{ok}
use db.Words.{Endian}
use db.Words.Bytes.{AreBytes}
use db.Format.{p_root, page_header_size}
use db.Order.{cmp, ◌≺◌}
use db.Order.Laws.{eq_of_cmp, nil_below, ≺_trans}
use db.PageBuf.Slots.{upper_of, lower_of}
use db.Writer.{Writer}
use db.Writer.Entries.{leaf_nbytes}
use db.Writer.Pages.{leaf_search}
use db.Writer.Put.{put, too_large}
use db.LeafPage.{key_at, val_at}
use db.LeafPage.Search.{IsSorted, IsPlace, leaf_search-IsPlace, gt→≺, ≺_irrefl}
use db.LeafSplit.Shared.{size_of, merged}
use db.LeafSplit.Ordered.{row_sorted, IsShared-IsSorted}
use db.InternalPage.{IsNode, sep_at}
use db.RootLeaf.{IsRootLeaf}
use db.Session.{update}
use db.Arena.{stop, down}
use db.Arena.Append.{page_count}
use db.Arena.RootSplit.{IsGrown}
use db.Arena.RootSplit.Puts.{put-grown, split-IsGrown}
use db.Arena.Table.{Lookup, Represents}
use db.Arena.Table.Row.{root_held, row_held, row_absent}

module _ (h : Endian) (w : Writer) (p : List ℕ) (n : ℕ) (v : IsRootLeaf h w p n) (height : ℕ)
    (find : List ℕ → Option (List ℕ)) (m : Represents h w height find) (idx : ℕ) (key val : List ℕ)
    (place : IsPlace h p n key false idx) (w' : Writer) (g : IsGrown h w w' p n idx key val) where
  abbrev row : ℕ → List ℕ
  row = merged idx key (key_at h p)

  abbrev vals : ℕ → List ℕ
  vals = merged idx val (val_at h p)

  abbrev find' : List ℕ → Option (List ℕ)
  find' = update key (some val) find

  abbrev left : ℕ
  left = g.shared.left

  row_before : (i j : ℕ) → i < j → j ≤ n → row i ≺ row j
  row_before i j lt le = row_sorted h p n idx key v.sorted place i j lt (omega arith)

  ascend : (i j : ℕ) → i < j → j < 2 → sep_at h g.top i ≺ sep_at h g.top j
  ascend zero (suc zero) lt le =
      subst (λ k. k ≺ sep_at h g.top 1) (sym g.parent.l_sep)
        (subst (λ k. [] ≺ k) (sym g.parent.r_sep)
          (nil_below (row 0) (row left) (row_before 0 left g.shared.left_some g.shared.right_some)))
  ascend i zero lt le = absurd (omega arith)
  ascend (suc i) (suc j) lt le = absurd (omega arith)
  ascend i (suc (suc j)) lt le = absurd (omega arith)

  left-IsNode : (k : List ℕ) → k ≺ row left → IsNode h g.top k (page_count w)
  left-IsNode k less = record {
    count = 2;
    internal = g.parent.internal;
    bytes = g.top_bytes;
    ascend = ascend;
    slot = 0;
    slot_in = omega arith;
    slot_child = g.parent.l_child;
    not_above = λ some_slot. absurd (omega arith);
    above = all_above;
  }
    where
      all_above : (j : ℕ) → 0 < j → j < 2 → k ≺ sep_at h g.top j
      all_above zero lt le = absurd (omega arith)
      all_above (suc zero) lt le = subst (λ x. k ≺ x) (sym g.parent.r_sep) less
      all_above (suc (suc j)) lt le = absurd (omega arith)

  right-IsNode :
      (k : List ℕ) → (row left ≡ k) ⊎ (row left ≺ k) → IsNode h g.top k (page_count w + 1)
  right-IsNode k reached = record {
    count = 2;
    internal = g.parent.internal;
    bytes = g.top_bytes;
    ascend = ascend;
    slot = 1;
    slot_in = omega arith;
    slot_child = g.parent.r_child;
    not_above = λ some_slot. subst (λ x. (x ≡ k) ⊎ (x ≺ k)) (sym g.parent.r_sep) reached;
    above = λ j lt le. absurd (omega arith);
  }

  abbrev orders :
      IsSorted h g.l left
      × IsSorted h g.r (n + 1 - left)
      × ((i j : ℕ) → i < left → j < n + 1 - left → key_at h g.l i ≺ key_at h g.r j)
  orders = IsShared-IsSorted h p n idx key val g.l_buf g.r_buf g.l g.r v.sorted place g.shared

  -- An entry of a page is one of the row, and says what the map says.
  page_held :
      (k : List ℕ) (page_key page_val : List ℕ) (o : ℕ)
      → o ≤ n
      → page_key ≡ row o
      → page_val ≡ vals o
      → page_key ≡ k
      → find' k ≡ some page_val
  page_held k page_key page_val o le ek ed e =
      ap find' (sym e ∙ ek)
      ∙ row_held h w p n v height find m idx key val place o le
      ∙ ap some (sym ed)

  left_Lookup : (k : List ℕ) → k ≺ row left → Lookup h w' 1 k (find' k)
  left_Lookup k less = record {
    depth = 1;
    pgno = page_count w;
    p = g.l;
    n = left;
    not_deeper = omega arith;
    reached = record {
      path =
          down p_root (page_count w) 0 (page_count w) g.top g.at_top (left-IsNode k less)
            (stop (page_count w));
      at = g.at_l;
      leaf = g.shared.l_half.leaf;
      packed = g.shared.l_half.packed;
      bytes = g.shared.l_half.bytes;
      sorted = orders.0;
    };
    found = λ i lt e.
        page_held k (key_at h g.l i) (val_at h g.l i) i (omega (arith, g.shared.right_some))
          (g.shared.l_half.key_is i lt) (g.shared.l_half.val_is i lt) e;
    missed = λ none_is. row_absent h w p n v height find m idx key val place k (λ o le e.
        elim (dec_lt o left) [
          | yes inner ↦ none_is o inner (g.shared.l_half.key_is o inner ∙ e)
          | no outer ↦ ≺_irrefl k (subst (λ x. k ≺ x) e (above_left o le (omega arith)))
        ]);
  }
    where
      above_left : (o : ℕ) → o ≤ n → left ≤ o → k ≺ row o
      above_left o le over = elim (ℕ_discrete left o) [
        | yes same ↦ subst (λ j. k ≺ row j) same less
        | no other ↦ ≺_trans k (row left) (row o) less (row_before left o (omega (arith, other)) le)
      ]

  right_Lookup : (k : List ℕ) → (row left ≡ k) ⊎ (row left ≺ k) → Lookup h w' 1 k (find' k)
  right_Lookup k reached = record {
    depth = 1;
    pgno = page_count w + 1;
    p = g.r;
    n = n + 1 - left;
    not_deeper = omega arith;
    reached = record {
      path =
          down p_root (page_count w + 1) 0 (page_count w + 1) g.top g.at_top
            (right-IsNode k reached) (stop (page_count w + 1));
      at = g.at_r;
      leaf = g.shared.r_half.leaf;
      packed = g.shared.r_half.packed;
      bytes = g.shared.r_half.bytes;
      sorted = orders.1;
    };
    found = λ i lt e.
        page_held k (key_at h g.r i) (val_at h g.r i) (left + i) (omega arith)
          (g.shared.r_half.key_is i lt) (g.shared.r_half.val_is i lt) e;
    missed = λ none_is. row_absent h w p n v height find m idx key val place k (λ o le e.
        elim (dec_lt o left) [
          | yes inner ↦ below_right o inner e
          | no outer ↦
              let back : left + (o - left) ≡ o = omega arith in
              none_is (o - left) (omega (arith, g.shared.right_some)) (
                g.shared.r_half.key_is (o - left) (omega (arith, g.shared.right_some))
                ∙ ap row back
                ∙ e)
        ]);
  }
    where
      below_right : (o : ℕ) → o < left → row o ≢ k
      below_right o inner e =
          let less = row_before o left inner g.shared.right_some in
          elim reached [
            | inl same ↦ ≺_irrefl k (subst (λ x. x ≺ k) e (subst (λ x. row o ≺ x) same less))
            | inr over ↦ ≺_irrefl k (subst (λ x. x ≺ k) e (≺_trans (row o) (row left) k less over))
          ]

  grown-Represents : Represents h w' 1 find'
  grown-Represents = record { arena = g.arena; every = λ k. by_order k (cmp k (row left)) refl }
    where
      by_order : (k : List ℕ) (o : Ordering) → cmp k (row left) ≡ o → Lookup h w' 1 k (find' k)
      by_order k Ordering.lt e = left_Lookup k e
      by_order k Ordering.eq e = right_Lookup k (inl (sym (eq_of_cmp k (row left) e)))
      by_order k Ordering.gt e = right_Lookup k (inr (gt→≺ k (row left) e))

-- When the database of the writer is a map from keys to values and its root is a leaf of bytes, of at
-- least two ascending keys and entries that share no byte, without room for a new entry of bytes that
-- passes the size check, neither an entry of the leaf nor the new one takes, with its pointer, more
-- than half of the bytes behind a page's header, the map does not have the key, and the arena's page
-- numbers stay below 2^32: `put` ends with `true`, and the database is then, of height one, the map
-- with the value under the key.
pub put-Represents_grown :
    (h : Endian) (w : Writer) (p : List ℕ) (n height fuel : ℕ) (find : List ℕ → Option (List ℕ))
    (key val : List ℕ)
    → IsRootLeaf h w p n
    → Represents h w height find
    → AreBytes key
    → AreBytes val
    → too_large h (w.psize - page_header_size) (length key) (length val) ≡ false
    → find key ≡ none
    → upper_of h p - lower_of h p < leaf_nbytes (length key) (length val) + 2
    → 2 ≤ n
    → ((i : ℕ) → i < n → size_of h p i + 2 ≤ (w.psize - page_header_size) / 2)
    → leaf_nbytes (length key) (length val) + 2 ≤ (w.psize - page_header_size) / 2
    → page_count w + 1 < 2 ^ 32
    → (w' : Writer) × (put h (suc fuel) key val w ≡ (ok true, w'))
      × Represents h w' 1 (update key (some val) find)
put-Represents_grown h w p n height fuel find key val v m kb vb fits absent full two small new_small
      few =
    let (b, idx, searched, place) = leaf_search-IsPlace h p n p_root key v.leaf v.bytes v.sorted in
    by_answer b idx searched place
  where
    by_answer :
        (b : Bool) (idx : ℕ)
        → leaf_search h p_root p key ≡ ok (b, idx)
        → IsPlace h p n key b idx
        → (w' : Writer) × (put h (suc fuel) key val w ≡ (ok true, w'))
          × Represents h w' 1 (update key (some val) find)
    by_answer true idx searched (lt, e) =
        let held : find key ≡ some (val_at h p idx) =
          ap find (sym e) ∙ root_held h w p n v height find m idx lt in
        let clash : none ≡ some (val_at h p idx) = sym absent ∙ held in cc
    by_answer false idx searched place =
        let (w', split, g) =
          split-IsGrown h w p n v idx key val kb vb place.0 two small new_small few in
        (
          w',
          put-grown h w p n v fuel idx key val w' fits searched full split,
          grown-Represents h w p n v height find m idx key val place w' g,
        )
