-- ===== src/LeafSplit/Shared.antt =====
-- `share_leaf`: the entries of a leaf and a new one on two pages.
use db.Prelude.{
  ℕ, suc, ◌+◌, ◌-◌, ◌*◌, ◌/◌, ◌≤◌, ◌<◌, ◌≡◌, refl, ap, ap₂, subst, ◌∙◌, List, length, arith, none,
  some, true, false, if◌then◌else◌, ltb, ◌==◌,
}
use native.Mathlib.Decide.{dec_lt}
use db.Outcomes.{ok}
use db.Words.{Endian}
use db.Words.Bytes.{AreBytes, window-AreBytes}
use db.Format.{page_header_size}
use db.Page.{PageView, parse}
use db.Writer.Entries.{leaf_nbytes, write_entry_at_slot, copy_entries}
use db.Writer.Plan.{SplitPlan, entry_nbytes, compute_psplit_split_leaf, psplit_loop}
use db.Writer.Plan.Balance.{Fits, psplit_loop-Fits, slot_cost, sum_below}
use db.Writer.Split.{share_leaf}
use db.LeafPage.{IsLeaf, key_at, val_at}
use db.LeafPage.Read.{leaf_entry-parse}
use db.LeafSplit.{Blank}
use db.LeafSplit.Copies.{Reads, place, sum_from}
use db.LeafSplit.Half.{IsHalf, IsHalf-with, IsHalf-without}
use db.LeafSplit.Sums.{sum_from-add, sum_below-low, sum_below-high}

-- The row `f` with `new` put in front of the item of index `skip`.
abbrev pub merged : ℕ → List ℕ → (ℕ → List ℕ) → ℕ → List ℕ
merged skip new f o = if skip == o then new else if ltb skip o then f (o - 1) else f o

pub merged-before :
    (skip : ℕ) (x : List ℕ) (f : ℕ → List ℕ) (o : ℕ) → o < skip → merged skip x f o ≡ f o
merged-before skip x f o lt = ground arith

pub merged-here :
    (skip : ℕ) (x : List ℕ) (f : ℕ → List ℕ) (o : ℕ) → o ≡ skip → merged skip x f o ≡ x
merged-here skip x f o e = ground arith

pub merged-after :
    (skip : ℕ) (x : List ℕ) (f : ℕ → List ℕ) (o i : ℕ)
    → skip < o
    → o ≡ i + 1
    → merged skip x f o ≡ f i
merged-after skip x f o i lt e = let back : o - 1 ≡ i = omega arith in ground (arith, ap f back)

-- The row without its new item, as a page leaves its slot out.
merged-place :
    (skip : ℕ) (x : List ℕ) (f : ℕ → List ℕ) (left r j : ℕ)
    → left + r ≡ skip
    → merged skip x f (left + place r j) ≡ f (left + j)
merged-place skip x f left r j e = elim (dec_lt j r) [
  | yes lt ↦
      let here : place r j ≡ j = ground arith in
      ap (λ o. merged skip x f (left + o)) here ∙ merged-before skip x f (left + j) (omega arith)
  | no ge ↦
      let here : place r j ≡ j + 1 = ground arith in
      ap (λ o. merged skip x f (left + o)) here
      ∙ merged-after skip x f (left + (j + 1)) (left + j) (omega arith) (omega arith)
]

-- The size of entry `i` of a leaf, without its pointer.
abbrev pub size_of : Endian → List ℕ → ℕ → ℕ
size_of h p i = leaf_nbytes (length (key_at h p i)) (length (val_at h p i))

-- The leaf `old`, of `n` entries, with the new pair at index `skip`, on two pages: `left` entries
-- on `l`, the others on `r`, none of them empty.
pub record IsShared (h : Endian) (old : List ℕ) (n skip : ℕ) (key val l_buf r_buf l r : List ℕ)
    : Type 0 where
  pub left : ℕ
  pub left_some : 1 ≤ left
  pub right_some : left ≤ n
  pub l_half :
      IsHalf h l_buf l left (merged skip key (key_at h old)) (merged skip val (val_at h old))
  pub r_half :
      IsHalf h r_buf r
        (n + 1 - left)
        (λ i. merged skip key (key_at h old) (left + i))
        (λ i. merged skip val (val_at h old) (left + i))

module _ (h : Endian) (pgno psize skip n : ℕ) (old key val l_buf r_buf : List ℕ) (view : PageView)
    (plan : SplitPlan) (parsed : parse h pgno old false ≡ ok view)
    (planned : compute_psplit_split_leaf h view skip (leaf_nbytes (length key) (length val)) psize
      ≡ ok plan) where
  share_right :
      (l r r' : List ℕ)
      → plan.right_target ≡ true
      → copy_entries h view 0 plan.left_slots none l_buf ≡ ok l
      → copy_entries h view plan.left_slots view.nentries (some (skip - plan.left_slots)) r_buf
        ≡ ok r
      → write_entry_at_slot h (skip - plan.left_slots) key val r ≡ ok r'
      → share_leaf h pgno old psize skip key val l_buf r_buf ≡ ok (l, r')
  unfolding share_leaf
  share_right l r r' e cl cr wr = rw (parsed, planned, e, cl, cr, wr) refl

  share_left :
      (l l' r : List ℕ)
      → plan.right_target ≡ false
      → copy_entries h view 0 (plan.left_slots - 1) (some skip) l_buf ≡ ok l
      → copy_entries h view (plan.left_slots - 1) view.nentries none r_buf ≡ ok r
      → write_entry_at_slot h skip key val l ≡ ok l'
      → share_leaf h pgno old psize skip key val l_buf r_buf ≡ ok (l', r)
  unfolding share_leaf
  share_left l l' r e cl cr wr = rw (parsed, planned, e, cl, cr, wr) refl

  module _ (v : IsLeaf h old n) (old_bytes : AreBytes old) (kb : AreBytes key) (vb : AreBytes val)
      (nents : view.nentries ≡ n) (reads : Reads h view n (key_at h old) (val_at h old))
      (l_blank : Blank h l_buf) (l_bytes : AreBytes l_buf) (l_len : length l_buf ≡ psize)
      (r_blank : Blank h r_buf) (r_bytes : AreBytes r_buf) (r_len : length r_buf ≡ psize)
      (roomy : page_header_size ≤ psize) (inside : skip ≤ n)
      (fits : Fits
        (psize - page_header_size)
        n
        (slot_cost skip (leaf_nbytes (length key) (length val)) (size_of h old))
        plan.left_slots) where
    abbrev ilen : ℕ
    ilen = leaf_nbytes (length key) (length val)

    abbrev size : ℕ → ℕ
    size = size_of h old

    abbrev left : ℕ
    left = plan.left_slots

    key_bytes : (i : ℕ) → i < n → AreBytes (key_at h old i)
    key_bytes i lt = window-AreBytes old _ _ old_bytes

    val_bytes : (i : ℕ) → i < n → AreBytes (val_at h old i)
    val_bytes i lt = window-AreBytes old _ _ old_bytes

    total : sum_below (slot_cost skip ilen size) (suc n) ≡ sum_from size 0 n + (n + 1) * 2 + ilen
    total =
        let all : suc n ≡ skip + 1 + (n - skip) = omega arith in
        let same : skip + (n - skip) ≡ n = omega arith in
        let count : skip + 1 + (n - skip) ≡ n + 1 = omega arith in
        ap (sum_below (slot_cost skip ilen size)) all
        ∙ sum_below-high skip ilen size (n - skip)
        ∙ ap₂ (λ a b. sum_from size 0 a + b * 2 + ilen) same count

    rest : (a : ℕ) → a ≤ n → sum_from size 0 n ≡ sum_from size 0 a + sum_from size a (n - a)
    rest a le =
        let all : n ≡ a + (n - a) = omega arith in
        let here : 0 + a ≡ a = omega arith in
        ap (sum_from size 0) all
        ∙ sum_from-add size 0 a (n - a)
        ∙ ap (λ s. sum_from size 0 a + sum_from size s (n - a)) here

    from_zero : (f : ℕ → List ℕ) (j : ℕ) → f j ≡ f (0 + j)
    from_zero f j = let same : j ≡ 0 + j = omega arith in ap f same

    abbrev Answer : Type 0
    Answer =
        (l : List ℕ) × (r : List ℕ) × (share_leaf h pgno old psize skip key val l_buf r_buf
          ≡ ok (l, r))
        × IsShared h old n skip key val l_buf r_buf l r

    module _ (on_right : left ≤ skip) where
      right_sums : sum_below (slot_cost skip ilen size) left ≡ sum_from size 0 left + left * 2
      right_sums = sum_below-low skip ilen size left on_right

      right_Answer : plan.right_target ≡ true → Answer
      right_Answer e =
          let (l, copied, l_half) =
            IsHalf-without h view n (key_at h old) (val_at h old) reads key_bytes val_bytes 0 left
              left (omega arith) (omega (arith, fits.right_some)) l_buf l_blank l_bytes
              (merged skip key (key_at h old)) (merged skip val (val_at h old)) fits.left_some
              (λ j lt.
                merged-before skip key (key_at h old) j (omega (arith, on_right))
                ∙ from_zero (key_at h old) j)
              (λ j lt.
                merged-before skip val (val_at h old) j (omega (arith, on_right))
                ∙ from_zero (val_at h old) j)
              (omega (arith, right_sums, fits.left_room, l_len, roomy)) in
          let (r, r', copied', written, r_half) =
            IsHalf-with h view n (key_at h old) (val_at h old) reads key_bytes val_bytes left
              view.nentries (n - left) (ap (λ m. m - left) nents) (omega (arith, fits.right_some))
              r_buf r_blank r_bytes (λ i. merged skip key (key_at h old) (left + i))
              (λ i. merged skip val (val_at h old) (left + i)) (skip - left) key val
              (omega (arith, inside)) kb vb
              (merged-here skip key (key_at h old) (left + (skip - left)) (omega (arith, on_right)))
              (merged-here skip val (val_at h old) (left + (skip - left)) (omega (arith, on_right)))
              (λ j lt. merged-place skip key (key_at h old) left (skip - left) j (omega arith))
              (λ j lt. merged-place skip val (val_at h old) left (skip - left) j (omega arith))
              (omega (
                arith,
                right_sums,
                total,
                rest left fits.right_some,
                fits.right_room,
                r_len,
                roomy,
                fits.right_some,
              )) in
          (
            l,
            r',
            share_right l r r' e copied copied' written,
            record {
              left = left;
              left_some = fits.left_some;
              right_some = fits.right_some;
              l_half = l_half;
              r_half =
                  subst
                    (λ m.
                      IsHalf h r_buf r' m (λ i. merged skip key (key_at h old) (left + i))
                        (λ i. merged skip val (val_at h old) (left + i)))
                    (omega (arith, fits.right_some)) r_half;
            },
          )

    module _ (on_left : skip < left) where
      left_sums :
          sum_below (slot_cost skip ilen size) left ≡ sum_from size 0 (left - 1) + left * 2 + ilen
      left_sums =
          let all : left ≡ skip + 1 + (left - 1 - skip) = omega arith in
          let same : skip + (left - 1 - skip) ≡ left - 1 = omega arith in
          let count : skip + 1 + (left - 1 - skip) ≡ left = omega arith in
          ap (sum_below (slot_cost skip ilen size)) all
          ∙ sum_below-high skip ilen size (left - 1 - skip)
          ∙ ap₂ (λ a b. sum_from size 0 a + b * 2 + ilen) same count

      zero_place :
          (x : List ℕ) (f : ℕ → List ℕ) (j : ℕ) → merged skip x f (place skip j) ≡ f (0 + j)
      zero_place x f j =
          let same : place skip j ≡ 0 + place skip j = omega arith in
          ap (merged skip x f) same ∙ merged-place skip x f 0 skip j (omega arith)

      behind : (x : List ℕ) (f : ℕ → List ℕ) (j : ℕ) → merged skip x f (left + j) ≡ f (left - 1 + j)
      behind x f j = merged-after skip x f (left + j) (left - 1 + j) (omega arith) (omega arith)

      left_Answer : plan.right_target ≡ false → Answer
      left_Answer e =
          let (l, l', copied, written, l_half) =
            IsHalf-with h view n (key_at h old) (val_at h old) reads key_bytes val_bytes 0
              (left - 1) (left - 1) (omega arith) (omega (arith, fits.right_some)) l_buf l_blank
              l_bytes (merged skip key (key_at h old)) (merged skip val (val_at h old)) skip key val
              (omega arith) kb vb (merged-here skip key (key_at h old) skip refl)
              (merged-here skip val (val_at h old) skip refl)
              (λ j lt. zero_place key (key_at h old) j) (λ j lt. zero_place val (val_at h old) j)
              (omega (arith, left_sums, fits.left_room, l_len, roomy)) in
          let width : n - (left - 1) ≡ n + 1 - left = omega (arith, fits.left_some) in
          let tail : sum_from size (left - 1) (n - (left - 1))
              ≡ sum_from size (left - 1) (n + 1 - left) =
            ap (sum_from size (left - 1)) width in
          let (r, copied', r_half) =
            IsHalf-without h view n (key_at h old) (val_at h old) reads key_bytes val_bytes
              (left - 1) view.nentries (n + 1 - left) (ap (λ m. m - (left - 1)) nents ∙ omega arith)
              (omega (arith, fits.right_some)) r_buf r_blank r_bytes
              (λ i. merged skip key (key_at h old) (left + i))
              (λ i. merged skip val (val_at h old) (left + i)) (omega (arith, fits.right_some))
              (λ j lt. behind key (key_at h old) j) (λ j lt. behind val (val_at h old) j)
              (omega (
                arith,
                left_sums,
                total,
                rest (left - 1) (omega (arith, fits.right_some)),
                tail,
                fits.right_room,
                fits.right_some,
                r_len,
                roomy,
              )) in
          let count : left - 1 + 1 ≡ left = omega arith in
          (
            l',
            r,
            share_left l l' r e copied copied' written,
            record {
              left = left;
              left_some = fits.left_some;
              right_some = fits.right_some;
              l_half =
                  subst
                    (λ m.
                      IsHalf h l_buf l' m (merged skip key (key_at h old))
                        (merged skip val (val_at h old)))
                    count l_half;
              r_half = r_half;
            },
          )

entry_nbytes-eq-ok :
    (h : Endian) (view : PageView) (n : ℕ) (skey sval : ℕ → List ℕ)
    → Reads h view n skey sval
    → (i : ℕ) → i < n
    → entry_nbytes h view i ≡ ok (leaf_nbytes (length (skey i)) (length (sval i)))
unfolding entry_nbytes
entry_nbytes-eq-ok h view n skey sval reads i lt =
    let (e, found, k, d) = reads i lt in rw (found, k, d) refl

-- For a leaf of bytes with at least two entries and a new pair of bytes for index `skip` of it, none
-- of which takes with its pointer more than half of the bytes behind a page's header, and which
-- together take at most one and a half times those bytes, and two empty leaf pages of the page
-- size: `share_leaf` succeeds, and the two pages are then leaves, none of them empty, that hold the
-- entries of the old leaf with the new pair at index `skip`, in this order, first those on the left
-- page and then those on the right one; the entries of a page share no byte, and the page numbers,
-- links and flags of the two pages are kept.
pub share_leaf-IsShared :
    (h : Endian) (pgno psize skip n : ℕ) (old key val l_buf r_buf : List ℕ)
    → IsLeaf h old n
    → AreBytes old
    → AreBytes key
    → AreBytes val
    → Blank h l_buf
    → AreBytes l_buf
    → length l_buf ≡ psize
    → Blank h r_buf
    → AreBytes r_buf
    → length r_buf ≡ psize
    → page_header_size + 4 ≤ psize
    → 2 ≤ n
    → skip ≤ n
    → ((o : ℕ)
        → o ≤ n
        → slot_cost skip (leaf_nbytes (length key) (length val)) (size_of h old) o
          ≤ (psize - page_header_size) / 2)
    → sum_below (slot_cost skip (leaf_nbytes (length key) (length val)) (size_of h old)) (suc n)
      ≤ psize - page_header_size + (psize - page_header_size) / 2
    → (l : List ℕ) × (r : List ℕ) × (share_leaf h pgno old psize skip key val l_buf r_buf
        ≡ ok (l, r))
      × IsShared h old n skip key val l_buf r_buf l r
unfolding compute_psplit_split_leaf
share_leaf-IsShared h pgno psize skip n old key val l_buf r_buf v ob kb vb l_blank lb l_len r_blank
      rb r_len roomy two inside small whole =
    let (view, parsed, nents, reads) = leaf_entry-parse h false old n pgno v ob in
    let (plan, planned, side, fits) =
      psplit_loop-Fits skip (leaf_nbytes (length key) (length val)) psize n (entry_nbytes h view)
        (size_of h old) roomy two inside
        (entry_nbytes-eq-ok h view n (key_at h old) (val_at h old) reads) small whole in
    let planned_here : compute_psplit_split_leaf h view skip (leaf_nbytes (length key) (length val))
          psize
        ≡ ok plan =
      ap
        (λ top.
          psplit_loop skip (leaf_nbytes (length key) (length val)) psize top (entry_nbytes h view))
        nents
      ∙ planned in
    elim (dec_lt skip plan.left_slots) [
      | yes lt ↦
          left_Answer h pgno psize skip n old key val l_buf r_buf view plan parsed planned_here v ob
            kb vb nents reads l_blank lb l_len r_blank rb r_len (omega arith) inside fits lt
            (ground (arith, side))
      | no ge ↦
          right_Answer h pgno psize skip n old key val l_buf r_buf view plan parsed planned_here v
            ob kb vb nents reads l_blank lb l_len r_blank rb r_len (omega arith) inside fits
            (omega arith) (ground (arith, side))
    ]
