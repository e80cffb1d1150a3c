-- ===== src/LeafPage/Store.antt =====
-- `leaf_search` and `insert_leaf_entry` together, as `put` runs them on a leaf with room.
use db.Prelude.{
  ℕ, ◌+◌, ◌-◌, ◌≤◌, ◌<◌, ◌≡◌, sym, ap, subst, ◌∙◌, List, length, Bool, true, false, arith,
}
use native.Mathlib.Decide.{dec_lt, ℕ_discrete}
use db.Outcomes.{Outcome, ok}
use db.Words.{Endian}
use db.Words.Bytes.{AreBytes}
use db.Order.{◌≺◌}
use db.PageBuf.Slots.{upper_of, lower_of}
use db.Writer.Entries.{leaf_nbytes, insert_leaf_entry}
use db.Writer.Pages.{leaf_search}
use db.LeafPage.{IsLeaf, key_at, val_at}
use db.LeafPage.Insert.{Inserted, insert_leaf_entry-Inserted}
use db.LeafPage.Search.{IsSorted, IsPlace, leaf_search-IsPlace, ≺_irrefl, key_unique}

abbrev answer_of : Bool → ℕ → Outcome (Bool × ℕ)
answer_of b i = ok (b, i)

found_inv : (a b : Bool) (i j : ℕ) → answer_of a i ≡ answer_of b j → (a ≡ b) × (i ≡ j)
found_inv a b i j e = (ap (λ o. (fst_of o)) e, ap (λ o. (snd_of o)) e)
  where
    fst_of : Outcome (Bool × ℕ) → Bool
    fst_of (ok x) = x.0
    fst_of _ = a

    snd_of : Outcome (Bool × ℕ) → ℕ
    snd_of (ok x) = x.1
    snd_of _ = i

-- The answer of `leaf_search` is the place of the key.
pub leaf_search-IsPlace_of :
    (h : Endian) (p : List ℕ) (n pgno : ℕ) (key : List ℕ) (found : Bool) (idx : ℕ)
    → IsLeaf h p n
    → AreBytes p
    → IsSorted h p n
    → leaf_search h pgno p key ≡ ok (found, idx)
    → IsPlace h p n key found idx
leaf_search-IsPlace_of h p n pgno key found idx v bytes sorted e =
    let (b, i, found_here, place) = leaf_search-IsPlace h p n pgno key v bytes sorted in
    let (eb, ei) = found_inv b found i idx (sym found_here ∙ e) in
    subst (λ k. IsPlace h p n key found k) ei (subst (λ x. IsPlace h p n key x i) eb place)

-- A key that the leaf holds is found where it is.
pub leaf_search-held :
    (h : Endian) (p : List ℕ) (n pgno : ℕ) (key : List ℕ) (idx : ℕ)
    → IsLeaf h p n
    → AreBytes p
    → IsSorted h p n
    → idx < n
    → key_at h p idx ≡ key
    → leaf_search h pgno p key ≡ ok (true, idx)
leaf_search-held h p n pgno key idx v bytes sorted lt e =
    let (b, i, found, place) = leaf_search-IsPlace h p n pgno key v bytes sorted in
    found ∙ same_answer b i place
  where
    same_answer : (b : Bool) (i : ℕ) → IsPlace h p n key b i → answer_of b i ≡ answer_of true idx
    same_answer true i (li, same) =
        ap (answer_of true) (key_unique h p n sorted i idx li lt (same ∙ sym e))
    same_answer false i (le, below, above) = elim (dec_lt idx i) [
      | yes less ↦ absurd (≺_irrefl key (subst (λ k. k ≺ key) e (below idx less)))
      | no more ↦ absurd (≺_irrefl key (subst (λ k. key ≺ k) e (above idx (omega arith) lt)))
    ]

module _ (h : Endian) (p q : List ℕ) (n idx : ℕ) (key val : List ℕ) (sorted : IsSorted h p n)
    (place : IsPlace h p n key false idx) (ins : Inserted h p q n idx key val) where
  later : (j : ℕ) → idx < j → j < n + 1 → key_at h q j ≡ key_at h p (j - 1)
  later j lt le =
      let back : j ≡ j - 1 + 1 = omega arith in
      ap (key_at h q) back ∙ (ins.after (j - 1) (omega arith) (omega arith)).0

  below_key : (i : ℕ) → i < idx → key_at h q i ≺ key
  below_key i lt = subst (λ k. k ≺ key) (sym (ins.before i lt).0) (place.1 i lt)

  above_key : (j : ℕ) → idx < j → j < n + 1 → key ≺ key_at h q j
  above_key j lt le =
      subst (λ k. key ≺ k) (sym (later j lt le)) (place.2 (j - 1) (omega arith) (omega arith))

  olds :
      (i j i' j' : ℕ)
      → key_at h q i ≡ key_at h p i'
      → key_at h q j ≡ key_at h p j'
      → i' < j'
      → j' < n
      → key_at h q i ≺ key_at h q j
  olds i j i' j' ei ej lt le =
      subst (λ k. k ≺ key_at h q j) (sym ei)
        (subst (λ k. key_at h p i' ≺ k) (sym ej) (sorted i' j' lt le))

  Inserted-IsSorted : IsSorted h q (n + 1)
  Inserted-IsSorted i j lt le = elim (dec_lt i idx) [
    | yes i_low ↦ elim (dec_lt j idx) [
      | yes j_low ↦
          olds i j i j (ins.before i i_low).0 (ins.before j j_low).0 lt (omega (arith, place.0))
      | no j_high ↦ elim (ℕ_discrete j idx) [
        | yes j_here ↦
            subst (λ k. key_at h q i ≺ k) (sym (ap (key_at h q) j_here ∙ ins.key_new))
              (below_key i i_low)
        | no j_off ↦
            olds i j i (j - 1) (ins.before i i_low).0 (later j (omega arith) le) (omega arith)
              (omega arith)
      ]
    ]
    | no i_high ↦ elim (ℕ_discrete i idx) [
      | yes i_here ↦
          subst (λ k. k ≺ key_at h q j) (sym (ap (key_at h q) i_here ∙ ins.key_new))
            (above_key j (omega arith) le)
      | no i_off ↦
          olds i j (i - 1) (j - 1) (later i (omega arith) (omega arith)) (later j (omega arith) le)
            (omega arith) (omega arith)
    ]
  ]

-- The insertion at the place that `leaf_search` answers, with all that the new page keeps.
pub insert-searched :
    (h : Endian) (p : List ℕ) (n pgno idx : ℕ) (key val : List ℕ)
    → IsLeaf h p n
    → AreBytes p
    → AreBytes key
    → AreBytes val
    → IsSorted h p n
    → leaf_search h pgno p key ≡ ok (false, idx)
    → leaf_nbytes (length key) (length val) + 2 ≤ upper_of h p - lower_of h p
    → (q : List ℕ) × (insert_leaf_entry h idx key val p ≡ ok q)
      × Inserted h p q n idx key val
      × IsSorted h q (n + 1)
      × (leaf_search h pgno q key ≡ ok (true, idx))
insert-searched h p n pgno idx key val v bytes kb vb sorted searched room =
    let place = leaf_search-IsPlace_of h p n pgno key false idx v bytes sorted searched in
    let (q, inserted, ins) = insert_leaf_entry-Inserted h p n idx key val v place.0 room in
    let ascending = Inserted-IsSorted h p q n idx key val sorted place ins in
    let held =
      leaf_search-held h q (n + 1) pgno key idx ins.leaf (ins.bytes bytes kb vb) ascending
        (omega (arith, place.0)) ins.key_new in
    (q, inserted, ins, ascending, held)

-- On a leaf of bytes whose keys ascend, when `leaf_search` answers `(false, idx)` for a key of
-- bytes and the leaf has room for the entry and its pointer, `insert_leaf_entry` at `idx` succeeds
-- and leaves a leaf of bytes of the same size, of one entry more, whose keys ascend; `leaf_search`
-- then answers `(true, idx)`, and entry `idx` holds the key and the value.
pub leaf_search-insert_leaf_entry :
    (h : Endian) (p : List ℕ) (n pgno idx : ℕ) (key val : List ℕ)
    → IsLeaf h p n
    → AreBytes p
    → AreBytes key
    → AreBytes val
    → IsSorted h p n
    → leaf_search h pgno p key ≡ ok (false, idx)
    → leaf_nbytes (length key) (length val) + 2 ≤ upper_of h p - lower_of h p
    → (q : List ℕ) × (insert_leaf_entry h idx key val p ≡ ok q)
      × (length q ≡ length p)
      × IsLeaf h q (n + 1)
      × AreBytes q
      × IsSorted h q (n + 1)
      × (leaf_search h pgno q key ≡ ok (true, idx))
      × (key_at h q idx ≡ key)
      × (val_at h q idx ≡ val)
leaf_search-insert_leaf_entry h p n pgno idx key val v bytes kb vb sorted searched room =
    let (q, inserted, ins, ascending, held) =
      insert-searched h p n pgno idx key val v bytes kb vb sorted searched room in
    (
      q,
      inserted,
      ins.same_length,
      ins.leaf,
      ins.bytes bytes kb vb,
      ascending,
      held,
      ins.key_new,
      ins.val_new,
    )
